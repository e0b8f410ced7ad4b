-- ===== src/Tests/Sample.antt =====
-- A small bus with one guarded command, a handler that replies to it and a sink that throws.
use clone_craft.Base.{
  ℕ, ◌+◌, ◌≡◌, refl, true, false, none, some, [], ◌∷◌, string_key, String-discrete,
}
use clone_craft.Assoc.{empty, put, find}
use clone_craft.Exec.{ok, err}
use clone_craft.Text.{is_namespaced_id}
use clone_craft.Comm.Error.{empty_principal}
use clone_craft.Comm.Envelope.{
  CommunicationEnvelope, CommandResultPayload, command, block_place_payload, reply_for,
  validate_envelope,
}
use clone_craft.Comm.Schema.{
  require_payload_schema, payload_matches, block_place, default_output_contract,
}
use clone_craft.Comm.Route.{route_key, EnvelopeKind-discrete, RouteKey-discrete, find_slot}
use clone_craft.Comm.Registries.{SlotDefinition, signal, signal_key, SignalKey-discrete, schema_of}
use clone_craft.Comm.Queue.{new}
use clone_craft.Comm.Runtime.{Bus, System, Foreign}
use clone_craft.Comm.Runtime.Inbound.{validate_inbound}
use clone_craft.Comm.Runtime.Register.{Dimensions, definition_of, key_for}

abbrev pub place : CommunicationEnvelope
place = record {
  message_id = 7;
  kind = command;
  sender = "lua:mod";
  receiver = "world:state";
  context = "world:overworld";
  action = "block:place";
  capability = some "cap:build";
  target = none;
  payload = block_place_payload 3;
  reply_to = none;
  correlation_id = none;
}

abbrev pub guarded : Dimensions
guarded = record {
  action = "block:place";
  kind = command;
  receiver = some "world:state";
  context = none;
  capability = some "cap:build";
}

abbrev pub slot : SlotDefinition
slot = definition_of guarded block_place "block:place.0" (default_output_contract command)

abbrev pub bus : Bus ℕ ℕ
bus = record {
  router = record { routes = put (key_for guarded) "block:place.0" empty; trace = none };
  ids = 7;
  inbound = record { capacity = 2; items = place ∷ [] };
  outbound = new 1;
  signals = put (signal "block:place" command) block_place empty;
  slots = put (key_for guarded) slot empty;
  actions = put "block:place.0" 0 empty;
  capabilities = put "lua:mod" (put "cap:build" tt empty) empty;
  trace = some 0;
  trace_failures = 0;
  trace_active = false;
  auto_action_counter = 1;
  async_pump_active = false;
}

abbrev pub result : CommandResultPayload
result = record { ok = true; error = ""; value = none }

-- Each handler answers and counts its calls in the world, and each sink throws.
abbrev pub foreign : Foreign ℕ ℕ ℕ
foreign = record {
  run = λ h e s. (ok (reply_for e result 8 ∷ []), record s { world = s.world + 1 });
  observe = λ t e b w. (err empty_principal, w);
}

abbrev pub system : System ℕ ℕ ℕ
system = record { bus = bus; world = 0 }

pub place-valid : validate_envelope place ≡ ok tt
unfolding validate_envelope is_namespaced_id
place-valid = refl

pub place-accepted : validate_inbound place bus ≡ ok slot
unfolding find put empty validate_inbound validate_envelope is_namespaced_id schema_of find_slot
    RouteKey-discrete EnvelopeKind-discrete SignalKey-discrete String-discrete
    require_payload_schema payload_matches
place-accepted = refl
