-- ===== src/Comm/Runtime/Inbound.antt =====
-- CommunicationRuntime.cpp: the gate of the bus, the checks on the outputs of a handler, and the
-- trace.
pub mod Gate
pub mod Contract
pub mod Trace
use clone_craft.Base.{
  ℕ, ◌+◌, ◌%◌, ◌^◌, String, Bool, true, false, not, ◌||◌, Option, none, some, List, [], ◌∷◌, length,
  leb, ◌==◌, ite, if◌then◌else◌, string_key,
}
use clone_craft.Text.{is_empty}
use clone_craft.Assoc.{Map, find, contains}
use clone_craft.Exec.{Result, ok, err, require, and_then}
use clone_craft.Comm.Error.{
  no_signal, wrong_payload, no_slot, unauthorized, too_many_outputs, wrong_output_kind,
  wrong_output_payload, uncorrelated_output,
}
use clone_craft.Comm.Envelope.{CommunicationEnvelope, validate_envelope}
use clone_craft.Comm.Schema.{OutputContract, require_payload_schema, payload_matches}
use clone_craft.Comm.Route.{or_wildcard, find_slot, EnvelopeKind-discrete}
use clone_craft.Comm.Registries.{SlotDefinition, has_signal, schema_of}
use clone_craft.Comm.Runtime.{Bus, System, Foreign}

abbrev member : String → Option (Map String (Unit {0})) → Bool
member capability none = false
member capability (some granted) = contains capability granted

module _ {H T : Type 0} where
  unfoldable pub principal_has_capability : String → String → Bus H T → Bool
  principal_has_capability principal capability b =
      member capability (find principal b.capabilities)

  -- `mSlots.find( … )` for a message.
  unfoldable pub slot_for : CommunicationEnvelope → Bus H T → Option SlotDefinition
  slot_for e b = find_slot b.slots e.action e.kind e.receiver e.context (or_wildcard e.capability)

  unfoldable pub authorized : String → SlotDefinition → Bus H T → Bool
  unfolding principal_has_capability
  authorized sender slot b =
      is_empty slot.key.capability || principal_has_capability sender slot.key.capability b

  accept : String → Bus H T → Option SlotDefinition → Result SlotDefinition
  unfolding authorized
  accept sender b none = err no_slot
  accept sender b (some slot) = require (authorized sender slot b) unauthorized (ok slot)

  unfoldable pub validate_inbound : CommunicationEnvelope → Bus H T → Result SlotDefinition
  unfolding accept slot_for
  validate_inbound e b = and_then (validate_envelope e) λ _.
      require (has_signal e.action e.kind b.signals) no_signal (
        and_then (schema_of e.action e.kind b.signals) λ signal_schema.
          and_then (require_payload_schema signal_schema false) λ _.
            require (payload_matches e.payload signal_schema) wrong_payload
              (accept e.sender b (slot_for e b)))

-- `output.correlationId.has_value() && *output.correlationId == cause`
abbrev pub correlates : Option ℕ → ℕ → Bool
correlates none cause = false
correlates (some id) cause = id == cause

unfoldable pub check_output :
    CommunicationEnvelope → OutputContract → CommunicationEnvelope → Result (Unit {0})
unfolding EnvelopeKind-discrete
check_output cause contract output =
    require (ite (EnvelopeKind-discrete output.kind contract.kind) true false) wrong_output_kind (
      require (payload_matches output.payload contract.schema) wrong_output_payload (
        require
          (not contract.require_correlation || correlates output.correlation_id cause.message_id)
          uncorrelated_output (ok tt)))

check_each : CommunicationEnvelope → OutputContract → List CommunicationEnvelope → Result (Unit {0})
check_each cause contract [] = ok tt
check_each cause contract (output ∷ rest) =
    and_then (check_output cause contract output) λ _. check_each cause contract rest

-- `validateOutputsAgainstContract`
unfoldable pub check_contract :
    CommunicationEnvelope → SlotDefinition → List CommunicationEnvelope → Result (Unit {0})
unfolding check_each
check_contract cause slot outputs =
    require (leb (length outputs) slot.contract.max_outputs) too_many_outputs
      (check_each cause slot.contract outputs)

module _ {H T W : Type 0} (foreign : Foreign H T W) where
  abbrev failed : Result (Unit {0}) → ℕ
  failed (ok u) = 0
  failed (err e) = 1

  -- After the sink: a throw is counted and goes no further.
  after_sink : System H T W → Result (Unit {0}) × W → System H T W
  after_sink s (r, w) = record {
    bus = record s.bus {
      trace_failures = (s.bus.trace_failures + failed r) % 2 ^ 64;
      trace_active = false;
    };
    world = w;
  }

  sink_call : Option T → CommunicationEnvelope → System H T W → System H T W
  unfolding after_sink
  sink_call none e s = s
  sink_call (some sink) e s =
      if s.bus.trace_active
      then s
      else after_sink s (foreign.observe sink e (record s.bus { trace_active = true }) s.world)

  -- `emitTrace`
  unfoldable pub emit_trace : CommunicationEnvelope → System H T W → System H T W
  unfolding sink_call
  emit_trace e s = sink_call s.bus.trace e s

  unfoldable pub emit_all : List CommunicationEnvelope → System H T W → System H T W
  unfolding emit_trace
  emit_all [] s = s
  emit_all (e ∷ rest) s = emit_all rest (emit_trace e s)
