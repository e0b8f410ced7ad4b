-- ===== src/Comm/Schema.antt =====
-- world/communication/CommunicationRegistries.h, CommunicationRegistries.cpp: the payload schemas
-- and the output contracts.
use clone_craft.Base.{ℕ, Bool, true, false, ite, ℕ_discrete}
use clone_craft.Exec.{Result, ok, require}
use clone_craft.Comm.Error.{unknown_schema, any_schema}
use clone_craft.Comm.Envelope.{
  EnvelopeKind, command, query, event, reply, forged, Payload, monostate, block_place_payload,
  block_target_payload, property_set_payload, command_result_payload, query_payload,
  event_value_payload,
}

-- `forged_schema n` is a value outside the enumeration.
pub data PayloadSchema : Type 0 where
  any no_payload block_place block_target property_set command_result query_schema : PayloadSchema
  event_value : PayloadSchema
  forged_schema : ℕ → PayloadSchema

unfoldable pub PayloadSchema-discrete : Discrete PayloadSchema
unfolding ℕ_discrete
PayloadSchema-discrete = hlevel ℕ_discrete

abbrev pub is_valid_payload_schema : PayloadSchema → Bool
is_valid_payload_schema (forged_schema n) = false
is_valid_payload_schema _ = true

-- `isConcreteSchema`
abbrev pub is_concrete_schema : PayloadSchema → Bool
is_concrete_schema any = false
is_concrete_schema _ = true

abbrev or_concrete : Bool → PayloadSchema → Bool
or_concrete true schema = true
or_concrete false schema = is_concrete_schema schema

unfoldable pub require_payload_schema : PayloadSchema → Bool → Result (Unit {0})
require_payload_schema schema allow_any =
    require (is_valid_payload_schema schema) unknown_schema
      (require (or_concrete allow_any schema) any_schema (ok tt))

unfoldable pub schema_accepts : PayloadSchema → PayloadSchema → Bool
unfolding PayloadSchema-discrete
schema_accepts signal any = true
schema_accepts signal slot = ite (PayloadSchema-discrete slot signal) true false

unfoldable pub payload_matches : Payload → PayloadSchema → Bool
payload_matches payload any = true
payload_matches monostate no_payload = true
payload_matches (block_place_payload id) block_place = true
payload_matches (block_target_payload a) block_target = true
payload_matches (property_set_payload p v) property_set = true
payload_matches (command_result_payload r) command_result = true
payload_matches (query_payload p) query_schema = true
payload_matches (event_value_payload v) event_value = true
payload_matches payload schema = false

pub record OutputContract : Type 0 where
  pub max_outputs : ℕ
  pub kind : EnvelopeKind
  pub schema : PayloadSchema
  pub require_correlation : Bool

abbrev one_reply : OutputContract
one_reply = record {
  max_outputs = 1;
  kind = reply;
  schema = command_result;
  require_correlation = true;
}

abbrev no_output : OutputContract
no_output = record {
  max_outputs = 0;
  kind = reply;
  schema = command_result;
  require_correlation = false;
}

unfoldable pub default_output_contract : EnvelopeKind → OutputContract
default_output_contract command = one_reply
default_output_contract query = one_reply
default_output_contract event = no_output
default_output_contract reply = no_output
default_output_contract (forged n) = no_output
