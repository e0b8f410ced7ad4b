-- ===== src/Comm/Envelope.antt =====
-- world/communication/CommunicationEnvelope.h, CommunicationEnvelope.cpp: the message, its
-- validation, the source of message ids and the reply to a message.
pub mod Validity
pub mod Reply
use clone_craft.Base.{
  ℕ, ◌+◌, String, Bool, true, false, not, ◌||◌, Option, none, some, ◌==◌, if◌then◌else◌,
}
use clone_craft.Text.{is_namespaced_id, is_empty}
use clone_craft.Values.{PropertyValue}
use clone_craft.Coords.{BlockAddress}
use clone_craft.State.Target.{WorldStateTarget}
use clone_craft.Exec.{Result, ok, err, require, and_then}
use clone_craft.Comm.Error.{
  no_message_id, bad_kind, no_sender, no_receiver, bad_context, bad_action, bad_capability,
  reply_without_correlation, reply_without_address, zero_correlation, ids_exhausted,
}

-- `forged n` is a value outside the enumeration, n + 4, which a cast can make.
pub data EnvelopeKind : Type 0 where
  command query event reply : EnvelopeKind
  forged : ℕ → EnvelopeKind

pub record CommandResultPayload : Type 0 where
  pub ok : Bool
  pub error : String
  pub value : Option PropertyValue

pub data Payload : Type 0 where
  monostate : Payload
  block_place_payload : ℕ → Payload
  block_target_payload : BlockAddress → Payload
  property_set_payload : String → PropertyValue → Payload
  command_result_payload : CommandResultPayload → Payload
  query_payload : String → Payload
  event_value_payload : PropertyValue → Payload

pub record CommunicationEnvelope : Type 0 where
  pub message_id : ℕ
  pub kind : EnvelopeKind
  pub sender : String
  pub receiver : String
  pub context : String
  pub action : String
  pub capability : Option String
  pub target : Option WorldStateTarget
  pub payload : Payload
  pub reply_to : Option String
  pub correlation_id : Option ℕ

-- `isValidEnvelopeKind`, and the `validKind` of the router.
abbrev pub is_valid_envelope_kind : EnvelopeKind → Bool
is_valid_envelope_kind command = true
is_valid_envelope_kind query = true
is_valid_envelope_kind event = true
is_valid_envelope_kind reply = true
is_valid_envelope_kind (forged n) = false

abbrev pub is_reply : EnvelopeKind → Bool
is_reply command = false
is_reply query = false
is_reply event = false
is_reply reply = true
is_reply (forged n) = false

abbrev pub is_event : EnvelopeKind → Bool
is_event command = false
is_event query = false
is_event event = true
is_event reply = false
is_event (forged n) = false

-- `id.has_value() && id > 0`
abbrev pub present : Option ℕ → Bool
present none = false
present (some n) = not (n == 0)

-- `text.has_value() && !text->empty()`
abbrev pub non_empty : Option String → Bool
non_empty none = false
non_empty (some s) = not (is_empty s)

abbrev pub capability_ok : Option String → Bool
capability_ok none = true
capability_ok (some s) = not (is_empty s || not (is_namespaced_id s))

-- `!id.has_value() || id != 0`
abbrev pub correlation_ok : Option ℕ → Bool
correlation_ok none = true
correlation_ok (some n) = not (n == 0)

unfoldable pub validate_envelope : CommunicationEnvelope → Result (Unit {0})
validate_envelope e = require (not (e.message_id == 0)) no_message_id (
    require (is_valid_envelope_kind e.kind) bad_kind (
      require (not (is_empty e.sender)) no_sender (
        require (not (is_empty e.receiver)) no_receiver (
          require (is_namespaced_id e.context) bad_context (
            require (is_namespaced_id e.action) bad_action (
              require (capability_ok e.capability) bad_capability (
                require (not (is_reply e.kind) || present e.correlation_id)
                  reply_without_correlation
                  (require (not (is_reply e.kind) || non_empty e.reply_to) reply_without_address
                    (require (correlation_ok e.correlation_id) zero_correlation (ok tt))))))))))

abbrev pub uint64_max : ℕ
uint64_max = 18_446_744_073_709_551_615

-- `MessageIdSource::next`: the new id is also the new state of the source.
unfoldable pub next_id : ℕ → Result ℕ
next_id current = if current == uint64_max then err ids_exhausted else ok (current + 1)

abbrev pub or_else : Option String → String → String
or_else none s = s
or_else (some r) s = if is_empty r then s else r

-- The fields that `makeReply` fills in.
unfoldable pub reply_for : CommunicationEnvelope → CommandResultPayload → ℕ → CommunicationEnvelope
reply_for cause result id = record {
  message_id = id;
  kind = reply;
  sender = if is_empty cause.receiver then "world:state" else cause.receiver;
  receiver = or_else cause.reply_to cause.sender;
  context = cause.context;
  action = cause.action;
  capability = none;
  target = cause.target;
  payload = command_result_payload result;
  reply_to = some (if is_empty cause.receiver then cause.sender else cause.receiver);
  correlation_id = some cause.message_id;
}

-- The reply and the id that it has, which is the new state of the source.
unfoldable pub make_reply :
    CommunicationEnvelope → CommandResultPayload → ℕ → Result (CommunicationEnvelope × ℕ)
unfolding next_id
make_reply cause result ids = and_then (next_id ids) λ id. ok (reply_for cause result id, id)
