-- ===== src/Comm/Envelope/Reply.antt =====
-- `makeReply`.
use clone_craft.Base.{ℕ, ◌+◌, ◌<◌, String, ◌≡◌, false, Option, none, some, arith}
use clone_craft.Text.{is_empty}
use clone_craft.Exec.{ok}
use clone_craft.Comm.Envelope.{
  CommunicationEnvelope, CommandResultPayload, reply, validate_envelope, or_else, reply_for,
  make_reply,
}
use clone_craft.Comm.Envelope.Validity.{IsValidEnvelope, validate_envelope_iff}

reply_receiver :
    (o : Option String) (s : String) → is_empty s ≡ false → is_empty (or_else o s) ≡ false
reply_receiver none s h = h
reply_receiver (some r) s h = ground arith

reply_for-IsValid :
    (cause : CommunicationEnvelope) (result : CommandResultPayload) (id : ℕ)
    → 0 < id
    → IsValidEnvelope cause
    → IsValidEnvelope (reply_for cause result id)
unfolding reply_for
reply_for-IsValid cause result id h v = record {
  identified = h;
  known_kind = λ n k. cc;
  has_sender = ground arith;
  has_receiver = reply_receiver cause.reply_to cause.sender v.has_sender;
  context_named = v.context_named;
  action_named = v.action_named;
  capability_named = λ c k. cc;
  correlation_set = λ n k. ground (arith, v.identified);
  reply_correlated = λ k q. cc;
  reply_addressed = λ k. ground arith;
}

-- The reply to a valid message is itself valid. It has the next id of the source, correlates with
-- that message, and goes to the explicit reply address or else to the sender.
pub make_reply-IsValid :
    (cause answer : CommunicationEnvelope) (result : CommandResultPayload) (ids id : ℕ)
    → validate_envelope cause ≡ ok tt
    → make_reply cause result ids ≡ ok (answer, id)
    → (validate_envelope answer ≡ ok tt)
      × (answer.message_id ≡ ids + 1)
      × (id ≡ ids + 1)
      × (answer.kind ≡ reply)
      × (answer.correlation_id ≡ some cause.message_id)
      × (answer.receiver ≡ or_else cause.reply_to cause.sender)
unfolding make_reply reply_for
make_reply-IsValid cause answer result ids id v h = (
  rw (← made) (
      (validate_envelope_iff _).1 (
        reply_for-IsValid cause result (ids + 1) (omega arith)
          ((validate_envelope_iff cause).0 v))),
  ground arith,
  ground arith,
  ground arith,
  ground arith,
  ground arith,
)
  where
    made : reply_for cause result (ids + 1) ≡ answer
    made = ground arith
