-- ===== src/Comm/Envelope/Validity.antt =====
-- What `validateEnvelope` accepts, independently of the order in which it asks.
use clone_craft.Base.{
  ℕ, ◌<◌, String, ◌≡◌, refl, ◌↔◌, ◌≢◌, true, false, not, ◌||◌, Option, none, some, arith,
}
use clone_craft.Text.{is_namespaced_id, is_empty}
use clone_craft.Exec.{ok}
use clone_craft.Comm.Envelope.{
  CommunicationEnvelope, EnvelopeKind, reply, forged, is_valid_envelope_kind, is_reply, present,
  non_empty, capability_ok, correlation_ok, validate_envelope,
}

pub record IsValidEnvelope (e : CommunicationEnvelope) : Type 0 where
  pub identified : 0 < e.message_id
  pub known_kind : (n : ℕ) → e.kind ≢ forged n
  pub has_sender : is_empty e.sender ≡ false
  pub has_receiver : is_empty e.receiver ≡ false
  pub context_named : is_namespaced_id e.context ≡ true
  pub action_named : is_namespaced_id e.action ≡ true
  pub capability_named : (c : String) → e.capability ≡ some c → is_namespaced_id c ≡ true
  pub correlation_set : (n : ℕ) → e.correlation_id ≡ some n → 0 < n
  pub reply_correlated : e.kind ≡ reply → e.correlation_id ≢ none
  pub reply_addressed : e.kind ≡ reply → non_empty e.reply_to ≡ true

-- Each test of the validation, from what it stands for.
kind_accepted : (k : EnvelopeKind) → ((n : ℕ) → k ≢ forged n) → is_valid_envelope_kind k ≡ true
kind_accepted (forged n) h = absurd (h n refl)
kind_accepted _ h = refl

pub is_namespaced_id-nonempty : (s : String) → is_namespaced_id s ≡ true → is_empty s ≡ false
unfolding is_namespaced_id
is_namespaced_id-nonempty String.[] h = cc
is_namespaced_id-nonempty (String.◌∷◌ c s) h = refl

capability_accepted :
    (o : Option String)
    → ((c : String) → o ≡ some c → is_namespaced_id c ≡ true)
    → capability_ok o ≡ true
capability_accepted none h = refl
capability_accepted (some c) h = rw (h c refl, is_namespaced_id-nonempty c (h c refl))

correlation_accepted : (o : Option ℕ) → ((n : ℕ) → o ≡ some n → 0 < n) → correlation_ok o ≡ true
correlation_accepted none h = refl
correlation_accepted (some n) h = ground (arith, h n refl)

reply_correlation_accepted :
    (k : EnvelopeKind) (o : Option ℕ)
    → ((n : ℕ) → o ≡ some n → 0 < n)
    → (k ≡ reply → o ≢ none)
    → (not (is_reply k) || present o) ≡ true
reply_correlation_accepted reply none h r = absurd (r refl refl)
reply_correlation_accepted reply (some n) h r = ground (arith, h n refl)
reply_correlation_accepted _ o h r = refl

reply_address_accepted :
    (k : EnvelopeKind) (o : Option String)
    → (k ≡ reply → non_empty o ≡ true)
    → (not (is_reply k) || non_empty o) ≡ true
reply_address_accepted reply o r = r refl
reply_address_accepted _ o r = refl

module _ (e : CommunicationEnvelope) where
  validate_envelope-IsValidEnvelope : validate_envelope e ≡ ok tt → IsValidEnvelope e
  unfolding validate_envelope
  validate_envelope-IsValidEnvelope h = record {
    identified = ground arith;
    known_kind = λ n k. ground arith;
    has_sender = ground arith;
    has_receiver = ground arith;
    context_named = ground arith;
    action_named = ground arith;
    capability_named = λ c k. ground arith;
    correlation_set = λ n k. ground arith;
    reply_correlated = λ k q. ground arith;
    reply_addressed = λ k. ground arith;
  }

  IsValidEnvelope-validate_envelope : IsValidEnvelope e → validate_envelope e ≡ ok tt
  unfolding validate_envelope
  IsValidEnvelope-validate_envelope v = ground (
    arith,
    v.identified,
    kind_accepted e.kind v.known_kind,
    capability_accepted e.capability v.capability_named,
    reply_correlation_accepted e.kind e.correlation_id v.correlation_set v.reply_correlated,
    reply_address_accepted e.kind e.reply_to v.reply_addressed,
    correlation_accepted e.correlation_id v.correlation_set,
  )

-- A message passes the validation exactly when it has an id, a defined kind, a sender and a
-- receiver, a namespaced context and action, a namespaced capability if any and no zero
-- correlation, and as a reply a correlation and a reply address.
pub validate_envelope_iff :
    (e : CommunicationEnvelope) → (validate_envelope e ≡ ok tt) ↔ IsValidEnvelope e
validate_envelope_iff e = (validate_envelope-IsValidEnvelope e, IsValidEnvelope-validate_envelope e)
