-- ===== src/Comm/Runtime/Inbound/Gate.antt =====
-- What the gate of the bus lets through.
use clone_craft.Base.{
  String, ◌≡◌, refl, ◌↔◌, subst, ◌⊎◌, inl, inr, Bool, true, false, ◌||◌, Option, none, some, arith,
}
use clone_craft.Text.{is_empty}
use clone_craft.Exec.{ok_injective, ok, and_then-eq-ok, require-eq-ok}
use clone_craft.Comm.Envelope.{CommunicationEnvelope}
use clone_craft.Comm.Envelope.Validity.{IsValidEnvelope, validate_envelope_iff}
use clone_craft.Comm.Schema.{
  PayloadSchema, is_valid_payload_schema, is_concrete_schema, require_payload_schema,
  payload_matches,
}
use clone_craft.Comm.Registries.{SlotDefinition, schema_of}
use clone_craft.Comm.Runtime.{Bus}
use clone_craft.Comm.Runtime.Inbound.{
  principal_has_capability, slot_for, authorized, validate_inbound, accept,
}

schema_inversion :
    (schema : PayloadSchema)
    → require_payload_schema schema false ≡ ok tt
    → (is_valid_payload_schema schema ≡ true) × (is_concrete_schema schema ≡ true)
unfolding require_payload_schema
schema_inversion schema h = (ground arith, ground arith)

or_cases : (a b : Bool) → (a || b) ≡ true → (a ≡ true) ⊎ (b ≡ true)
or_cases true b h = inl refl
or_cases false b h = inr h

module _ {H T : Type 0} where
  pub record IsAccepted (e : CommunicationEnvelope) (b : Bus H T) (slot : SlotDefinition)
      : Type 0 where
    pub valid : IsValidEnvelope e
    pub schema : PayloadSchema
    pub declared : schema_of e.action e.kind b.signals ≡ ok schema
    pub known : is_valid_payload_schema schema ≡ true
    pub concrete : is_concrete_schema schema ≡ true
    pub carries : payload_matches e.payload schema ≡ true
    pub routed : slot_for e b ≡ some slot
    pub permitted :
        (is_empty slot.key.capability ≡ true)
        ⊎ (principal_has_capability e.sender slot.key.capability b ≡ true)

  accept-routed :
      (sender : String) (b : Bus H T) (o : Option SlotDefinition) (slot : SlotDefinition)
      → accept sender b o ≡ ok slot
      → (o ≡ some slot)
        × ((is_empty slot.key.capability ≡ true)
            ⊎ (principal_has_capability sender slot.key.capability b ≡ true))
  unfolding accept authorized
  accept-routed sender b none slot h = absurd (ground arith)
  accept-routed sender b (some found) slot h =
      let (allowed, same) = require-eq-ok _ _ _ slot h in
      subst
        (λ (d : SlotDefinition).
          ((some found ≡ some d)
            × ((is_empty d.key.capability ≡ true)
                ⊎ (principal_has_capability sender d.key.capability b ≡ true))))
        (ok_injective same) (refl, or_cases (is_empty found.key.capability) _ allowed)

  gate-IsAccepted :
      (e : CommunicationEnvelope) (b : Bus H T) (slot : SlotDefinition)
      → validate_inbound e b ≡ ok slot
      → IsAccepted e b slot
  unfolding validate_inbound
  gate-IsAccepted e b slot h =
      let (u, valid, h₁) = and_then-eq-ok _ _ slot h in
      let (signal, h₂) = require-eq-ok _ _ _ slot h₁ in
      let (schema, declared, h₃) = and_then-eq-ok _ _ slot h₂ in
      let (v, shaped, h₄) = and_then-eq-ok _ _ slot h₃ in
      let (carries, h₅) = require-eq-ok _ _ _ slot h₄ in
      let (routed, permitted) = accept-routed e.sender b (slot_for e b) slot h₅ in
      record {
        valid = (validate_envelope_iff e).0 valid;
        schema = schema;
        declared = declared;
        known = (schema_inversion schema shaped).0;
        concrete = (schema_inversion schema shaped).1;
        carries = carries;
        routed = routed;
        permitted = permitted;
      }

  accepted-gate :
      (e : CommunicationEnvelope) (b : Bus H T) (slot : SlotDefinition)
      → IsAccepted e b slot
      → validate_inbound e b ≡ ok slot
  unfolding validate_inbound require_payload_schema schema_of authorized
  accepted-gate e b slot a = ground (
    arith,
    (validate_envelope_iff e).1 a.valid,
    a.declared,
    a.known,
    a.concrete,
    a.carries,
    a.routed,
    a.permitted,
  )

  -- The gate lets a message through to a slot exactly when the message is valid, its signal is
  -- declared with a concrete schema that the payload matches, the slot is the best match for the
  -- message, and the slot asks for no capability or for one that the sender has been granted. What
  -- the message says about its own capability counts only for the choice of the slot.
  pub validate_inbound_iff :
      (e : CommunicationEnvelope) (b : Bus H T) (slot : SlotDefinition)
      → (validate_inbound e b ≡ ok slot) ↔ IsAccepted e b slot
  validate_inbound_iff e b slot = (gate-IsAccepted e b slot, accepted-gate e b slot)
