-- ===== src/Comm/Runtime/Inbound/Contract.antt =====
-- What the check of the outputs of a handler lets through.
use clone_craft.Base.{
  ◌≡◌, refl, ◌≤◌, ◌↔◌, true, Option, none, some, List, [], ◌∷◌, length, leb→le, arith, All, ℕ,
}
use clone_craft.Exec.{ok, and_then-eq-ok, require-eq-ok}
use clone_craft.Comm.Envelope.{CommunicationEnvelope}
use clone_craft.Comm.Schema.{OutputContract, payload_matches}
use clone_craft.Comm.Registries.{SlotDefinition}
use clone_craft.Comm.Runtime.Inbound.{correlates, check_output, check_each, check_contract}

module _ (cause : CommunicationEnvelope) (contract : OutputContract) where
  pub record Honours (output : CommunicationEnvelope) : Type 0 where
    pub of_kind : output.kind ≡ contract.kind
    pub of_schema : payload_matches output.payload contract.schema ≡ true
    pub correlated :
        contract.require_correlation ≡ true → output.correlation_id ≡ some cause.message_id

  correlates_iff :
      (o : Option ℕ) → (correlates o cause.message_id ≡ true) ↔ (o ≡ some cause.message_id)
  correlates_iff none = ground arith
  correlates_iff (some n) = ground arith

  output-Honours :
      (output : CommunicationEnvelope) → check_output cause contract output ≡ ok tt → Honours output
  unfolding check_output
  output-Honours output h = record {
    of_kind = ground arith;
    of_schema = ground arith;
    correlated = λ k. (correlates_iff output.correlation_id).0 (ground arith);
  }

  Honours-output :
      (output : CommunicationEnvelope) → Honours output → check_output cause contract output ≡ ok tt
  unfolding check_output
  Honours-output output a =
      ground (arith, a.of_kind, a.of_schema, a.correlated, (correlates_iff output.correlation_id).1)

  each-Honours :
      (outputs : List CommunicationEnvelope)
      → check_each cause contract outputs ≡ ok tt
      → All Honours outputs
  unfolding check_each
  each-Honours [] h = tt
  each-Honours (output ∷ rest) h =
      let (u, first, later) = and_then-eq-ok _ _ tt h in
      (output-Honours output first, each-Honours rest later)

  Honours-each :
      (outputs : List CommunicationEnvelope)
      → All Honours outputs
      → check_each cause contract outputs ≡ ok tt
  unfolding check_each
  Honours-each [] h = refl
  Honours-each (output ∷ rest) (first, later) =
      ground (arith, Honours-output output first, Honours-each rest later)

-- The outputs of a handler pass exactly when there are no more of them than the slot's contract
-- allows and each has the contract's kind, a payload of its schema and, where the contract asks for
-- it, the id of the cause as its correlation.
pub check_contract_iff :
    (cause : CommunicationEnvelope) (slot : SlotDefinition) (outputs : List CommunicationEnvelope)
    → (check_contract cause slot outputs ≡ ok tt)
      ↔ ((length outputs ≤ slot.contract.max_outputs) × All (Honours cause slot.contract) outputs)
unfolding check_contract
check_contract_iff cause slot outputs = (
  λ h.
      let (few, rest) = require-eq-ok _ _ _ tt h in
      (leb→le (length outputs) _ few, each-Honours cause slot.contract outputs rest),
  λ h. ground (arith, h.0, Honours-each cause slot.contract outputs h.1),
)
