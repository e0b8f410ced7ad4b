-- ===== src/Comm/Runtime/Pump/Submit.antt =====
-- What a submission does, on every way out.
use clone_craft.Base.{
  ◌≤◌, ◌<◌, ◌≡◌, refl, sym, subst, inl, inr, Bool, true, false, [], ◌∷◌, ◌++◌, leb, if◌then◌else◌,
  arith,
}
use clone_craft.Exec.{Result, ok, err}
use clone_craft.Comm.Error.{Error, undeliverable, trace_reentrancy}
use clone_craft.Comm.Envelope.{CommunicationEnvelope}
use clone_craft.Comm.Queue.{try_push, available}
use clone_craft.Comm.Queue.Order.{zero_or_pos, try_push-room, try_push-full}
use clone_craft.Comm.Registries.{SlotDefinition}
use clone_craft.Comm.Runtime.{Bus}
use clone_craft.Comm.Runtime.Inbound.{validate_inbound}
use clone_craft.Comm.Runtime.Inbound.Gate.{IsAccepted, validate_inbound_iff}
use clone_craft.Comm.Runtime.Pump.{submit, enqueue, pushed}

module _ {H T : Type 0} where
  abbrev pub queued : CommunicationEnvelope → Bus H T → Bus H T
  queued e b = record b { inbound = record b.inbound { items = b.inbound.items ++ e ∷ [] } }

  pub data Submitted (e : CommunicationEnvelope) (b : Bus H T)
      : Result Bool × Bus H T → Type 0 where
    accepted :
        (slot : SlotDefinition)
        → IsAccepted e b slot
        → slot.contract.max_outputs ≤ b.outbound.capacity
        → 0 < available b.inbound
        → Submitted e b (ok true, queued e b)
    no_room :
        (slot : SlotDefinition)
        → IsAccepted e b slot
        → slot.contract.max_outputs ≤ b.outbound.capacity
        → available b.inbound ≡ 0
        → Submitted e b (ok false, b)
    oversized :
        (slot : SlotDefinition)
        → IsAccepted e b slot
        → b.outbound.capacity < slot.contract.max_outputs
        → Submitted e b (err undeliverable, b)
    invalid : (x : Error) → validate_inbound e b ≡ err x → Submitted e b (err x, b)
    tracing : b.trace_active ≡ true → Submitted e b (err trace_reentrancy, b)

  pushed-Submitted :
      (e : CommunicationEnvelope) (b : Bus H T) (slot : SlotDefinition)
      → IsAccepted e b slot
      → slot.contract.max_outputs ≤ b.outbound.capacity
      → Submitted e b (pushed (try_push e b.inbound) b)
  unfolding pushed
  pushed-Submitted e b slot a fits = elim (zero_or_pos (available b.inbound)) [
    | inl full ↦
        subst (λ p. Submitted e b (pushed p b)) (sym (try_push-full e b.inbound full))
          (no_room slot a fits full)
    | inr room ↦
        subst (λ p. Submitted e b (pushed p b)) (sym (try_push-room e b.inbound room))
          (accepted slot a fits room)
  ]

  enqueue-Submitted :
      (e : CommunicationEnvelope) (b : Bus H T) (slot : SlotDefinition)
      → IsAccepted e b slot
      → Submitted e b (enqueue e slot b)
  unfolding enqueue pushed
  enqueue-Submitted e b slot a = fitting (leb slot.contract.max_outputs b.outbound.capacity) refl
    where
      fitting :
          (fits : Bool)
          → leb slot.contract.max_outputs b.outbound.capacity ≡ fits
          → Submitted e b (if fits then pushed (try_push e b.inbound) b else (err undeliverable, b))
      fitting true h = pushed-Submitted e b slot a (ground arith)
      fitting false h = oversized slot a (ground arith)

  gated-Submitted :
      (e : CommunicationEnvelope) (b : Bus H T) (r : Result SlotDefinition)
      → validate_inbound e b ≡ r
      → Submitted e b (elim r [ err x ↦ (err x, b) | ok slot ↦ enqueue e slot b ])
  gated-Submitted e b (ok slot) h = enqueue-Submitted e b slot ((validate_inbound_iff e b slot).0 h)
  gated-Submitted e b (err x) h = invalid x h

  chosen :
      (e : CommunicationEnvelope) (b : Bus H T) (active : Bool) (rest : Result Bool × Bus H T)
      → b.trace_active ≡ active
      → Submitted e b rest
      → Submitted e b (if active then (err trace_reentrancy, b) else rest)
  chosen e b true rest h s = tracing h
  chosen e b false rest h s = s

  -- A submission appends the message to the inbound queue when the gate accepts it, its outputs can
  -- ever fit the outbound queue and there is room; every other way out leaves the bus as it was and
  -- says why.
  pub submit-Submitted : (e : CommunicationEnvelope) (b : Bus H T) → Submitted e b (submit e b)
  unfolding submit
  submit-Submitted e b =
      chosen e b b.trace_active _ refl (gated-Submitted e b (validate_inbound e b) refl)
