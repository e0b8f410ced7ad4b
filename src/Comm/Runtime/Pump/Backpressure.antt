-- ===== src/Comm/Runtime/Pump/Backpressure.antt =====
-- When a pump runs the handler, and that it changes nothing when it does not.
use clone_craft.Base.{
  ◌≤◌, ◌<◌, ◌≡◌, refl, sym, ap, ◌∙◌, subst, Bool, true, false, Option, none, some, leb,
  if◌then◌else◌, arith,
}
use clone_craft.Exec.{Result, ok, err}
use clone_craft.Comm.Error.{Error, trace_reentrancy, reentrant_pump, nothing_pending, backpressure}
use clone_craft.Comm.Envelope.{CommunicationEnvelope}
use clone_craft.Comm.Queue.{available, peek}
use clone_craft.Comm.Registries.{SlotDefinition}
use clone_craft.Comm.Router.{DispatchResult}
use clone_craft.Comm.Runtime.{System, Foreign}
use clone_craft.Comm.Runtime.Inbound.{validate_inbound}
use clone_craft.Comm.Runtime.Pump.{set_active, consume, release, pump_one, pump_next}

both_false :
    {A : Type 0} (a b : Bool) (x y z : A)
    → a ≡ false
    → b ≡ false
    → (if a then x else if b then y else z) ≡ z
both_false a b x y z h k = ground arith

module _ {H T W : Type 0} (foreign : Foreign H T W) where
  -- The ways in which a pump comes out before it takes a message, and the one in which it goes on.
  pub data Pumped (s : System H T W) : Result DispatchResult × System H T W → Type 0 where
    tracing : s.bus.trace_active ≡ true → Pumped s (err trace_reentrancy, s)
    reentrant : s.bus.async_pump_active ≡ true → Pumped s (err reentrant_pump, s)
    idle : peek s.bus.inbound ≡ none → Pumped s (err nothing_pending, s)
    invalid :
        (e : CommunicationEnvelope) (x : Error)
        → peek s.bus.inbound ≡ some e
        → validate_inbound e s.bus ≡ err x
        → Pumped s (err x, s)
    blocked :
        (e : CommunicationEnvelope) (slot : SlotDefinition)
        → peek s.bus.inbound ≡ some e
        → validate_inbound e s.bus ≡ ok slot
        → available s.bus.outbound < slot.contract.max_outputs
        → Pumped s (err backpressure, s)
    ran :
        (e : CommunicationEnvelope) (slot : SlotDefinition)
        → peek s.bus.inbound ≡ some e
        → validate_inbound e s.bus ≡ ok slot
        → slot.contract.max_outputs ≤ available s.bus.outbound
        → Pumped s (release (consume foreign e slot (set_active true s)))

  released :
      (s : System H T W)
      → s.bus.async_pump_active ≡ false
      → set_active false (set_active true s) ≡ s
  unfolding set_active
  released s h = ap (λ a. set_active a s) (sym h)

  pub still_accepted :
      (e : CommunicationEnvelope) (s : System H T W)
      → validate_inbound e (set_active true s).bus ≡ validate_inbound e s.bus
  unfolding validate_inbound set_active
  still_accepted e s = refl

  roomy :
      (e : CommunicationEnvelope) (slot : SlotDefinition) (s : System H T W) (fits : Bool)
      → leb slot.contract.max_outputs (available s.bus.outbound) ≡ fits
      → s.bus.async_pump_active ≡ false
      → peek s.bus.inbound ≡ some e
      → validate_inbound e s.bus ≡ ok slot
      → Pumped s (
          release (
            if fits
            then consume foreign e slot (set_active true s)
            else (err backpressure, set_active true s)))
  unfolding release
  roomy e slot s true h free head accepted = ran e slot head accepted (ground arith)
  roomy e slot s false h free head accepted =
      subst (λ t. Pumped s (err backpressure, t)) (sym (released s free))
        (blocked e slot head accepted (ground arith))

  judged :
      (e : CommunicationEnvelope) (s : System H T W) (r : Result SlotDefinition)
      → validate_inbound e s.bus ≡ r
      → s.bus.async_pump_active ≡ false
      → peek s.bus.inbound ≡ some e
      → Pumped s (
          release (elim r [
            | err x ↦ (err x, set_active true s)
            | ok slot ↦
                if leb slot.contract.max_outputs (available s.bus.outbound)
                then consume foreign e slot (set_active true s)
                else (err backpressure, set_active true s)
          ]))
  unfolding release
  judged e s (err x) h free head =
      subst (λ t. Pumped s (err x, t)) (sym (released s free)) (invalid e x head h)
  judged e s (ok slot) h free head = roomy e slot s _ refl free head h

  looked :
      (o : Option CommunicationEnvelope) (s : System H T W)
      → peek s.bus.inbound ≡ o
      → s.bus.async_pump_active ≡ false
      → Pumped s (release (pump_next foreign o (set_active true s)))
  unfolding pump_next release
  looked none s h free =
      subst (λ t. Pumped s (err nothing_pending, t)) (sym (released s free)) (idle h)
  looked (some e) s h free =
      judged e s (validate_inbound e (set_active true s).bus) (sym (still_accepted e s)) free h

  chosen :
      (s : System H T W) (active busy : Bool)
      → s.bus.trace_active ≡ active
      → s.bus.async_pump_active ≡ busy
      → Pumped s (
          if active
          then (err trace_reentrancy, s)
          else if busy
          then (err reentrant_pump, s)
          else release (pump_next foreign (peek s.bus.inbound) (set_active true s)))
  chosen s true busy h k = tracing h
  chosen s false true h k = reentrant k
  chosen s false false h k = looked _ s refl k

  -- A pump within a trace or within another pump, one with nothing pending, one whose head the gate
  -- refuses and one whose head may produce more than the outbound queue has room for change nothing
  -- at all: the message stays at the head and its handler does not run. In every other case the
  -- message is taken.
  pub pump_one-Pumped : (s : System H T W) → Pumped s (pump_one foreign s)
  unfolding pump_one
  pump_one-Pumped s = chosen s s.bus.trace_active s.bus.async_pump_active refl refl

  pump_next-runs :
      (e : CommunicationEnvelope) (slot : SlotDefinition) (s : System H T W)
      → validate_inbound e s.bus ≡ ok slot
      → leb slot.contract.max_outputs (available s.bus.outbound) ≡ true
      → pump_next foreign (some e) s ≡ consume foreign e slot s
  unfolding pump_next
  pump_next-runs e slot s accepted room =
      ap
        (λ (r : Result SlotDefinition). elim r as (λ _. Result DispatchResult × System H T W) [
          | err x ↦ (err x, s)
          | ok found ↦
              if leb found.contract.max_outputs (available s.bus.outbound)
              then consume foreign e found s
              else (err backpressure, s)
        ])
        accepted
      ∙ ap (λ (fits : Bool). if fits then consume foreign e slot s else (err backpressure, s)) room

  has_room :
      (slot : SlotDefinition) (s : System H T W)
      → slot.contract.max_outputs ≤ available s.bus.outbound
      → leb slot.contract.max_outputs (available (set_active true s).bus.outbound) ≡ true
  unfolding set_active
  has_room slot s room = ground (arith, room)

  pub pump_one-runs :
      (e : CommunicationEnvelope) (slot : SlotDefinition) (s : System H T W)
      → s.bus.trace_active ≡ false
      → s.bus.async_pump_active ≡ false
      → peek s.bus.inbound ≡ some e
      → validate_inbound e s.bus ≡ ok slot
      → slot.contract.max_outputs ≤ available s.bus.outbound
      → pump_one foreign s ≡ release (consume foreign e slot (set_active true s))
  unfolding pump_one
  pump_one-runs e slot s quiet free head accepted room =
      both_false _ _ _ _ _ quiet free
      ∙ ap (λ o. release (pump_next foreign o (set_active true s))) head
      ∙ ap (λ r. release r)
          (pump_next-runs e slot (set_active true s) (still_accepted e s ∙ accepted)
            (has_room slot s room))
