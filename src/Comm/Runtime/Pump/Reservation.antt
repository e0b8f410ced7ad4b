-- ===== src/Comm/Runtime/Pump/Reservation.antt =====
-- The room that a pump reserves before the handler runs is still there when its outputs are
-- delivered.
use clone_craft.Base.{string_key, ◌≤◌, ◌≡◌, ap, ◌∙◌, subst, true, arith}
use clone_craft.Exec.{ok, >>=-eq-ok, >>-eq-ok, lift_inversion, ok_injective}
use clone_craft.Exec.Frame.{Keeps}
use clone_craft.Comm.Envelope.{CommunicationEnvelope}
use clone_craft.Comm.Queue.{available}
use clone_craft.Comm.Registries.{SlotDefinition}
use clone_craft.Comm.Router.{DispatchResult}
use clone_craft.Comm.Runtime.{System, Foreign}
use clone_craft.Comm.Runtime.Inbound.{check_contract}
use clone_craft.Comm.Runtime.Inbound.Trace.{Traced, Traced-outbound, Traced-active}
use clone_craft.Comm.Runtime.Pump.Frame.{execute-Keeps}
use clone_craft.Comm.Runtime.Pump.{execute}

module _ {H T W : Type 0} where
  -- While the pump runs, the outbound queue only gains room: no other operation pushes onto it.
  pub data Reserves (s t : System H T W) : Type 0 where
    reserves :
        (s.bus.async_pump_active ≡ true
          → (t.bus.async_pump_active ≡ true)
            × (available s.bus.outbound ≤ available t.bus.outbound))
        → Reserves s t

  unchanged : (s : System H T W) → Reserves s s
  unchanged s = reserves (λ h. (h, omega arith))

  chain : (s t u : System H T W) → Reserves s t → Reserves t u → Reserves s u
  chain s t u (reserves f) (reserves g) =
      reserves (λ h. ((g (f h).0).0, omega (arith, (f h).1, (g (f h).0).1)))

  Traced-Reserves : (s t : System H T W) → Traced s t → Reserves s t
  Traced-Reserves s t traced = reserves (λ h. (
    Traced-active s t traced ∙ h,
    ground (arith, ap (λ q. available q) (Traced-outbound s t traced)),
  ))

  module _ (foreign : Foreign H T W)
      (honest : (handler : H) (e : CommunicationEnvelope)
        → Keeps Reserves (foreign.run handler e)) where
    pub execute-room :
        (e : CommunicationEnvelope) (slot : SlotDefinition) (s : System H T W)
        → s.bus.async_pump_active ≡ true
        → available s.bus.outbound ≤ available (execute foreign e slot s).1.bus.outbound
    execute-room e slot s h =
        elim (execute-Keeps foreign Reserves unchanged chain (λ s t. Traced-Reserves s t) honest e
          slot s) [ reserves f ↦ (f h).1 ]

module _ {H T W : Type 0} (foreign : Foreign H T W) where
  pub execute-checked :
      (e : CommunicationEnvelope) (slot : SlotDefinition) (s t : System H T W)
      (result : DispatchResult)
      → execute foreign e slot s ≡ (ok result, t)
      → check_contract e slot result.replies ≡ ok tt
  unfolding execute
  execute-checked e slot s t result h =
      let (u, s₁, seen, h₁) = >>-eq-ok _ _ s result t h in
      let (made, s₂, routed, h₂) = >>=-eq-ok _ _ s₁ result t h₁ in
      let (v, s₃, checked, h₃) = >>-eq-ok _ _ s₂ result t h₂ in
      let same : ok made ≡ ok result = ap (λ p. p.0) h₃ in
      subst (λ (r : DispatchResult). check_contract e slot r.replies ≡ ok tt) (ok_injective same)
        (lift_inversion (check_contract e slot made.replies) v s₂ s₃ checked).0
