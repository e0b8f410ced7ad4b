-- ===== src/Comm/Runtime/Pump/Delivery.antt =====
-- A pump delivers all that its handler produced, or nothing.
use clone_craft.Base.{◌≤◌, ◌≡◌, refl, sym, ap, ◌∙◌, subst, true, false, some, length, All, arith}
use clone_craft.Exec.{Result, ok, err, >>=-ok, >>=-err, >>-ok}
use clone_craft.Exec.Frame.{Keeps}
use clone_craft.Comm.Error.{Error}
use clone_craft.Comm.Envelope.{CommunicationEnvelope}
use clone_craft.Comm.Queue.{available, peek}
use clone_craft.Comm.Registries.{SlotDefinition}
use clone_craft.Comm.Router.{DispatchResult}
use clone_craft.Comm.Runtime.{System, Foreign}
use clone_craft.Comm.Runtime.Inbound.{validate_inbound}
use clone_craft.Comm.Runtime.Inbound.Contract.{Honours, check_contract_iff}
use clone_craft.Comm.Runtime.Pump.{
  execute, take_head, set_active, consume, release, commit, pump_one, done,
}
use clone_craft.Comm.Runtime.Pump.Backpressure.{pump_one-runs}
use clone_craft.Comm.Runtime.Pump.Commit.{appended, commit-delivers}
use clone_craft.Comm.Runtime.Pump.Reservation.{Reserves, execute-room, execute-checked}

module _ {H T W : Type 0} where
  -- What a pump returns, by what the handler and the checks on its outputs returned.
  pub data Delivered (e : CommunicationEnvelope) (slot : SlotDefinition)
      : Result DispatchResult × System H T W → Result DispatchResult × System H T W → Type 0 where
    failed :
        (x : Error) (t : System H T W) → Delivered e slot (err x, t) (err x, set_active false t)
    delivered :
        (result : DispatchResult) (t u : System H T W)
        → length result.replies ≤ slot.contract.max_outputs
        → All (Honours e slot.contract) result.replies
        → u.bus.outbound ≡ appended result.replies t.bus.outbound
        → Delivered e slot (ok result, t) (ok done, set_active false u)

  module _ (foreign : Foreign H T W)
      (honest : (handler : H) (e : CommunicationEnvelope)
        → Keeps Reserves (foreign.run handler e)) where
    consume-Delivered :
        (e : CommunicationEnvelope) (slot : SlotDefinition) (s : System H T W)
        (out : Result DispatchResult × System H T W)
        → s.bus.async_pump_active ≡ true
        → slot.contract.max_outputs ≤ available s.bus.outbound
        → execute foreign e slot (take_head s) ≡ out
        → Delivered e slot out (release (consume foreign e slot s))
    unfolding consume release
    consume-Delivered e slot s (err x, t) active room h =
        subst (λ p. Delivered e slot (err x, t) (release p))
          (sym (>>-ok _ _ s (take_head s) tt refl ∙ >>=-err _ _ (take_head s) t x h)) (failed x t)
    consume-Delivered e slot s (ok result, t) active room h =
        let (few, honoured) =
          (check_contract_iff e slot result.replies).0
            (execute-checked foreign e slot (take_head s) t result h) in
        let kept : available s.bus.outbound ≤ available t.bus.outbound =
          subst
            (λ (p : Result DispatchResult × System H T W).
              available s.bus.outbound ≤ available p.1.bus.outbound)
            h (execute-room foreign honest e slot (take_head s) active) in
        let (fine, appears) =
          commit-delivers foreign result.replies t (omega (arith, few, room, kept)) in
        let u : System H T W = (commit foreign result.replies t).1 in
        let committed : commit foreign result.replies t ≡ (ok tt, u) = ap (λ r. (r, u)) fine in
        subst (λ p. Delivered e slot (ok result, t) (release p))
          (sym (
            >>-ok _ _ s (take_head s) tt refl
            ∙ >>=-ok _ _ (take_head s) t result h
            ∙ >>-ok _ _ t u tt committed))
          (delivered result t u few honoured appears)

    -- When the head of the inbound queue passes the gate and the outbound queue has room for what
    -- its slot's contract allows, a pump runs its handler. If the handler or a check fails, the
    -- error is returned and nothing more happens. Otherwise the outputs honour the contract and all
    -- of them are behind what the outbound queue held when the handler ended: a delivery is never
    -- partial. It is assumed that handlers only take from the outbound queue during a pump.
    pub pump_one-Delivered :
        (e : CommunicationEnvelope) (slot : SlotDefinition) (s : System H T W)
        → s.bus.trace_active ≡ false
        → s.bus.async_pump_active ≡ false
        → peek s.bus.inbound ≡ some e
        → validate_inbound e s.bus ≡ ok slot
        → slot.contract.max_outputs ≤ available s.bus.outbound
        → Delivered e slot
            (execute foreign e slot (take_head (set_active true s)))
            (pump_one foreign s)
    unfolding set_active
    pump_one-Delivered e slot s quiet idle head accepted room =
        subst (Delivered e slot _)
          (sym (pump_one-runs foreign e slot s quiet idle head accepted room))
          (consume-Delivered e slot (set_active true s) _ refl room refl)
