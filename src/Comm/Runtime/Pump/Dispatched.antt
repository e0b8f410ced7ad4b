-- ===== src/Comm/Runtime/Pump/Dispatched.antt =====
-- `dispatch`: what it hands to its caller.
use clone_craft.Base.{◌≤◌, ◌≡◌, refl, sym, subst, Bool, true, false, length, All, if◌then◌else◌}
use clone_craft.Exec.{Result, ok, err, ◌>>=◌, >>=-ok, >>=-err}
use clone_craft.Comm.Error.{Error, trace_reentrancy}
use clone_craft.Comm.Envelope.{CommunicationEnvelope}
use clone_craft.Comm.Registries.{SlotDefinition}
use clone_craft.Comm.Router.{DispatchResult}
use clone_craft.Comm.Runtime.{System, Foreign}
use clone_craft.Comm.Runtime.Inbound.{validate_inbound, emit_all}
use clone_craft.Comm.Runtime.Inbound.Contract.{Honours, check_contract_iff}
use clone_craft.Comm.Runtime.Pump.{execute, dispatch}
use clone_craft.Comm.Runtime.Pump.Reservation.{execute-checked}

module _ {H T W : Type 0} (foreign : Foreign H T W) where
  -- The ways in which a dispatch comes out.
  pub data Dispatched (e : CommunicationEnvelope) (s : System H T W)
      : Result DispatchResult × System H T W → Type 0 where
    tracing : s.bus.trace_active ≡ true → Dispatched e s (err trace_reentrancy, s)
    invalid : (x : Error) → validate_inbound e s.bus ≡ err x → Dispatched e s (err x, s)
    failed :
        (slot : SlotDefinition) (x : Error) (t : System H T W)
        → validate_inbound e s.bus ≡ ok slot
        → execute foreign e slot s ≡ (err x, t)
        → Dispatched e s (err x, t)
    answered :
        (slot : SlotDefinition) (result : DispatchResult) (t : System H T W)
        → validate_inbound e s.bus ≡ ok slot
        → execute foreign e slot s ≡ (ok result, t)
        → length result.replies ≤ slot.contract.max_outputs
        → All (Honours e slot.contract) result.replies
        → Dispatched e s (ok result, emit_all foreign result.replies t)

  handed_over : DispatchResult → System H T W → Result DispatchResult × System H T W
  handed_over result t = (ok result, emit_all foreign result.replies t)

  executed :
      (e : CommunicationEnvelope) (slot : SlotDefinition) (s : System H T W)
      (out : Result DispatchResult × System H T W)
      → validate_inbound e s.bus ≡ ok slot
      → execute foreign e slot s ≡ out
      → Dispatched e s ((execute foreign e slot >>= handed_over) s)
  unfolding handed_over
  executed e slot s (err x, t) accepted h =
      subst (Dispatched e s) (sym (>>=-err _ _ s t x h)) (failed slot x t accepted h)
  executed e slot s (ok result, t) accepted h =
      let (few, honoured) =
        (check_contract_iff e slot result.replies).0
          (execute-checked foreign e slot s t result h) in
      subst (Dispatched e s) (sym (>>=-ok _ _ s t result h))
        (answered slot result t accepted h few honoured)

  judged :
      (e : CommunicationEnvelope) (s : System H T W) (r : Result SlotDefinition)
      → validate_inbound e s.bus ≡ r
      → Dispatched e s
          (elim r [ err x ↦ (err x, s) | ok slot ↦ (execute foreign e slot >>= handed_over) s ])
  judged e s (err x) h = invalid x h
  judged e s (ok slot) h = executed e slot s _ h refl

  chosen :
      (e : CommunicationEnvelope) (s : System H T W) (active : Bool)
      (rest : Result DispatchResult × System H T W)
      → s.bus.trace_active ≡ active
      → Dispatched e s rest
      → Dispatched e s (if active then (err trace_reentrancy, s) else rest)
  chosen e s true rest h go = tracing h
  chosen e s false rest h go = go

  -- Every way out of a dispatch: within a trace and for a message that the gate refuses nothing runs
  -- and nothing changes; if the handler or a check on its outputs fails, that error is returned; and
  -- otherwise the caller gets all outputs of the handler, which are no more than the slot's contract
  -- allows and honour it, and each of them is traced.
  pub dispatch-Dispatched :
      (e : CommunicationEnvelope) (s : System H T W) → Dispatched e s (dispatch foreign e s)
  unfolding dispatch handed_over
  dispatch-Dispatched e s =
      chosen e s s.bus.trace_active _ refl (judged e s (validate_inbound e s.bus) refl)
