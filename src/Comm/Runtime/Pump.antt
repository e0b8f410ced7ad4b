-- ===== src/Comm/Runtime/Pump.antt =====
-- CommunicationRuntime.cpp: `dispatch`, `submit`, `pumpOne`, `pumpAll`, `nextOutput`.
pub mod Submit
pub mod Backpressure
pub mod Commit
pub mod Reservation
pub mod Delivery
pub mod Frame
pub mod Drained
pub mod Dispatched
use clone_craft.Base.{
  ℕ, zero, suc, String, Bool, true, false, Option, none, some, List, [], ◌∷◌, leb, if◌then◌else◌,
  string_key,
}
use clone_craft.Assoc.{find}
use clone_craft.Exec.{Result, ok, err, Exec, pure, throw, lift, ◌>>=◌, ◌>>◌}
use clone_craft.Comm.Error.{
  trace_reentrancy, reentrant_pump, unbound_action, undeliverable, nothing_pending, backpressure,
  commit_failed,
}
use clone_craft.Comm.Envelope.{CommunicationEnvelope}
use clone_craft.Comm.Queue.{BoundedQueue, try_push, pop, peek, available, is_empty_queue}
use clone_craft.Comm.Registries.{SlotDefinition}
use clone_craft.Comm.Router
use clone_craft.Comm.Router.{DispatchResult}
use clone_craft.Comm.Runtime.{Bus, System, Foreign}
use clone_craft.Comm.Runtime.Inbound.{validate_inbound, check_contract, emit_trace, emit_all}

abbrev pub done : DispatchResult
done = record { handled = true; replies = [] }

module _ {H T : Type 0} where
  pushed : Bool × BoundedQueue CommunicationEnvelope → Bus H T → Result Bool × Bus H T
  pushed (accepted, q) b = (ok accepted, record b { inbound = q })

  enqueue : CommunicationEnvelope → SlotDefinition → Exec (Bus H T) Bool
  unfolding pushed
  enqueue e slot b =
      if leb slot.contract.max_outputs b.outbound.capacity
      then pushed (try_push e b.inbound) b
      else (err undeliverable, b)

  unfoldable pub submit : CommunicationEnvelope → Exec (Bus H T) Bool
  unfolding enqueue
  submit e b =
      if b.trace_active
      then (err trace_reentrancy, b)
      else elim (validate_inbound e b) [ err x ↦ (err x, b) | ok slot ↦ enqueue e slot b ]

  unfoldable pub next_output : Exec (Bus H T) (Option CommunicationEnvelope)
  next_output b =
      if b.trace_active
      then (err trace_reentrancy, b)
      else (ok (pop b.outbound).0, record b { outbound = (pop b.outbound).1 })

module _ {H T W : Type 0} where
  pub put_outbound : BoundedQueue CommunicationEnvelope → System H T W → System H T W
  put_outbound q s = record s { bus = record s.bus { outbound = q } }

  pub take_head : System H T W → System H T W
  take_head s = record s { bus = record s.bus { inbound = (pop s.bus.inbound).1 } }

  pub set_active : Bool → System H T W → System H T W
  set_active active s = record s { bus = record s.bus { async_pump_active = active } }

  -- The destructor of `AsyncPumpGuard`, on every way out.
  pub release : Result DispatchResult × System H T W → Result DispatchResult × System H T W
  unfolding set_active
  release (r, s) = (r, set_active false s)

module _ {H T W : Type 0} (foreign : Foreign H T W) where
  run_found : Option H → CommunicationEnvelope → Exec (System H T W) (List CommunicationEnvelope)
  run_found none e = throw unbound_action
  run_found (some handler) e = foreign.run handler e

  -- The handler that `bindRoute` binds: it looks the action up when it is called.
  unfoldable pub run_action :
      String → CommunicationEnvelope → Exec (System H T W) (List CommunicationEnvelope)
  unfolding run_found
  run_action id e s = run_found (find id s.bus.actions) e s

  no_sink : ⊥ → CommunicationEnvelope → Exec (System H T W) (Unit {0})
  no_sink sink = absurd sink

  -- `mRouter.dispatch( envelope )`
  unfoldable pub route : CommunicationEnvelope → Exec (System H T W) DispatchResult
  unfolding run_action no_sink
  route e s = Router.dispatch run_action no_sink s.bus.router e s

  pub execute : CommunicationEnvelope → SlotDefinition → Exec (System H T W) DispatchResult
  unfolding route
  execute e slot = do
    λ s. (ok tt, emit_trace foreign e s)
    result ← route e
    lift (check_contract e slot result.replies)
    pure result

  -- `dispatch`: the outputs come back in the result.
  unfoldable pub dispatch : CommunicationEnvelope → Exec (System H T W) DispatchResult
  unfolding execute
  dispatch e s =
      if s.bus.trace_active then (err trace_reentrancy, s) else elim (validate_inbound e s.bus) [
        | err x ↦ (err x, s)
        | ok slot ↦
            (do result ← execute e slot; λ t. (ok result, emit_all foreign result.replies t)) s
      ]

  delivered :
      CommunicationEnvelope
      → Bool × BoundedQueue CommunicationEnvelope
      → Exec (System H T W) (Unit {0})
  unfolding put_outbound
  delivered e (true, q) s = (ok tt, emit_trace foreign e (put_outbound q s))
  delivered e (false, q) s = (err commit_failed, s)

  -- The commit of the outputs of a handler to the outbound queue.
  unfoldable pub commit : List CommunicationEnvelope → Exec (System H T W) (Unit {0})
  unfolding delivered
  commit [] = pure tt
  commit (e ∷ rest) = do λ s. delivered e (try_push e s.bus.outbound) s; commit rest

  -- From the pop on.
  pub consume : CommunicationEnvelope → SlotDefinition → Exec (System H T W) DispatchResult
  unfolding take_head execute commit
  consume e slot = do
    λ s. (ok tt, take_head s)
    result ← execute e slot
    commit result.replies
    pure done

  pump_next : Option CommunicationEnvelope → Exec (System H T W) DispatchResult
  unfolding consume
  pump_next none s = (err nothing_pending, s)
  pump_next (some e) s = elim (validate_inbound e s.bus) [
    | err x ↦ (err x, s)
    | ok slot ↦
        if leb slot.contract.max_outputs (available s.bus.outbound)
        then consume e slot s
        else (err backpressure, s)
  ]

  unfoldable pub pump_one : Exec (System H T W) DispatchResult
  unfolding pump_next release
  pump_one s =
      if s.bus.trace_active
      then (err trace_reentrancy, s)
      else if s.bus.async_pump_active
      then (err reentrant_pump, s)
      else release (pump_next (peek s.bus.inbound) (set_active true s))

  abbrev Outcome : Type 0
  Outcome = Result (Unit {0}) × System H T W

  -- What follows one round of the loop; an exception ends it.
  abbrev next_round :
      (System H T W → Option Outcome) → Result DispatchResult × System H T W → Option Outcome
  next_round loop (ok r, s) = loop s
  next_round loop (err e, s) = some (err e, s)

  -- `while( !mInbound.empty() ) pumpOne();`; `none` means that the fuel ran out.
  unfoldable pub pump_loop : ℕ → System H T W → Option Outcome
  unfolding pump_one
  pump_loop zero s = none
  pump_loop (suc fuel) s =
      let rest = next_round (λ t. pump_loop fuel t) (pump_one s) in
      if is_empty_queue s.bus.inbound then some (ok tt, s) else rest

  unfoldable pub pump_all : ℕ → System H T W → Option Outcome
  unfolding pump_loop
  pump_all fuel s = if s.bus.trace_active then some (err trace_reentrancy, s) else pump_loop fuel s
