-- ===== src/Comm/Runtime/Pump/Drained.antt =====
-- Pumping until nothing is pending comes to an end.
use clone_craft.Base.{
  ℕ, zero, suc, ◌≤◌, ◌<◌, ◌≡◌, refl, sym, ap, subst, Bool, true, false, Option, some, List, [], ◌∷◌,
  length, if◌then◌else◌, arith,
}
use clone_craft.Exec.{Result, ok, err, >>-ok}
use clone_craft.Exec.Frame.{Keeps, >>=-Keeps, >>-Keeps}
use clone_craft.Comm.Error.{Error, trace_reentrancy}
use clone_craft.Comm.Envelope.{CommunicationEnvelope}
use clone_craft.Comm.Queue.{peek, pop, head, tail, is_empty_queue, size}
use clone_craft.Comm.Registries.{SlotDefinition}
use clone_craft.Comm.Router.{DispatchResult}
use clone_craft.Comm.Runtime.{System, Foreign}
use clone_craft.Comm.Runtime.Inbound.Trace.{Traced, Traced-inbound}
use clone_craft.Comm.Runtime.Pump.{
  take_head, set_active, consume, release, pump_loop, pump_all, next_round,
}
use clone_craft.Comm.Runtime.Pump.Frame.{execute-Keeps, commit-Keeps}
use clone_craft.Comm.Runtime.Pump.Backpressure.{
  Pumped, pump_one-Pumped, tracing, reentrant, idle, invalid, blocked, ran,
}

shorter :
    (e : CommunicationEnvelope) (items : List CommunicationEnvelope)
    → head items ≡ some e
    → length (tail items) < length items
shorter e [] h = absurd (ground arith)
shorter e (a ∷ rest) h = omega arith

module _ {H T W : Type 0} where
  -- No message is added to the inbound queue.
  pub data Shrinks (s t : System H T W) : Type 0 where
    shrinks : size t.bus.inbound ≤ size s.bus.inbound → Shrinks s t

  unchanged : (s : System H T W) → Shrinks s s
  unchanged s = shrinks (omega arith)

  chain : (s t u : System H T W) → Shrinks s t → Shrinks t u → Shrinks s u
  chain s t u (shrinks a) (shrinks b) = shrinks (omega (arith, a, b))

  Traced-Shrinks : (s t : System H T W) → Traced s t → Shrinks s t
  Traced-Shrinks s t traced = shrinks (ground (arith, ap (λ q. size q) (Traced-inbound s t traced)))

  -- How a loop ends: nothing is pending, or an exception left it.
  pub data Ended : Option (Result (Unit {0}) × System H T W) → Type 0 where
    emptied : (t : System H T W) → is_empty_queue t.bus.inbound ≡ true → Ended (some (ok tt, t))
    thrown : (x : Error) (t : System H T W) → Ended (some (err x, t))

  -- What one round does: it throws, or there is one message less.
  data Round (s : System H T W) : Result DispatchResult × System H T W → Type 0 where
    threw : (x : Error) (t : System H T W) → Round s (err x, t)
    took :
        (r : DispatchResult) (t : System H T W)
        → size t.bus.inbound < size s.bus.inbound
        → Round s (ok r, t)

  module _ (foreign : Foreign H T W)
      (honest : (handler : H) (e : CommunicationEnvelope)
        → Keeps Shrinks (foreign.run handler e)) where
    consume-Shrinks :
        (e : CommunicationEnvelope) (slot : SlotDefinition) (s : System H T W)
        → Shrinks (take_head s) (consume foreign e slot s).1
    unfolding consume
    consume-Shrinks e slot s =
        subst (λ (p : Result DispatchResult × System H T W). Shrinks (take_head s) p.1)
          (sym (>>-ok _ _ s (take_head s) tt refl))
          (>>=-Keeps Shrinks unchanged chain _ _
            (execute-Keeps foreign Shrinks unchanged chain Traced-Shrinks honest e slot)
            (λ result.
              >>-Keeps Shrinks unchanged chain _ _
                (commit-Keeps foreign Shrinks unchanged chain Traced-Shrinks honest
                  (λ q s. shrinks (omega arith)) result.replies)
                unchanged)
            (take_head s))

    head_taken :
        (e : CommunicationEnvelope) (s : System H T W)
        → peek s.bus.inbound ≡ some e
        → size (take_head (set_active true s)).bus.inbound < size s.bus.inbound
    unfolding peek size take_head set_active pop
    head_taken e s h = shorter e s.bus.inbound.items h

    released :
        (s : System H T W) (r : Result DispatchResult × System H T W)
        → size r.1.bus.inbound < size s.bus.inbound
        → Round s (release r)
    unfolding release set_active
    released s (ok r, t) h = took r (set_active false t) h
    released s (err x, t) h = threw x (set_active false t)

    Pumped-Round :
        (s : System H T W) (r : Result DispatchResult × System H T W)
        → Pumped foreign s r
        → Round s r
    Pumped-Round s r (tracing h) = threw _ s
    Pumped-Round s r (reentrant h) = threw _ s
    Pumped-Round s r (idle h) = threw _ s
    Pumped-Round s r (invalid e x h k) = threw x s
    Pumped-Round s r (blocked e slot h k full) = threw _ s
    Pumped-Round s r (ran e slot h k room) = elim (consume-Shrinks e slot (set_active true s)) [
      | shrinks less ↦ released s _ (omega (arith, less, head_taken e s h))
    ]

    next_round-Ended :
        (fuel : ℕ) (s : System H T W) (r : Result DispatchResult × System H T W)
        → ((t : System H T W) → size t.bus.inbound < fuel → Ended (pump_loop foreign fuel t))
        → size s.bus.inbound < suc fuel
        → Round s r
        → Ended (next_round foreign (λ t. pump_loop foreign fuel t) r)
    next_round-Ended fuel s r rest enough (threw x t) = thrown x t
    next_round-Ended fuel s r rest enough (took d t less) = rest t (omega (arith, enough, less))

    chosen :
        (empty : Bool) (s : System H T W) (rest : Option (Result (Unit {0}) × System H T W))
        → is_empty_queue s.bus.inbound ≡ empty
        → Ended rest
        → Ended (if empty then some (ok tt, s) else rest)
    chosen true s rest h ended = emptied s h
    chosen false s rest h ended = ended

    pump_loop-Ended :
        (fuel : ℕ) (s : System H T W) → size s.bus.inbound < fuel → Ended (pump_loop foreign fuel s)
    unfolding pump_loop
    pump_loop-Ended zero s enough = absurd (omega (arith, enough))
    pump_loop-Ended (suc fuel) s enough = chosen _ s _ refl (
        next_round-Ended fuel s _ (λ t. pump_loop-Ended fuel t) enough
          (Pumped-Round s _ (pump_one-Pumped foreign s)))

    guarded :
        (active : Bool) (s : System H T W) (rest : Option (Result (Unit {0}) × System H T W))
        → Ended rest
        → Ended (if active then some (err trace_reentrancy, s) else rest)
    guarded true s rest ended = thrown _ s
    guarded false s rest ended = ended

    -- Pumping all comes to an end within one round more than there are messages pending: then either
    -- nothing is pending or an exception ended it. It is assumed that handlers add no message to the
    -- inbound queue.
    pub pump_all-Ended :
        (fuel : ℕ) (s : System H T W) → size s.bus.inbound < fuel → Ended (pump_all foreign fuel s)
    unfolding pump_all
    pump_all-Ended fuel s enough = guarded s.bus.trace_active s _ (pump_loop-Ended fuel s enough)
