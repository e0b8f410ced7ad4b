-- ===== src/Comm/Scheduler.antt =====
-- world/communication/DelayedMessageScheduler.h, DelayedMessageScheduler.cpp. Every access to the
-- state is made under one mutex, so a run of the program is a sequence of the operations below in
-- some order; `worker_move` is one round of the worker's inner loop, with the time that it read.
-- A time is a signed count of clock ticks.
pub mod Order
pub mod Drain
pub mod Worker
use clone_craft.Base.{
  ℕ, suc, ◌+◌, Bool, true, false, ◌&&◌, ◌||◌, List, [], ◌∷◌, ◌++◌, length, ltb, ◌==◌, if◌then◌else◌,
}
use clone_craft.Base.Int.{ℤ, pos, ◌+ℤ◌, ◌-ℤ◌, leb_ℤ, ltb_ℤ}
use clone_craft.Exec.{Result, ok, err, Exec}
use clone_craft.Comm.Error.{
  zero_handoff, after_shutdown, sequence_overflow, time_overflow, rejected,
}
use clone_craft.Comm.Envelope.{CommunicationEnvelope, uint64_max}
use clone_craft.Comm.Runtime.{Bus}
use clone_craft.Comm.Runtime.Pump.{submit}

-- `DelayedMessageScheduler::Entry`
pub record Entry : Type 0 where
  pub due : ℤ
  pub sequence : ℕ
  pub envelope : CommunicationEnvelope

-- The order in which the priority queue lets entries out, that of `EarlierEntry` turned round.
unfoldable pub earlier : Entry → Entry → Bool
earlier l r =
    ltb_ℤ l.due r.due || (leb_ℤ l.due r.due && leb_ℤ r.due l.due && ltb l.sequence r.sequence)

-- `std::priority_queue`, whose top is the head.
unfoldable pub push : Entry → List Entry → List Entry
unfolding earlier
push e [] = e ∷ []
push e (x ∷ queue) = let rest = push e queue in if earlier e x then e ∷ x ∷ queue else x ∷ rest

pub record Scheduler : Type 0 where
  pub handoff_capacity : ℕ
  pub queue : List Entry
  pub handoff : List CommunicationEnvelope
  pub sequence : ℕ
  pub stopping : Bool

unfoldable pub new_scheduler : ℕ → ℕ → Result Scheduler
new_scheduler capacity start =
    if capacity == 0
    then err zero_handoff
    else ok (record {
      handoff_capacity = capacity;
      queue = [];
      handoff = [];
      sequence = start;
      stopping = false;
    })

unfoldable pub schedule_at : ℤ → CommunicationEnvelope → Exec Scheduler (Unit {0})
unfolding push
schedule_at due e s =
    if s.stopping
    then (err after_shutdown, s)
    else if s.sequence == uint64_max
    then (err sequence_overflow, s)
    else (
      ok tt,
      record s {
        queue = push (record { due = due; sequence = s.sequence; envelope = e }) s.queue;
        sequence = s.sequence + 1;
      },
    )

-- `Time::max()`
abbrev pub time_max : ℤ
time_max = pos 9_223_372_036_854_775_807

unfoldable pub checked_due_time : ℤ → ℤ → Result ℤ
checked_due_time now delay =
    if ltb_ℤ (time_max -ℤ now) delay then err time_overflow else ok (now +ℤ delay)

unfoldable pub schedule_after : ℤ → ℤ → CommunicationEnvelope → Exec Scheduler (Unit {0})
unfolding checked_due_time schedule_at
schedule_after now delay e s = elim (checked_due_time now delay) [
  | err x ↦ (err x, s)
  | ok due ↦ schedule_at due e s
]

-- What the worker does about the top of the queue: it is due, and there is room in the handoff.
take_due : ℤ → List Entry → Scheduler → Scheduler
take_due now [] s = s
take_due now (e ∷ rest) s =
    if leb_ℤ e.due now && ltb (length s.handoff) s.handoff_capacity
    then record s { queue = rest; handoff = s.handoff ++ e.envelope ∷ [] }
    else s

unfoldable pub worker_move : ℤ → Scheduler → Scheduler
unfolding take_due
worker_move now s = if s.stopping then s else take_due now s.queue s

unfoldable pub shutdown : Scheduler → Scheduler
shutdown s = record s { stopping = true }

unfoldable pub running : Scheduler → Bool
running s = if s.stopping then false else true

abbrev pub keep : List CommunicationEnvelope → Scheduler → Scheduler
keep es s = record s { handoff = es }

-- The owner of the bus drains the scheduler into it.
abbrev pub Owner : Type 0 → Type 0 → Type 0
Owner H T = Scheduler × Bus H T

module _ {H T : Type 0} where
  -- What follows `runtime.submit( *candidate )`: the front goes unless the bus has no room.
  after_submit :
      CommunicationEnvelope
      → List CommunicationEnvelope
      → (Owner H T → Result ℕ × Owner H T)
      → ℕ
      → Scheduler
      → Result Bool × Bus H T
      → Result ℕ × Owner H T
  after_submit e rest loop submitted s (ok true, b) = loop (keep rest s, b)
  after_submit e rest loop submitted s (ok false, b) = (ok submitted, (keep (e ∷ rest) s, b))
  after_submit e rest loop submitted s (err x, b) = (err (rejected x), (keep rest s, b))

  drain : List CommunicationEnvelope → ℕ → Owner H T → Result ℕ × Owner H T
  unfolding after_submit
  drain [] submitted (s, b) = (ok submitted, (keep [] s, b))
  drain (e ∷ rest) submitted (s, b) =
      after_submit e rest (drain rest (suc submitted)) submitted s (submit e b)

  -- `drainDueTo`, with no move of the worker in between; a move in between only adds to the end of
  -- the handoff.
  unfoldable pub drain_due_to : Owner H T → Result ℕ × Owner H T
  unfolding drain
  drain_due_to (s, b) = drain s.handoff 0 (s, b)
