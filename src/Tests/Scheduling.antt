-- ===== src/Tests/Scheduling.antt =====
-- Each theorem on the scheduler at a concrete scheduler.
use clone_craft.Base.{refl, false, List, [], ◌∷◌, All, arith}
use clone_craft.Base.Int.{pos}
use clone_craft.Comm.Scheduler.{
  Entry, Scheduler, new_scheduler, schedule_at, push, earlier, worker_move, drain_due_to,
}
use clone_craft.Comm.Scheduler.Order.{
  IsScheduled, Reachable, started, stepped, scheduled, moved, Reachable-IsScheduled,
}
use clone_craft.Comm.Scheduler.Worker.{
  worker_moves, Moved, DueBy, Idle, rounds, worker_moves-Moved, worker_moves-Idle,
}
use clone_craft.Comm.Scheduler.Drain.{Drained, drain_due_to-Drained}
use clone_craft.Tests.Sample.{place, bus}

abbrev start : Scheduler
start = record { handoff_capacity = 1; queue = []; handoff = []; sequence = 1; stopping = false }

-- Three messages, the second due first and the third at the time of the first.
abbrev filled : Scheduler
filled =
    (schedule_at (pos 30) place
      (schedule_at (pos 10) place (schedule_at (pos 30) place start).1).1).1

filled-Reachable : Reachable 1 1 filled
unfolding new_scheduler
filled-Reachable =
    stepped _ _
      (stepped _ _ (stepped _ _ (started start refl) (scheduled (pos 30) place _))
        (scheduled (pos 10) place _))
      (scheduled (pos 30) place _)

Reachable-IsScheduled_example : IsScheduled (worker_move (pos 40) filled)
Reachable-IsScheduled_example =
    Reachable-IsScheduled 1 1 (worker_move (pos 40) filled)
      (stepped _ _ filled-Reachable (moved (pos 40) filled))

worker_moves-Moved_example :
    (entries : List Entry) × Moved filled (worker_moves (pos 5 ∷ pos 12 ∷ []) filled) entries
    × All (DueBy (pos 5 ∷ pos 12 ∷ [])) entries
worker_moves-Moved_example = worker_moves-Moved (pos 5 ∷ pos 12 ∷ []) filled

worker_moves-Idle_example : Idle (pos 40) (worker_moves (rounds 3 (pos 40)) filled)
unfolding schedule_at push earlier
worker_moves-Idle_example =
    worker_moves-Idle 3 (pos 40) filled (Reachable-IsScheduled 1 1 filled filled-Reachable)
      (omega arith)

abbrev pending : Scheduler
pending = record start { handoff = place ∷ place ∷ [] }

drain_due_to-Drained_example :
    Drained 0 pending bus (place ∷ place ∷ []) (drain_due_to (pending, bus))
drain_due_to-Drained_example = drain_due_to-Drained pending bus
