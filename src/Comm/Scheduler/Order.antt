-- ===== src/Comm/Scheduler/Order.antt =====
-- The order in which delayed messages become due, and the bounds of the scheduler.
use clone_craft.Base.{
  sym, ◌∙◌, ◌⊎◌, inl, inr, Bool-cases, ℕ, ◌+◌, ◌≤◌, ◌<◌, ◌≡◌, refl, ap, subst, true, false, if_both,
  All-map, List, [], ◌∷◌, length, length-append, All, ltb, ◌==◌, ◌&&◌, arith,
}
use clone_craft.Base.Int.{ℤ, ◌<ℤ◌, ltb_ℤ, leb_ℤ, eq_of_parts}
use clone_craft.Exec.{Result, ok, ok_injective}
use clone_craft.Comm.Envelope.{CommunicationEnvelope, uint64_max}
use clone_craft.Comm.Scheduler.{
  Entry, earlier, push, Scheduler, keep, new_scheduler, schedule_at, worker_move, take_due,
  shutdown,
}

-- An entry is before another if it is due before it, or at the same time and scheduled before it.
abbrev pub Before : Entry → Entry → Type 0
Before x y = (x.due <ℤ y.due) ⊎ ((x.due ≡ y.due) × (x.sequence < y.sequence))

earlier-Before : (x y : Entry) → earlier x y ≡ true → Before x y
unfolding earlier
earlier-Before x y h = elim (Bool-cases (ltb_ℤ x.due y.due)) [
  | inl first ↦ inl (ground (arith, first))
  | inr not_first ↦
      inr (eq_of_parts x.due y.due (ground (arith, h, not_first)), ground (arith, h, not_first))
]

-- What leaves the queue first is earliest.
abbrev pub Sorted : List Entry → Type 0
Sorted [] = Unit
Sorted (x ∷ queue) = All (Before x) queue × Sorted queue

Before-trans : (x y z : Entry) → Before x y → Before y z → Before x z
Before-trans x y z (inl h) (inl k) = inl (omega (arith, h, k))
Before-trans x y z (inl h) (inr (e, k)) = inl (subst (λ d. x.due <ℤ d) e h)
Before-trans x y z (inr (e, h)) (inl k) = inl (subst (λ d. d <ℤ z.due) (sym e) k)
Before-trans x y z (inr (e, h)) (inr (f, k)) = inr (e ∙ f, omega (arith, h, k))

-- A new entry that is not earlier than another is behind it.
later-Before : (e x : Entry) → x.sequence < e.sequence → earlier e x ≡ false → Before x e
unfolding earlier
later-Before e x h k = elim (Bool-cases (ltb_ℤ x.due e.due)) [
  | inl first ↦ inl (ground (arith, first))
  | inr not_first ↦ inr (eq_of_parts x.due e.due (ground (arith, k, h, not_first)), h)
]

module _ (P : Entry → Type 0) where
  push-All : (e : Entry) (queue : List Entry) → P e → All P queue → All P (push e queue)
  unfolding push
  push-All e [] p h = (p, tt)
  push-All e (x ∷ queue) p (q, h) =
      if_both (All P) (earlier e x) _ _ (λ _. (p, (q, h))) (λ _. (q, push-All e queue p h))

push-Sorted :
    (e : Entry) (queue : List Entry)
    → All (λ x. x.sequence < e.sequence) queue
    → Sorted queue
    → Sorted (push e queue)
unfolding push
push-Sorted e [] fresh s = (tt, tt)
push-Sorted e (x ∷ queue) (f, fresh) (least, s) =
    if_both Sorted (earlier e x) _ _
      (λ first. (
        (
          earlier-Before e x first,
          All-map queue (λ y before. Before-trans e x y (earlier-Before e x first) before) least,
        ),
        (least, s),
      ))
      (λ second. (
        push-All (Before x) e queue (later-Before e x f second) least,
        push-Sorted e queue fresh s,
      ))

-- The invariant of the scheduler.
pub record IsScheduled (s : Scheduler) : Type 0 where
  pub sorted : Sorted s.queue
  pub numbered : All (λ x. x.sequence < s.sequence) s.queue
  pub bounded : length s.handoff ≤ s.handoff_capacity

schedule_at-IsScheduled :
    (due : ℤ) (e : CommunicationEnvelope) (s : Scheduler)
    → IsScheduled s
    → IsScheduled (schedule_at due e s).1
unfolding schedule_at
schedule_at-IsScheduled due e s i =
    if_both (λ (r : Result (Unit {0}) × Scheduler). IsScheduled r.1) s.stopping _ _ (λ _. i)
      (λ _.
        if_both (λ (r : Result (Unit {0}) × Scheduler). IsScheduled r.1) (s.sequence == uint64_max)
          _ _ (λ _. i)
          (λ _. record {
            sorted =
                push-Sorted (record { due = due; sequence = s.sequence; envelope = e }) s.queue
                  i.numbered i.sorted;
            numbered =
                push-All (λ x. x.sequence < s.sequence + 1)
                  (record { due = due; sequence = s.sequence; envelope = e }) s.queue (omega arith)
                  (All-map s.queue (λ x h. omega (arith, h)) i.numbered);
            bounded = i.bounded;
          }))

take_due-IsScheduled :
    (now : ℤ) (queue : List Entry) (s : Scheduler)
    → s.queue ≡ queue
    → IsScheduled s
    → IsScheduled (take_due now queue s)
unfolding take_due
take_due-IsScheduled now [] s h i = i
take_due-IsScheduled now (x ∷ rest) s h i =
    if_both IsScheduled (leb_ℤ x.due now && ltb (length s.handoff) s.handoff_capacity) _ _
      (λ ready. record {
        sorted = (subst Sorted h i.sorted).1;
        numbered = (subst (All (λ e. e.sequence < s.sequence)) h i.numbered).1;
        bounded = ground (arith, ready, length-append s.handoff (x.envelope ∷ []));
      })
      (λ _. i)

pub worker_move-IsScheduled :
    (now : ℤ) (s : Scheduler) → IsScheduled s → IsScheduled (worker_move now s)
unfolding worker_move
worker_move-IsScheduled now s i =
    if_both IsScheduled s.stopping _ _ (λ _. i) (λ _. take_due-IsScheduled now s.queue s refl i)

-- What may happen between two states: a producer schedules, the worker makes a round, the owner
-- takes the front of the handoff, or the scheduler is shut down.
pub data Step : Scheduler → Scheduler → Type 0 where
  scheduled : (due : ℤ) (e : CommunicationEnvelope) (s : Scheduler) → Step s (schedule_at due e s).1
  moved : (now : ℤ) (s : Scheduler) → Step s (worker_move now s)
  taken :
      (e : CommunicationEnvelope) (rest : List CommunicationEnvelope) (s : Scheduler)
      → s.handoff ≡ e ∷ rest
      → Step s (keep rest s)
  stopped : (s : Scheduler) → Step s (shutdown s)

pub data Reachable (capacity start : ℕ) : Scheduler → Type 0 where
  started : (s : Scheduler) → new_scheduler capacity start ≡ ok s → Reachable capacity start s
  stepped : (s t : Scheduler) → Reachable capacity start s → Step s t → Reachable capacity start t

Step-IsScheduled : (s t : Scheduler) → Step s t → IsScheduled s → IsScheduled t
unfolding shutdown
Step-IsScheduled _ _ (scheduled due e s) i = schedule_at-IsScheduled due e s i
Step-IsScheduled _ _ (moved now s) i = worker_move-IsScheduled now s i
Step-IsScheduled _ _ (taken e rest s h) i = record {
  sorted = i.sorted;
  numbered = i.numbered;
  bounded = omega (arith, i.bounded, ap (λ (es : List CommunicationEnvelope). length es) h);
}
Step-IsScheduled _ _ (stopped s) i = record {
  sorted = i.sorted;
  numbered = i.numbered;
  bounded = i.bounded;
}

new_scheduler-IsScheduled :
    (capacity start : ℕ) (s : Scheduler) → new_scheduler capacity start ≡ ok s → IsScheduled s
unfolding new_scheduler
new_scheduler-IsScheduled capacity start s h =
    if_both (λ r. r ≡ ok s → IsScheduled s) (capacity == 0) _ _ (λ _ k. absurd (ground arith))
      (λ _ k.
        subst IsScheduled (ok_injective k)
          (record { sorted = tt; numbered = tt; bounded = omega arith }))
      h

-- In every state that any interleaving of producers, worker and owner reaches, the queue lets the
-- entries out by due time and, at one time, in the order in which they were scheduled; every entry
-- has a number of its own below the next one; and the handoff holds no more than its capacity.
pub Reachable-IsScheduled :
    (capacity start : ℕ) (s : Scheduler) → Reachable capacity start s → IsScheduled s
Reachable-IsScheduled capacity start s (started _ h) = new_scheduler-IsScheduled capacity start s h
Reachable-IsScheduled capacity start t (stepped s _ r step) =
    Step-IsScheduled s t step (Reachable-IsScheduled capacity start s r)
