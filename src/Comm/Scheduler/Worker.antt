-- ===== src/Comm/Scheduler/Worker.antt =====
-- What the worker hands over.
use mathlib.Core.List.{append-nil, append_assoc}
use clone_craft.Base.{
  ℕ, zero, suc, ◌+◌, ◌≤◌, ◌≡◌, refl, sym, ap, ◌∙◌, subst, ◌⊎◌, ◌≢◌, inl, inr, true, false, if_both,
  All-map, All-append, List, [], ◌∷◌, ◌++◌, length, All, ltb, ◌&&◌, arith,
}
use clone_craft.Base.Int.{ℤ, ◌≤ℤ◌, ◌<ℤ◌, leb_ℤ}
use clone_craft.Comm.Envelope.{CommunicationEnvelope}
use clone_craft.Comm.Scheduler.Order.{Before, Sorted, IsScheduled, worker_move-IsScheduled}
use clone_craft.Comm.Scheduler.{Entry, Scheduler, worker_move, take_due}

-- The worker's inner loop, by the times that it reads.
abbrev pub worker_moves : List ℤ → Scheduler → Scheduler
worker_moves [] s = s
worker_moves (now ∷ times) s = worker_moves times (worker_move now s)

abbrev pub envelopes : List Entry → List CommunicationEnvelope
envelopes [] = []
envelopes (x ∷ xs) = x.envelope ∷ envelopes xs

-- `t` is `s` after the entries of `moved` went over.
pub record Moved (s t : Scheduler) (moved : List Entry) : Type 0 where
  pub front_of_queue : s.queue ≡ moved ++ t.queue
  pub end_of_handoff : t.handoff ≡ s.handoff ++ envelopes moved
  pub same_sequence : t.sequence ≡ s.sequence
  pub same_stopping : t.stopping ≡ s.stopping

nothing-Moved : (s : Scheduler) → Moved s s []
nothing-Moved s = record {
  front_of_queue = refl;
  end_of_handoff = sym (append-nil s.handoff);
  same_sequence = refl;
  same_stopping = refl;
}

envelopes-append : (xs ys : List Entry) → envelopes (xs ++ ys) ≡ envelopes xs ++ envelopes ys
envelopes-append [] ys = refl
envelopes-append (x ∷ xs) ys = ap (λ es. x.envelope ∷ es) (envelopes-append xs ys)

Moved-trans :
    (s t u : Scheduler) (xs ys : List Entry) → Moved s t xs → Moved t u ys → Moved s u (xs ++ ys)
Moved-trans s t u xs ys m n = record {
  front_of_queue =
      m.front_of_queue ∙ ap (λ q. xs ++ q) n.front_of_queue ∙ sym (append_assoc xs ys u.queue);
  end_of_handoff =
      n.end_of_handoff
      ∙ ap (λ h. h ++ envelopes ys) m.end_of_handoff
      ∙ append_assoc s.handoff (envelopes xs) (envelopes ys)
      ∙ ap (λ es. s.handoff ++ es) (sym (envelopes-append xs ys));
  same_sequence = n.same_sequence ∙ m.same_sequence;
  same_stopping = n.same_stopping ∙ m.same_stopping;
}

-- A time that is due by one of the times.
abbrev pub DueBy : List ℤ → Entry → Type 0
DueBy [] x = ⊥
DueBy (now ∷ times) x = (x.due ≤ℤ now) ⊎ DueBy times x

abbrev MovedBy : List ℤ → Scheduler → Scheduler → Type 0
MovedBy times s t = (moved : List Entry) × Moved s t moved × All (DueBy times) moved

take_due-Moved :
    (now : ℤ) (queue : List Entry) (s : Scheduler)
    → s.queue ≡ queue
    → MovedBy (now ∷ []) s (take_due now queue s)
unfolding take_due
take_due-Moved now [] s h = ([], nothing-Moved s, tt)
take_due-Moved now (x ∷ rest) s h =
    if_both (MovedBy (now ∷ []) s) (leb_ℤ x.due now && ltb (length s.handoff) s.handoff_capacity) _
      _
      (λ ready. (
        x ∷ [],
        record {
          front_of_queue = h;
          end_of_handoff = refl;
          same_sequence = refl;
          same_stopping = refl;
        },
        (inl (ground (arith, ready)), tt),
      ))
      (λ _. ([], nothing-Moved s, tt))

worker_move-Moved : (now : ℤ) (s : Scheduler) → MovedBy (now ∷ []) s (worker_move now s)
unfolding worker_move
worker_move-Moved now s =
    if_both (MovedBy (now ∷ []) s) s.stopping _ _ (λ _. ([], nothing-Moved s, tt))
      (λ _. take_due-Moved now s.queue s refl)

-- Whatever times the worker reads, it takes entries from the front of the queue only, in their
-- order and each of them due at one of the times, and appends their messages to the handoff. It
-- loses none and makes up none.
pub worker_moves-Moved :
    (times : List ℤ) (s : Scheduler)
    → (moved : List Entry) × Moved s (worker_moves times s) moved × All (DueBy times) moved
worker_moves-Moved [] s = ([], nothing-Moved s, tt)
worker_moves-Moved (now ∷ times) s =
    let (xs, m, due) = worker_move-Moved now s in
    let (ys, n, later) = worker_moves-Moved times (worker_move now s) in
    (
      xs ++ ys,
      Moved-trans s _ _ xs ys m n,
      All-append (DueBy (now ∷ times)) xs ys
          (All-map xs (λ x d. elim d [ inl l ↦ inl l | inr r ↦ absurd r ]) due)
          (All-map ys (λ x d. inr d) later),
    )

-- The worker has nothing to do at this time: it was told to stop, or the handoff is full, or
-- nothing in the queue is due.
abbrev pub Idle : ℤ → Scheduler → Type 0
Idle now s =
    (s.stopping ≡ true)
    ⊎ ((s.handoff_capacity ≤ length s.handoff) ⊎ All (λ x. now <ℤ x.due) s.queue)

later_than :
    (now : ℤ) (x : Entry) (queue : List Entry)
    → now <ℤ x.due
    → All (Before x) queue
    → All (λ y. now <ℤ y.due) queue
later_than now x queue h before =
    All-map queue
      (λ y b. elim b [
        | inl first ↦ omega (arith, h, first)
        | inr (e, scheduled) ↦ subst (λ d. now <ℤ d) e h
      ])
      before

take_due-Idle :
    (now : ℤ) (queue : List Entry) (s : Scheduler)
    → s.queue ≡ queue
    → Sorted queue
    → Idle now s ⊎ (length (take_due now queue s).queue + 1 ≡ length queue)
unfolding take_due
take_due-Idle now [] s h sorted = inl (inr (inr (subst (All (λ x. now <ℤ x.due)) (sym h) tt)))
take_due-Idle now (x ∷ rest) s h (first, sorted) =
    if_both (λ (t : Scheduler). Idle now s ⊎ (length t.queue + 1 ≡ suc (length rest)))
      (leb_ℤ x.due now && ltb (length s.handoff) s.handoff_capacity) _ _
      (λ ready. inr (omega arith))
      (λ waits. inl (
        inr (elim (blocked_or_later x waits) [
          | inl full ↦ inl full
          | inr later ↦
              inr
                (subst (All (λ y. now <ℤ y.due)) (sym h) (later, later_than now x rest later first))
        ])))
  where
    blocked_or_later :
        (x : Entry)
        → (leb_ℤ x.due now && ltb (length s.handoff) s.handoff_capacity) ≡ false
        → (s.handoff_capacity ≤ length s.handoff) ⊎ (now <ℤ x.due)
    blocked_or_later x w = ground (arith, w)

worker_move-Idle :
    (now : ℤ) (s : Scheduler)
    → Sorted s.queue
    → Idle now s ⊎ (length (worker_move now s).queue + 1 ≡ length s.queue)
unfolding worker_move
worker_move-Idle now s sorted =
    if_both (λ (t : Scheduler). Idle now s ⊎ (length t.queue + 1 ≡ length s.queue)) s.stopping _ _
      (λ stop. inl (inl stop)) (λ _. take_due-Idle now s.queue s refl sorted)

not_ready :
    (now : ℤ) (s : Scheduler) (x : Entry) (rest : List Entry)
    → s.queue ≡ x ∷ rest
    → s.stopping ≡ false
    → Idle now s
    → (leb_ℤ x.due now && ltb (length s.handoff) s.handoff_capacity) ≢ true
not_ready now s x rest h go (inl stop) ready = ground (arith, go, stop)
not_ready now s x rest h go (inr (inl full)) ready = ground (arith, full, ready)
not_ready now s x rest h go (inr (inr later)) ready =
    ground (arith, ready, (subst (All (λ y. now <ℤ y.due)) h later).0)

Idle-waits :
    (now : ℤ) (queue : List Entry) (s : Scheduler)
    → s.queue ≡ queue
    → s.stopping ≡ false
    → Idle now s
    → take_due now queue s ≡ s
unfolding take_due
Idle-waits now [] s h go i = refl
Idle-waits now (x ∷ rest) s h go i =
    if_both (λ (t : Scheduler). t ≡ s)
      (leb_ℤ x.due now && ltb (length s.handoff) s.handoff_capacity) _ _
      (λ ready. absurd (not_ready now s x rest h go i ready)) (λ _. refl)

Idle-stays : (now : ℤ) (s : Scheduler) → Idle now s → worker_move now s ≡ s
unfolding worker_move
Idle-stays now s i =
    if_both (λ (t : Scheduler). t ≡ s) s.stopping _ _ (λ _. refl)
      (λ go. Idle-waits now s.queue s refl go i)

abbrev pub rounds : ℕ → ℤ → List ℤ
rounds zero now = []
rounds (suc n) now = now ∷ rounds n now

Idle-for_good :
    (n : ℕ) (now : ℤ) (s : Scheduler) → Idle now s → Idle now (worker_moves (rounds n now) s)
Idle-for_good zero now s i = i
Idle-for_good (suc n) now s i =
    subst (λ t. Idle now (worker_moves (rounds n now) t)) (sym (Idle-stays now s i))
      (Idle-for_good n now s i)

empty-Idle :
    (now : ℤ) (queue : List Entry) (s : Scheduler) → s.queue ≡ queue → length queue ≤ 0 → Idle now s
empty-Idle now [] s h l = inr (inr (subst (All (λ x. now <ℤ x.due)) (sym h) tt))
empty-Idle now (x ∷ rest) s h l = absurd (omega (arith, l))

-- As many rounds as the queue has entries are enough: after them the worker was told to stop, or
-- the handoff is full, or nothing that is left in the queue is due.
pub worker_moves-Idle :
    (n : ℕ) (now : ℤ) (s : Scheduler)
    → IsScheduled s
    → length s.queue ≤ n
    → Idle now (worker_moves (rounds n now) s)
worker_moves-Idle zero now s i enough = empty-Idle now s.queue s refl enough
worker_moves-Idle (suc n) now s i enough = elim (worker_move-Idle now s i.sorted) [
  | inl idle ↦ Idle-for_good (suc n) now s idle
  | inr less ↦
      worker_moves-Idle n now (worker_move now s) (worker_move-IsScheduled now s i)
        (omega (arith, less, enough))
]
