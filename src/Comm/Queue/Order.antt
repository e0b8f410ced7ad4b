-- ===== src/Comm/Queue/Order.antt =====
-- The queue keeps the order of arrival and its bound.
use mathlib.Core.List.{append-nil, append_assoc}
use clone_craft.Base.{
  ℕ, zero, suc, ◌+◌, ◌-◌, ◌≤◌, ◌<◌, ◌≡◌, refl, sym, ap, ◌∙◌, ◌⊎◌, inl, inr, Bool, true, false,
  Option, none, some, List, [], ◌∷◌, ◌++◌, length, length-append, arith,
}
use clone_craft.Comm.Queue.{BoundedQueue, try_push, pop, available}

pub zero_or_pos : (n : ℕ) → (n ≡ 0) ⊎ (0 < n)
zero_or_pos zero = inl refl
zero_or_pos (suc n) = inr (omega arith)

module _ {A : Type 0} where
  abbrev pub IsBounded : BoundedQueue A → Type 0
  IsBounded q = length q.items ≤ q.capacity

  abbrev pub take : ℕ → List A → List A
  take zero xs = []
  take (suc n) [] = []
  take (suc n) (x ∷ xs) = x ∷ take n xs

  -- What a producer does: it pushes one message after another.
  pub push_all : List A → BoundedQueue A → BoundedQueue A
  push_all [] q = q
  push_all (a ∷ rest) q = push_all rest (try_push a q).1

  pub try_push-full : (a : A) (q : BoundedQueue A) → available q ≡ 0 → try_push a q ≡ (false, q)
  unfolding try_push available
  try_push-full a q h = ground arith

  pub try_push-room :
      (a : A) (q : BoundedQueue A)
      → 0 < available q
      → try_push a q ≡ (true, record q { items = q.items ++ a ∷ [] })
  unfolding try_push available
  try_push-room a q h = ground arith

  pub try_push-IsBounded : (a : A) (q : BoundedQueue A) → IsBounded q → IsBounded (try_push a q).1
  unfolding try_push
  try_push-IsBounded a q h = ground (arith, length-append q.items (a ∷ []))

  pub available-push :
      (a : A) (q : BoundedQueue A)
      → 0 < available q
      → available (record q { items = q.items ++ a ∷ [] }) + 1 ≡ available q
  unfolding available
  available-push a q h = ground (arith, length-append q.items (a ∷ []))

  take_room : (n : ℕ) (x : A) (xs : List A) → 0 < n → take n (x ∷ xs) ≡ x ∷ take (n - 1) xs
  take_room zero x xs h = elim h [ ]
  take_room (suc n) x xs h = ap (λ (k : ℕ). x ∷ take k xs) (omega arith)

  take-nil : (n : ℕ) → ◌≡◌ {A = List A} (take n []) []
  take-nil zero = refl
  take-nil (suc n) = refl

  take-zero : (n : ℕ) (xs : List A) → n ≡ 0 → take n xs ≡ []
  take-zero zero xs h = refl
  take-zero (suc n) xs h = absurd (omega arith)

  push_all-full : (xs : List A) (q : BoundedQueue A) → available q ≡ 0 → push_all xs q ≡ q
  unfolding push_all
  push_all-full [] q h = refl
  push_all-full (x ∷ xs) q h =
      ap (λ (r : Bool × BoundedQueue A). push_all xs r.1) (try_push-full x q h)
      ∙ push_all-full xs q h

  push_all-items :
      (xs : List A) (q : BoundedQueue A) → (push_all xs q).items ≡ q.items ++ take (available q) xs
  unfolding push_all
  push_all-items [] q = sym (ap (◌++◌ q.items) (take-nil (available q)) ∙ append-nil q.items)
  push_all-items (x ∷ xs) q = elim (zero_or_pos (available q)) [
    | inl full ↦
        ap (λ (r : BoundedQueue A). r.items) (push_all-full (x ∷ xs) q full)
        ∙ sym (ap (◌++◌ q.items) (take-zero (available q) (x ∷ xs) full) ∙ append-nil q.items)
    | inr room ↦
        ap (λ (r : Bool × BoundedQueue A). (push_all xs r.1).items) (try_push-room x q room)
        ∙ push_all-items xs (record q { items = q.items ++ x ∷ [] })
        ∙ append_assoc q.items (x ∷ []) _
        ∙ ap (λ t. q.items ++ x ∷ t)
            (ap (λ (n : ℕ). take n xs) (omega (arith, available-push x q room)))
        ∙ ap (◌++◌ q.items) (sym (take_room (available q) x xs room))
  ]

  -- What a consumer sees in at most `n` pops.
  abbrev seen : ℕ → Option A × BoundedQueue A → (BoundedQueue A → List A) → List A
  seen n (none, q) rest = []
  seen n (some a, q) rest = a ∷ rest q

  pub drain : ℕ → BoundedQueue A → List A
  drain zero q = []
  drain (suc n) q = let rest = λ (r : BoundedQueue A). drain n r in seen n (pop q) rest

  drain-take :
      (n capacity : ℕ) (xs : List A)
      → drain n (record { capacity = capacity; items = xs }) ≡ take n xs
  unfolding drain pop
  drain-take zero capacity xs = refl
  drain-take (suc n) capacity [] = refl
  drain-take (suc n) capacity (x ∷ xs) = ap (λ t. x ∷ t) (drain-take n capacity xs)

  -- Messages leave in the order in which they were pushed, behind what the queue held. Of a run
  -- of pushes those that had room are kept, the later ones are dropped, and nothing else is lost.
  pub drain-push_all :
      (n : ℕ) (xs : List A) (q : BoundedQueue A)
      → drain n (push_all xs q) ≡ take n (q.items ++ take (available q) xs)
  drain-push_all n xs q =
      drain-take n (push_all xs q).capacity (push_all xs q).items
      ∙ ap (take n) (push_all-items xs q)
