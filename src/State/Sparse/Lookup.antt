-- ===== src/State/Sparse/Lookup.antt =====
-- What can be read back from a store, and that it holds no empty bag.
use clone_craft.Base.{
  ◌≡◌, refl, ◌∙◌, String, Bool, true, false, not, Option, none, some, ite, same, Key, string_key,
  if◌then◌else◌, if_both, arith,
}
use clone_craft.Assoc.{
  find, put, try_emplace, erase, empty, is_some, find-put, find-erase, find-empty, find-size_zero,
}
use clone_craft.Values.{PropertyValue, value_eq}
use clone_craft.State.Sparse.{
  PropertyBag, SparseStore, bag_empty, holds, or_new, bag_get, get, set, remove, remove_found,
  store_bag,
}

pub empty-find : (q : String) (bag : PropertyBag) → bag_empty bag ≡ true → find q bag ≡ none
empty-find q bag h = find-size_zero q bag (ground (arith, h))

module _ {A : Type 0} ⦃key : Key A⦄ where
  store_bag-get :
      (a b : A) (q : String) (bag : PropertyBag) (s : SparseStore A)
      → get b q (store_bag a bag s) ≡ ite (same a b) (find q bag) (get b q s)
  unfolding store_bag get
  store_bag-get a b q bag s =
      if_both (λ t. bag_get q (find b t) ≡ ite (same a b) (find q bag) (bag_get q (find b s)))
        (bag_empty bag) _ _ (λ h. ground (arith, find-erase a b s, empty-find q bag h))
        (λ h. ground (arith, find-put a b bag s))

  abbrev After :
      A → A → String → String → Option PropertyValue → SparseStore A → SparseStore A → Type 0
  After a b p q value s t =
      get b q t ≡ ite (same a b) (ite (same p q) value (get b q s)) (get b q s)

  remove_found-get :
      (a b : A) (p q : String) (found : Option PropertyBag) (s : SparseStore A)
      → find a s ≡ found
      → After a b p q none s (remove_found a p found s).1
  unfolding remove_found get
  remove_found-get a b p q none s h = ground (arith, h)
  remove_found-get a b p q (some bag) s h =
      store_bag-get a b q (erase p bag) s ∙ ground (arith, h, find-erase p q bag)

  remove_found-changed :
      (a : A) (p : String) (found : Option PropertyBag) (s : SparseStore A)
      → find a s ≡ found
      → (remove_found a p found s).0 ≡ is_some (get a p s)
  unfolding remove_found get
  remove_found-changed a p none s h = ground (arith, h)
  remove_found-changed a p (some bag) s h = ground (arith, h)

  -- A removal takes away the override of its address and property and no other, and reports whether
  -- there was one.
  pub remove-get :
      (a b : A) (p q : String) (s : SparseStore A)
      → ((remove a p s).0 ≡ is_some (get a p s))
        × (get b q (remove a p s).1 ≡ ite (same a b) (ite (same p q) none (get b q s)) (get b q s))
  unfolding remove
  remove-get a b p q s =
      (remove_found-changed a p (find a s) s refl, remove_found-get a b p q (find a s) s refl)

  abbrev pub Stored :
      A
      → A
      → String
      → String
      → PropertyValue
      → PropertyValue
      → SparseStore A
      → Bool × SparseStore A
      → Type 0
  Stored a b p q v d s (changed, t) =
      (changed ≡ (if value_eq v d then is_some (get a p s) else not (holds v (get a p s))))
      × (get b q t
          ≡ ite (same a b)
              (ite (same p q)
                (if value_eq v d then none else if holds v (get a p s) then get a p s else some v)
                (get b q s))
              (get b q s))

  written-get :
      (a b : A) (p q : String) (v : PropertyValue) (found : Option PropertyBag) (s : SparseStore A)
      → find a s ≡ found
      → After a b p q (some v) s (put a (put p v (or_new found)) s)
  unfolding get
  written-get a b p q v none s h = ground (
    arith,
    h,
    find-put a b (put p v empty) s,
    find-put p q v empty,
    find-empty {V = PropertyValue} q,
  )
  written-get a b p q v (some bag) s h =
      ground (arith, h, find-put a b (put p v bag) s, find-put p q v bag)

  kept-get :
      (a b : A) (p q : String) (v : PropertyValue) (found : Option PropertyBag) (s : SparseStore A)
      → find a s ≡ found
      → holds v (find p (or_new found)) ≡ true
      → After a b p q (find p (or_new found)) s (try_emplace a empty s)
  unfolding get try_emplace
  kept-get a b p q v none s h k = absurd (ground (arith, k, find-empty {V = PropertyValue} p))
  kept-get a b p q v (some bag) s h k = ground (arith, h)

  bag_at :
      (a : A) (p : String) (found : Option PropertyBag) (s : SparseStore A)
      → find a s ≡ found
      → find p (or_new found) ≡ get a p s
  unfolding get
  bag_at a p none s h = ground (arith, h, find-empty {V = PropertyValue} p)
  bag_at a p (some bag) s h = ground (arith, h)

  write-Stored :
      (a b : A) (p q : String) (v d : PropertyValue) (s : SparseStore A)
      → value_eq v d ≡ false
      → Stored a b p q v d s (
          if holds v (find p (or_new (find a s)))
          then (false, try_emplace a empty s)
          else (true, put a (put p v (or_new (find a s))) s))
  write-Stored a b p q v d s h =
      if_both (Stored a b p q v d s) (holds v (find p (or_new (find a s)))) _ _
        (λ k. (
          rw (h, ← bag_at a p (find a s) s refl, k) refl,
          rw (h, ← bag_at a p (find a s) s refl, k) (kept-get a b p q v (find a s) s refl k),
        ))
        (λ k. (
          rw (h, ← bag_at a p (find a s) s refl, k) refl,
          rw (h, ← bag_at a p (find a s) s refl, k) (written-get a b p q v (find a s) s refl),
        ))

  removed-Stored :
      (a b : A) (p q : String) (v d : PropertyValue) (s : SparseStore A)
      → value_eq v d ≡ true
      → Stored a b p q v d s (remove_found a p (find a s) s)
  removed-Stored a b p q v d s h = (
    rw h (remove_found-changed a p (find a s) s refl),
    rw h (remove_found-get a b p q (find a s) s refl),
  )

  -- A write changes the override of its address and property and no other. Writing the default
  -- removes it; writing what is stored changes nothing; any other value can be read back. The result
  -- says whether the store changed.
  pub set-get :
      (a b : A) (p q : String) (v d : PropertyValue) (s : SparseStore A)
      → Stored a b p q v d s (set a p v d s)
  unfolding set
  set-get a b p q v d s =
      if_both (Stored a b p q v d s) (value_eq v d) _ _ (removed-Stored a b p q v d s)
        (write-Stored a b p q v d s)
