-- ===== src/State/Sparse/Lean.antt =====
-- A store holds no empty bag.
use clone_craft.Base.{
  ◌≡◌, ◌≢◌, refl, sym, subst, String, Bool, true, false, Option, none, some, Key, string_key,
  if◌then◌else◌, if_both, arith,
}
use clone_craft.Assoc.{
  find, put, try_emplace, erase, empty, find-put, find-put_self, find-erase, find-empty,
  try_emplace_present,
}
use clone_craft.Values.{PropertyValue, value_eq}
use clone_craft.State.Sparse.{
  PropertyBag, SparseStore, bag_empty, holds, or_new, set, remove, remove_found, store_bag,
}
use clone_craft.State.Sparse.Lookup.{empty-find}

not_true : (b : Bool) → b ≢ true → b ≡ false
not_true true h = absurd (h refl)
not_true false h = refl

written_not_empty :
    (p : String) (v : PropertyValue) (bag : PropertyBag) → bag_empty (put p v bag) ≡ false
written_not_empty p v bag =
    not_true _ (λ h. ground (arith, empty-find p (put p v bag) h, find-put_self p v bag))

module _ {A : Type 0} ⦃key : Key A⦄ where
  abbrev pub IsLean : SparseStore A → Type 0
  IsLean s = (a : A) (bag : PropertyBag) → find a s ≡ some bag → bag_empty bag ≡ false

  abbrev LeanAfter : Bool × SparseStore A → Type 0
  LeanAfter r = IsLean r.1

  store_bag-IsLean :
      (a : A) (bag : PropertyBag) (s : SparseStore A) → IsLean s → IsLean (store_bag a bag s)
  unfolding store_bag
  store_bag-IsLean a bag s lean =
      if_both IsLean (bag_empty bag) _ _
        (λ h b found e. lean b found (ground (arith, e, find-erase a b s)))
        (λ h b found e. ground (arith, h, e, find-put a b bag s, lean b found))

  remove_found-IsLean :
      (a : A) (p : String) (found : Option PropertyBag) (s : SparseStore A)
      → IsLean s
      → LeanAfter (remove_found a p found s)
  unfolding remove_found
  remove_found-IsLean a p none s lean = lean
  remove_found-IsLean a p (some bag) s lean = store_bag-IsLean a (erase p bag) s lean

  kept-IsLean :
      (a : A) (p : String) (v : PropertyValue) (found : Option PropertyBag) (s : SparseStore A)
      → find a s ≡ found
      → holds v (find p (or_new found)) ≡ true
      → IsLean s
      → IsLean (try_emplace a empty s)
  kept-IsLean a p v none s h k lean = absurd (ground (arith, k, find-empty {V = PropertyValue} p))
  kept-IsLean a p v (some bag) s h k lean =
      subst IsLean (sym (try_emplace_present a empty bag s h)) lean

  write-IsLean :
      (a : A) (p : String) (v : PropertyValue) (s : SparseStore A)
      → IsLean s
      → LeanAfter (
          if holds v (find p (or_new (find a s)))
          then (false, try_emplace a empty s)
          else (true, put a (put p v (or_new (find a s))) s))
  write-IsLean a p v s lean =
      let bag = put p v (or_new (find a s)) in
      if_both LeanAfter (holds v (find p (or_new (find a s)))) _ _
        (λ k. kept-IsLean a p v (find a s) s refl k lean)
        (λ k b found e.
          ground
            (arith, e, find-put a b bag s, lean b found, written_not_empty p v (or_new (find a s))))

  -- No write and no removal leaves an address with an empty bag behind.
  pub set-IsLean :
      (a : A) (p : String) (v d : PropertyValue) (s : SparseStore A)
      → IsLean s
      → IsLean (set a p v d s).1 × IsLean (remove a p s).1
  unfolding set remove
  set-IsLean a p v d s lean = (
    if_both LeanAfter (value_eq v d) _ _ (λ _. remove_found-IsLean a p (find a s) s lean)
        (λ _. write-IsLean a p v s lean),
    remove_found-IsLean a p (find a s) s lean,
  )
