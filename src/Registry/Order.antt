-- ===== src/Registry/Order.antt =====
-- The order of a registry names each of its entries, and each once.
use clone_craft.Base.{
  ◌≡◌, refl, sym, ap, ◌∙◌, subst, String, Bool, true, false, not, Option, none, some, List, [], ◌∷◌,
  ◌++◌, length, length-append, All, All-map, ite, same, string_key, arith,
}
use clone_craft.Assoc.{find, put, is_some, size, find-put, find-empty, empty, size-put}
use clone_craft.Exec.{Result, ok, err, require-eq-ok}
use clone_craft.Registry.{Registry, new, insert}

unfoldable pub mem : String → List String → Bool
mem k [] = false
mem k (j ∷ rest) = ite (same j k) true (mem k rest)

abbrev pub Distinct : List String → Type 0
Distinct [] = Unit
Distinct (k ∷ rest) = (mem k rest ≡ false) × Distinct rest

mem-All :
    (xs ys : List String)
    → ((k : String) → mem k xs ≡ true → mem k ys ≡ true)
    → All (λ k. mem k ys ≡ true) xs
unfolding mem
mem-All [] ys h = tt
mem-All (x ∷ xs) ys h = (h x (ground arith), mem-All xs ys (λ k m. h k (ground (arith, m))))

pub mem-append :
    (k j : String) (xs : List String) → mem k (xs ++ j ∷ []) ≡ ite (same j k) true (mem k xs)
unfolding mem
mem-append k j [] = refl
mem-append k j (i ∷ xs) = ground (arith, mem-append k j xs)

pub append-Distinct :
    (j : String) (xs : List String) → mem j xs ≡ false → Distinct xs → Distinct (xs ++ j ∷ [])
unfolding mem
append-Distinct j [] h d = (refl, tt)
append-Distinct j (i ∷ xs) h d = ground (arith, append-Distinct j xs, mem-append i j xs)

module _ {D : Type 0} where
  pub record IsOrdered (r : Registry D) : Type 0 where
    pub distinct : Distinct r.order
    pub sized : size r.entries ≡ length r.order
    pub listed : (id : String) → is_some (find id r.entries) ≡ mem id r.order

  pub order-listed :
      (r : Registry D) → IsOrdered r → All (λ id. is_some (find id r.entries) ≡ true) r.order
  order-listed r v = All-map r.order (λ k m. v.listed k ∙ m) (mem-All r.order r.order (λ k m. m))

  inserted-IsOrdered :
      (id : String) (d : D) (r : Registry D)
      → IsOrdered r
      → find id r.entries ≡ none
      → IsOrdered (record { entries = put id d r.entries; order = r.order ++ id ∷ [] })
  inserted-IsOrdered id d r v h = record {
    distinct = append-Distinct id r.order (sym (v.listed id) ∙ ap (λ o. is_some o) h) v.distinct;
    sized = size-put id d r.entries h ∙ omega (arith, v.sized, length-append r.order (id ∷ []));
    listed = λ j. ground (arith, v.listed j, find-put id j d r.entries, mem-append j id r.order);
  }

  absent : (id : String) (o : Option D) → not (is_some o) ≡ true → o ≡ none
  absent id none h = refl
  absent id (some d) h = absurd (ground arith)

  pub insert-IsOrdered :
      (id : String) (d : D) (r r' : Registry D) → IsOrdered r → insert id d r ≡ ok r' → IsOrdered r'
  unfolding insert
  insert-IsOrdered id d r r' v h =
      let (fresh, made) = require-eq-ok _ _ _ r' h in
      subst
        (λ (o : Result (Registry D)). elim o as (λ _. Type 0) [ ok t ↦ IsOrdered t | err _ ↦ Unit ])
        made (inserted-IsOrdered id d r v (absent id (find id r.entries) fresh))

  pub new-IsOrdered : IsOrdered (new {D = D})
  unfolding mem size empty
  new-IsOrdered = record {
    distinct = tt;
    sized = refl;
    listed = λ id. ap (λ o. is_some o) (find-empty {V = D} id);
  }
