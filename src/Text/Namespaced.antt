-- ===== src/Text/Namespaced.antt =====
-- What `isNamespacedId` accepts: one colon, with text on both sides.
use native.Mathlib.Numerals.{add-one}
use clone_craft.Base.{
  ℕ, suc, String, ◌≡◌, refl, ap, ◌||◌, leb, if◌then◌else◌, subst, subst, ◌∙◌, sym, ◌↔◌, ◌≢◌, inl,
  inr, true, false, Option, none, some, List, [], ◌∷◌, ◌++◌, length, length-append, All, arith,
  ◌==◌, ==_iff, Option-cases, Bool-cases,
}
use clone_craft.Text.{codes, shift, find, is_none, namespaced_codes, is_namespaced_id}

abbrev pub Without : ℕ → List ℕ → Type 0
Without c xs = All (λ x. x ≢ c) xs

find-eq-none : (c : ℕ) (xs : List ℕ) → find c 0 xs ≡ none → Without c xs
unfolding find
find-eq-none c [] h = tt
find-eq-none c (x ∷ xs) h = (ground arith, find-eq-none c xs (ground arith))

find_absent : (c : ℕ) (xs : List ℕ) → Without c xs → find c 0 xs ≡ none
unfolding find
find_absent c [] h = refl
find_absent c (x ∷ xs) h = ground (arith, find_absent c xs h.1)

-- The text before the first hit, and after it.
abbrev Split : ℕ → ℕ → List ℕ → Type 0
Split c i xs =
    (before : List ℕ) × (after : List ℕ) × (xs ≡ before ++ c ∷ after)
    × (length before ≡ i)
    × Without c before

Split-cons : (c x i : ℕ) (xs : List ℕ) → x ≢ c → Split c i xs → Split c (suc i) (x ∷ xs)
Split-cons c x i xs ne (before, after, e, l, w) =
    (x ∷ before, after, ap (λ t. x ∷ t) e, ap suc l, (ne, w))

find-eq-some : (c i : ℕ) (xs : List ℕ) → find c 0 xs ≡ some i → Split c i xs
unfolding find
find-eq-some c i [] h = cc
find-eq-some c i (x ∷ xs) h = elim (Bool-cases (x == c)) [
  | inl e ↦ ([], xs, ap (λ t. t ∷ xs) ((==_iff x c).0 e), ground arith, tt)
  | inr ne ↦ elim (Option-cases (find c 0 xs)) [
    | inl nothing ↦ absurd (ground arith)
    | inr (j, hit) ↦ later (λ k. find-eq-some c k xs) j hit (ground arith) (ground arith)
  ]
]
  where
    later :
        ((k : ℕ) → find c 0 xs ≡ some k → Split c k xs)
        → (j : ℕ) → find c 0 xs ≡ some j
        → suc j ≡ i
        → x ≢ c
        → Split c i (x ∷ xs)
    later ih j hit e ne = subst (λ t. Split c t (x ∷ xs)) e (Split-cons c x j xs ne (ih j hit))

find-append :
    (c : ℕ) (before after : List ℕ)
    → Without c before
    → find c 0 (before ++ c ∷ after) ≡ some (length before)
unfolding find
find-append c [] after w = ground arith
find-append c (x ∷ before) after w = ground (arith, find-append c before after w.1)

is_none-shift : (o : Option ℕ) → is_none (shift o) ≡ is_none o
is_none-shift none = refl
is_none-shift (some i) = refl

is_none-find_past :
    (c x : ℕ) (before after : List ℕ)
    → is_none (find c (suc (length before)) (before ++ x ∷ after)) ≡ is_none (find c 0 after)
unfolding find
is_none-find_past c x [] after = is_none-shift _
is_none-find_past c x (y ∷ before) after = is_none-shift _ ∙ is_none-find_past c x before after

-- `<namespace>:<name>`: both parts are there, and hold no further colon.
pub record IsNamespaced (xs : List ℕ) : Type 0 where
  pub namespace : List ℕ
  pub name : List ℕ
  pub joined : xs ≡ namespace ++ b':' ∷ name
  pub namespace_ne : namespace ≢ []
  pub name_ne : name ≢ []
  pub namespace_plain : Without b':' namespace
  pub name_plain : Without b':' name

length-zero : (xs : List ℕ) → length xs ≡ 0 → xs ≡ []
length-zero [] h = refl
length-zero (x ∷ xs) h = absurd (omega arith)

-- At the first colon the test comes down to the two lengths and to the rest of the text.
namespaced-eq :
    (before after : List ℕ)
    → Without b':' before
    → namespaced_codes (before ++ b':' ∷ after)
      ≡ (if length before == 0 || leb (length after) 0 then false else is_none (find b':' 0 after))
unfolding namespaced_codes
namespaced-eq before after w =
    rw (find-append b':' before after w, namespaced_codes)
      (rw (add-one, is_none-find_past b':' b':' before after)
        (ground (arith, length-append before (b':' ∷ after))))

separate :
    (before after : List ℕ)
    → Without b':' before
    → namespaced_codes (before ++ b':' ∷ after) ≡ true
    → IsNamespaced (before ++ b':' ∷ after)
separate before after w h = parts before after w (sym (namespaced-eq before after w) ∙ h)
  where
    parts :
        (b a : List ℕ)
        → Without b':' b
        → (if length b == 0 || leb (length a) 0 then false else is_none (find b':' 0 a)) ≡ true
        → IsNamespaced (b ++ b':' ∷ a)
    parts [] a v e = absurd (ground arith)
    parts (y ∷ b) [] v e = absurd (ground arith)
    parts (y ∷ b) (z ∷ a) v e = record {
      namespace = y ∷ b;
      name = z ∷ a;
      joined = refl;
      namespace_ne = λ q. cc;
      name_ne = λ q. cc;
      namespace_plain = v;
      name_plain = find-eq-none b':' (z ∷ a) (ground arith);
    }

no_colon : (xs : List ℕ) → namespaced_codes xs ≡ true → find b':' 0 xs ≢ none
unfolding namespaced_codes
no_colon xs h e = ground arith

namespaced_codes-IsNamespaced : (xs : List ℕ) → namespaced_codes xs ≡ true → IsNamespaced xs
namespaced_codes-IsNamespaced xs h = elim (Option-cases (find b':' 0 xs)) [
  | inl e ↦ absurd (no_colon xs h e)
  | inr (i, e) ↦ found (find-eq-some b':' i xs e)
]
  where
    found : {i : ℕ} → Split b':' i xs → IsNamespaced xs
    found (before, after, e, l, w) =
        subst IsNamespaced (sym e) (separate before after w (ap namespaced_codes (sym e) ∙ h))

IsNamespaced-namespaced_codes : (xs : List ℕ) → IsNamespaced xs → namespaced_codes xs ≡ true
IsNamespaced-namespaced_codes xs v =
    ap namespaced_codes v.joined
    ∙ namespaced-eq v.namespace v.name v.namespace_plain
    ∙ accepted v.namespace v.name v.namespace_ne v.name_ne v.name_plain
  where
    accepted :
        (b a : List ℕ)
        → b ≢ []
        → a ≢ []
        → Without b':' a
        → (if length b == 0 || leb (length a) 0 then false else is_none (find b':' 0 a)) ≡ true
    accepted [] a p q w = absurd (p refl)
    accepted (y ∷ b) [] p q w = absurd (q refl)
    accepted (y ∷ b) (z ∷ a) p q w = rw (find_absent b':' (z ∷ a) w) (ground arith)

-- A text passes exactly when it is a namespace, a colon and a name, neither of them empty and
-- neither with a colon of its own.
pub is_namespaced_id_iff : (id : String) → (is_namespaced_id id ≡ true) ↔ IsNamespaced (codes id)
unfolding is_namespaced_id
is_namespaced_id_iff id =
    (namespaced_codes-IsNamespaced (codes id), IsNamespaced-namespaced_codes (codes id))
