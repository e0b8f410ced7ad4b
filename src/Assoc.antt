-- ===== src/Assoc.antt =====
-- `std::map` and `std::unordered_map` with their unique keys. Proofs use the laws below and not
-- the list of entries; no modelled operation depends on the order in which a map is iterated.
use clone_craft.Base.{
  ℕ, suc, ◌≡◌, refl, ap, Bool, true, false, Option, none, some, List, [], ◌∷◌, ite, Key, same,
  length, ◌==◌, arith,
}

pub record Map {ℓ} (K V : Type ℓ) : Type ℓ where
  pub entries : List (K × V)

abbrev pub is_some {ℓ} : {A : Type ℓ} → Option A → Bool
is_some none = false
is_some (some a) = true

module _ {ℓ} {K V : Type ℓ} ⦃key : Key K⦄ where
  lookup : K → List (K × V) → Option V
  lookup k [] = none
  lookup k ((j, v) ∷ m) = ite (same j k) (some v) (lookup k m)

  insert : K → V → List (K × V) → List (K × V)
  insert k v [] = (k, v) ∷ []
  insert k v ((j, w) ∷ m) = ite (same j k) ((k, v) ∷ m) ((j, w) ∷ insert k v m)

  remove : K → List (K × V) → List (K × V)
  remove k [] = []
  remove k ((j, w) ∷ m) = ite (same j k) (remove k m) ((j, w) ∷ remove k m)

  lookup-insert :
      (k j : K) (v : V) (m : List (K × V))
      → lookup j (insert k v m) ≡ ite (same k j) (some v) (lookup j m)
  unfolding lookup insert
  lookup-insert k j v [] = refl
  lookup-insert k j v ((i, w) ∷ m) = ground (arith, lookup-insert k j v m)

  lookup-remove :
      (k j : K) (m : List (K × V)) → lookup j (remove k m) ≡ ite (same k j) none (lookup j m)
  unfolding lookup remove
  lookup-remove k j [] = ground arith
  lookup-remove k j ((i, w) ∷ m) = ground (arith, lookup-remove k j m)

  remove_absent : (k : K) (m : List (K × V)) → lookup k m ≡ none → remove k m ≡ m
  unfolding lookup remove
  remove_absent k [] h = refl
  remove_absent k ((i, w) ∷ m) h = ground (arith, remove_absent k m)

  remove-insert :
      (k : K) (v : V) (m : List (K × V)) → lookup k m ≡ none → remove k (insert k v m) ≡ m
  unfolding lookup insert remove
  remove-insert k v [] h = ground arith
  remove-insert k v ((i, w) ∷ m) h = ground (arith, remove-insert k v m)

  length-insert :
      (k : K) (v : V) (m : List (K × V))
      → lookup k m ≡ none
      → length (insert k v m) ≡ suc (length m)
  unfolding lookup insert
  length-insert k v [] h = refl
  length-insert k v ((i, w) ∷ m) h = ground (arith, length-insert k v m)

  -- `m.find( k )`, with `end()` as `none`
  unfoldable pub find : K → Map K V → Option V
  unfolding lookup
  find k m = lookup k m.entries

  -- `m.find( k ) != m.end()`, `m.count( k ) != 0`
  abbrev pub contains : K → Map K V → Bool
  contains k m = is_some (find k m)

  -- `m.insert_or_assign( k, v )`; `m.emplace( k, v )` where `k` is absent
  unfoldable pub put : K → V → Map K V → Map K V
  unfolding insert
  put k v m = record { entries = insert k v m.entries }

  -- `m.try_emplace( k, v )`, `m.emplace( k, v )`: a key that is there keeps its value
  unfoldable pub try_emplace : K → V → Map K V → Map K V
  try_emplace k v m = elim (find k m) [ none ↦ put k v m | some _ ↦ m ]

  -- `m.erase( k )`
  unfoldable pub erase : K → Map K V → Map K V
  unfolding remove
  erase k m = record { entries = remove k m.entries }

  pub find-put :
      (k j : K) (v : V) (m : Map K V) → find j (put k v m) ≡ ite (same k j) (some v) (find j m)
  unfolding find put
  find-put k j v m = lookup-insert k j v m.entries

  pub find-erase : (k j : K) (m : Map K V) → find j (erase k m) ≡ ite (same k j) none (find j m)
  unfolding find erase
  find-erase k j m = lookup-remove k j m.entries

  pub find-put_self : (k : K) (v : V) (m : Map K V) → find k (put k v m) ≡ some v
  find-put_self k v m = ground (arith, find-put k k v m)

  pub erase_absent : (k : K) (m : Map K V) → find k m ≡ none → erase k m ≡ m
  unfolding find erase
  erase_absent k m h = ap (λ t. record { entries = t }) (remove_absent k m.entries h)

  pub erase-put : (k : K) (v : V) (m : Map K V) → find k m ≡ none → erase k (put k v m) ≡ m
  unfolding find put erase
  erase-put k v m h = ap (λ t. record { entries = t }) (remove-insert k v m.entries h)

module _ {ℓ} {K V : Type ℓ} where
  unfoldable pub empty : Map K V
  empty = record { entries = [] }

  -- `m.size()`
  unfoldable pub size : Map K V → ℕ
  size m = length m.entries

module _ {ℓ} {K V : Type ℓ} ⦃key : Key K⦄ where
  pub find-empty : (k : K) → find k (empty {K = K} {V = V}) ≡ none
  unfolding find empty lookup
  find-empty k = refl

  pub size-put : (k : K) (v : V) (m : Map K V) → find k m ≡ none → size (put k v m) ≡ suc (size m)
  unfolding find size put
  size-put k v m h = length-insert k v m.entries h

  insert_some : (k : K) (v : V) (m : List (K × V)) → (length (insert k v m) == 0) ≡ false
  unfolding insert
  insert_some k v [] = refl
  insert_some k v ((i, w) ∷ m) = ground arith

  -- A map that something was put in is not empty.
  pub put_some : (k : K) (v : V) (m : Map K V) → (size (put k v m) == 0) ≡ false
  unfolding size put
  put_some k v m = insert_some k v m.entries

  nothing_there : (k : K) (m : List (K × V)) → length m ≡ 0 → lookup k m ≡ none
  unfolding lookup
  nothing_there k [] h = refl
  nothing_there k (x ∷ m) h = absurd (omega (arith, h))

  pub find-size_zero : (k : K) (m : Map K V) → size m ≡ 0 → find k m ≡ none
  unfolding find size
  find-size_zero k m h = nothing_there k m.entries h

  pub try_emplace_present :
      (k : K) (v w : V) (m : Map K V) → find k m ≡ some w → try_emplace k v m ≡ m
  unfolding try_emplace
  try_emplace_present k v w m h = ground (arith, h)
