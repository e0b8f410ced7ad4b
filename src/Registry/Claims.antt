-- ===== src/Registry/Claims.antt =====
-- A block belongs to one prototype, whatever the order of the registry.
use clone_craft.Base.{
  ◌≡◌, refl, sym, ap, ◌∙◌, subst, String, true, not, Option, none, some, List, [], ◌∷◌, same,
  string_key, arith, Option-cases, inl, inr, All,
}
use clone_craft.Assoc.{find, put, empty, is_some, find-put, find-empty}
use clone_craft.Exec.{ok, require-eq-ok, and_then-eq-ok, ok_injective}
use clone_craft.Registry.{
  Registry, new, get, insert, PrototypeDef, PrototypeRegistry, insert_prototype, prototype_among,
  prototype_for_block, some_or_throw,
}
use clone_craft.Registry.Order.{IsOrdered, new-IsOrdered, insert-IsOrdered, order-listed, mem}

pub record IsClaimed (r : PrototypeRegistry) : Type 0 where
  pub ordered : IsOrdered r.base
  pub owner :
      (b id : String)
      → find b r.block_claims ≡ some id
      → (p : PrototypeDef) × (find id r.base.entries ≡ some p) × (p.block_id ≡ b)
  pub claim :
      (id : String) (p : PrototypeDef)
      → find id r.base.entries ≡ some p
      → find p.block_id r.block_claims ≡ some id

find_owner : Option String → Registry PrototypeDef → Option PrototypeDef
find_owner none r = none
find_owner (some id) r = find id r.entries

-- The prototype that claims a block.
pub owner_of : String → PrototypeRegistry → Option PrototypeDef
unfolding find_owner
owner_of b r = find_owner (find b r.block_claims) r.base

module _ (r : PrototypeRegistry) (v : IsClaimed r) (b : String) where
  Listed : List String → Type 0
  Listed xs = All (λ id. is_some (find id r.base.entries) ≡ true) xs

  unowned :
      find b r.block_claims ≡ none
      → (xs : List String) → Listed xs
      → prototype_among xs b r.base ≡ ok none
  unfolding prototype_among get some_or_throw Listed
  unowned free [] l = refl
  unowned free (id ∷ rest) l = elim (Option-cases (find id r.base.entries)) [
    | inl absent ↦ absurd (ground (arith, absent, l.0))
    | inr (p, e) ↦ ground (arith, e, v.claim id p e, unowned free rest l.1)
  ]

  module _ (id₀ : String) (p₀ : PrototypeDef) (claimed : find b r.block_claims ≡ some id₀)
      (found : find id₀ r.base.entries ≡ some p₀) (block : p₀.block_id ≡ b) where
    owned :
        (xs : List String)
        → Listed xs
        → mem id₀ xs ≡ true
        → prototype_among xs b r.base ≡ ok (some p₀)
    unfolding prototype_among get some_or_throw mem Listed
    owned [] l m = absurd (ground (arith, m))
    owned (id ∷ rest) l m = elim (Option-cases (find id r.base.entries)) [
      | inl absent ↦ absurd (ground (arith, absent, l.0))
      | inr (p, e) ↦ ground (arith, e, v.claim id p e, owned rest l.1)
    ]

  by_claim :
      (o : Option String)
      → find b r.block_claims ≡ o
      → prototype_for_block b r ≡ ok (find_owner o r.base)
  unfolding prototype_for_block find_owner Listed
  by_claim none h = unowned h r.base.order (order-listed r.base v.ordered)
  by_claim (some id) h =
      let (p, found, block) = v.owner b id h in
      owned id p h found block r.base.order (order-listed r.base v.ordered)
        (sym (v.ordered.listed id) ∙ ap (λ o. is_some o) found)
      ∙ ap (λ o. ok o) (sym found)

-- The search for the prototype of a block never throws, and it finds the one prototype that claims
-- the block, or nothing where none does: the order of the registry does not matter.
pub prototype_for_block-owner_of :
    (b : String) (r : PrototypeRegistry) → IsClaimed r → prototype_for_block b r ≡ ok (owner_of b r)
unfolding owner_of
prototype_for_block-owner_of b r v = by_claim r v b (find b r.block_claims) refl

free_id : {A : Type 0} (o : Option A) → not (is_some o) ≡ true → o ≡ none
free_id none h = refl
free_id (some a) h = absurd (ground arith)

pub insert-fresh :
    {D : Type 0} (id : String) (d : D) (r r' : Registry D)
    → insert id d r ≡ ok r'
    → (find id r.entries ≡ none) × (r'.entries ≡ put id d r.entries)
unfolding insert
insert-fresh {D} id d r r' h =
    let (fresh, made) = require-eq-ok _ _ _ r' h in
    (
      free_id (find id r.entries) fresh,
      ap (λ (t : Registry D). t.entries) (sym (ok_injective made)),
    )

module _ (p : PrototypeDef) (r : PrototypeRegistry) (v : IsClaimed r) (base : Registry PrototypeDef)
    (free : find p.block_id r.block_claims ≡ none) (added : insert p.id p r.base ≡ ok base) where
  joined : PrototypeRegistry
  joined = record { base = base; block_claims = put p.block_id p.id r.block_claims }

  still_owner :
      (b id : String)
      → find b joined.block_claims ≡ some id
      → (q : PrototypeDef) × (find id base.entries ≡ some q) × (q.block_id ≡ b)
  unfolding joined
  still_owner b id h =
      let (fresh, entries) = insert-fresh p.id p r.base base added in
      elim (same p.block_id b) [
        | yes here ↦ (
          p,
          ground (
            arith,
            entries,
            here,
            h,
            find-put p.block_id b p.id r.block_claims,
            find-put p.id id p r.base.entries,
          ),
          here,
        )
        | no other ↦
            let before : find b r.block_claims ≡ some id =
              ground (arith, h, other, find-put p.block_id b p.id r.block_claims) in
            let (q, found, block) = v.owner b id before in
            (q, ground (arith, entries, fresh, found, find-put p.id id p r.base.entries), block)
      ]

  still_claim :
      (id : String) (q : PrototypeDef)
      → find id base.entries ≡ some q
      → find q.block_id joined.block_claims ≡ some id
  unfolding joined
  still_claim id q h =
      let (fresh, entries) = insert-fresh p.id p r.base base added in
      elim (same p.id id) [
        | yes here ↦
            let new : p ≡ q = ground (arith, entries, here, h, find-put p.id id p r.base.entries) in
            ground (arith, new, here, find-put p.block_id q.block_id p.id r.block_claims)
        | no other ↦
            let before : find id r.base.entries ≡ some q =
              ground (arith, entries, h, other, find-put p.id id p r.base.entries) in
            ground
              (arith, v.claim id q before, free, find-put p.block_id q.block_id p.id r.block_claims)
      ]

  joined-IsClaimed : IsClaimed joined
  unfolding joined
  joined-IsClaimed = record {
    ordered = insert-IsOrdered p.id p r.base base v.ordered added;
    owner = still_owner;
    claim = still_claim;
  }

-- A prototype that is accepted keeps the registry in order: each block belongs to one prototype, and
-- the order names every prototype once.
pub insert_prototype-IsClaimed :
    (p : PrototypeDef) (r r' : PrototypeRegistry)
    → IsClaimed r
    → insert_prototype p r ≡ ok r'
    → IsClaimed r'
unfolding insert_prototype joined
insert_prototype-IsClaimed p r r' v h =
    let (free, rest) = require-eq-ok _ _ _ r' h in
    let (base, added, made) = and_then-eq-ok _ _ r' rest in
    subst IsClaimed (ok_injective made) (joined-IsClaimed p r v base (free_id _ free) added)

pub new-IsClaimed : IsClaimed (record { base = new; block_claims = empty })
new-IsClaimed = record {
  ordered = new-IsOrdered;
  owner = λ b id h. absurd (ground (arith, h, find-empty {V = String} b));
  claim = λ id p h. absurd (ground (arith, h, find-empty {V = PrototypeDef} id));
}
