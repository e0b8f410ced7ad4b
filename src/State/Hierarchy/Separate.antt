-- ===== src/State/Hierarchy/Separate.antt =====
-- Targets are separate: what is written at one does not show at another.
use clone_craft.Base.{
  ◌≡◌, ◌≢◌, refl, ap, String, none, some, Key, string_key, if◌then◌else◌, arith, not,
}
use clone_craft.Assoc.{is_some, empty, find-empty}
use clone_craft.Values.{PropertyValue, value_eq}
use clone_craft.State.Target.{
  Variant, WorldStateTarget, block, chunk, group, section, region, sector,
}
use clone_craft.Coords.{BlockAddress}
use clone_craft.State.Sparse
use clone_craft.State.Sparse.{SparseStore, PropertyBag, holds}
use clone_craft.State.Sparse.Lookup.{set-get}
use clone_craft.State.Hierarchy.{
  chunk_key, group_key, section_key, region_key, sector_key, HierarchySidecarStore, new_store, get,
  set, get_at, set_at,
}

module _ {A : Type 0} ⦃key : Key A⦄ where
  elsewhere :
      (a b : A) (p q : String) (v d : PropertyValue) (s : SparseStore A)
      → (a ≡ b → p ≢ q)
      → Sparse.get b q (Sparse.set a p v d s).1 ≡ Sparse.get b q s
  elsewhere a b p q v d s apart = ground (arith, (set-get a b p q v d s).1, apart)

abbrev Elsewhere :
    Variant
    → String
    → String
    → PropertyValue
    → PropertyValue
    → HierarchySidecarStore
    → Variant
    → Type 0
Elsewhere t p q v d h u = (t ≡ u → p ≢ q) → get_at u q (set_at t p v d h).1 ≡ get_at u q h

set_at-Elsewhere :
    (t u : Variant) (p q : String) (v d : PropertyValue) (h : HierarchySidecarStore)
    → Elsewhere t p q v d h u
unfolding get_at set_at
set_at-Elsewhere (block a) u p q v d h = λ apart. refl
set_at-Elsewhere (chunk a) u p q v d h = elim u as (Elsewhere (chunk a) p q v d h) [
  | chunk b ↦ λ apart. elsewhere a b p q v d h.chunks (λ e. apart (ap chunk e))
  | _ ↦ λ apart. refl
]
set_at-Elsewhere (group a) u p q v d h = elim u as (Elsewhere (group a) p q v d h) [
  | group b ↦ λ apart. elsewhere a b p q v d h.groups (λ e. apart (ap group e))
  | _ ↦ λ apart. refl
]
set_at-Elsewhere (section a) u p q v d h = elim u as (Elsewhere (section a) p q v d h) [
  | section b ↦ λ apart. elsewhere a b p q v d h.sections (λ e. apart (ap section e))
  | _ ↦ λ apart. refl
]
set_at-Elsewhere (region a) u p q v d h = elim u as (Elsewhere (region a) p q v d h) [
  | region b ↦ λ apart. elsewhere a b p q v d h.regions (λ e. apart (ap region e))
  | _ ↦ λ apart. refl
]
set_at-Elsewhere (sector a) u p q v d h = elim u as (Elsewhere (sector a) p q v d h) [
  | sector b ↦ λ apart. elsewhere a b p q v d h.sectors (λ e. apart (ap sector e))
  | _ ↦ λ apart. refl
]

module _ {A : Type 0} ⦃key : Key A⦄ where
  here :
      (a : A) (p : String) (v d : PropertyValue) (s : SparseStore A)
      → Sparse.get a p (Sparse.set a p v d s).1 ≡ (
          if value_eq v d
          then none
          else if holds v (Sparse.get a p s)
          then Sparse.get a p s
          else some v)
  here a p v d s = ground (arith, (set-get a a p p v d s).1)

set_at-here :
    (t : Variant) (p : String) (v d : PropertyValue) (h : HierarchySidecarStore)
    → ((a : BlockAddress) → t ≢ block a)
    → get_at t p (set_at t p v d h).1
      ≡ (if value_eq v d then none else if holds v (get_at t p h) then get_at t p h else some v)
unfolding get_at set_at
set_at-here (block a) p v d h above = absurd (above a refl)
set_at-here (chunk a) p v d h above = here a p v d h.chunks
set_at-here (group a) p v d h above = here a p v d h.groups
set_at-here (section a) p v d h above = here a p v d h.sections
set_at-here (region a) p v d h above = here a p v d h.regions
set_at-here (sector a) p v d h above = here a p v d h.sectors

-- A write of a property of a target above the block scope can be read back, unless it is the default,
-- which leaves no override, or equal to what is stored, which stays. No other property of the target
-- and no other target, of this scope or another, changes.
pub set-separate :
    (t u : WorldStateTarget) (p q : String) (v d : PropertyValue) (h : HierarchySidecarStore)
    → ((a : BlockAddress) → t.value ≢ block a)
    → (get t p (set t p v d h).1
        ≡ (if value_eq v d then none else if holds v (get t p h) then get t p h else some v))
      × ((t.value ≡ u.value → p ≢ q) → get u q (set t p v d h).1 ≡ get u q h)
unfolding get set
set-separate t u p q v d h above =
    (set_at-here t.value p v d h above, set_at-Elsewhere t.value u.value p q v d h)

module _ {A : Type 0} ⦃key : Key A⦄ where
  reported :
      (a : A) (p : String) (v d : PropertyValue) (s : SparseStore A)
      → (Sparse.set a p v d s).0
        ≡ (if value_eq v d then is_some (Sparse.get a p s) else not (holds v (Sparse.get a p s)))
  reported a p v d s = (set-get a a p p v d s).0

module _ {A : Type 0} ⦃key : Key A⦄ where
  new-get : (a : A) (p : String) → Sparse.get a p (empty {K = A} {V = PropertyBag}) ≡ none
  unfolding Sparse.get
  new-get a p = ground (arith, find-empty {V = PropertyBag} a)

-- The result of a write above the block scope says whether the override changes.
pub set-reports :
    (t : WorldStateTarget) (p : String) (v d : PropertyValue) (h : HierarchySidecarStore)
    → ((a : BlockAddress) → t.value ≢ block a)
    → (set t p v d h).0 ≡ (if value_eq v d then is_some (get t p h) else not (holds v (get t p h)))
unfolding set get set_at get_at
set-reports t p v d h above = at t.value above
  where
    at :
        (x : Variant)
        → ((a : BlockAddress) → x ≢ block a)
        → (set_at x p v d h).0
          ≡ (if value_eq v d then is_some (get_at x p h) else not (holds v (get_at x p h)))
    at (block a) n = absurd (n a refl)
    at (chunk a) n = reported a p v d h.chunks
    at (group a) n = reported a p v d h.groups
    at (section a) n = reported a p v d h.sections
    at (region a) n = reported a p v d h.regions
    at (sector a) n = reported a p v d h.sectors

pub new_store-get : (t : WorldStateTarget) (p : String) → get t p new_store ≡ none
unfolding get get_at
new_store-get t p = at t.value
  where
    at : (x : Variant) → get_at x p new_store ≡ none
    at (block a) = refl
    at (chunk a) = new-get a p
    at (group a) = new-get a p
    at (section a) = new-get a p
    at (region a) = new-get a p
    at (sector a) = new-get a p
