-- ===== src/World/Property/Effective.antt =====
-- What a target shows of a property, read off the world of blocks and the sparse stores.
use clone_craft.Base.{
  ◌≡◌, ◌≢◌, refl, sym, ap, ◌∙◌, String, true, Option, none, some, arith, string_key,
}
use clone_craft.Assoc.{find, is_some}
use clone_craft.Values.{PropertyValue, SidecarDef, value_fits_sidecar_def}
use clone_craft.Exec.{ok, and_then}
use clone_craft.Coords.{BlockAddress, canonical_block}
use clone_craft.State.Target.{
  Variant, WorldStateTarget, canonical, as_block, block, chunk, group, section, region, sector,
}
use clone_craft.State.Hierarchy
use clone_craft.Registry.{PrototypePropertyDef}
use clone_craft.Chunks.Manager.View.{override, Place, place_of, block_property-override}
use clone_craft.World.{WorldState, logical_default_for, resolved, in_scope}
use clone_craft.World.Order.{IsWorld, decl_at, declared-decl_at}
use clone_craft.World.Property.{
  has, get, or_default, has_at, get_at, get_declared, has_def, get_def,
}

-- A target that a constructor of the class accepts.
pub record IsTarget (t : WorldStateTarget) : Type 0 where
  pub valid : canonical t.value ≡ true

pub canonical_at :
    (t : WorldStateTarget) (b : BlockAddress)
    → IsTarget t
    → as_block t ≡ some b
    → canonical_block b ≡ true
unfolding canonical as_block
canonical_at t b v h = at t.value v.valid h
  where
    at :
        (x : Variant)
        → canonical x ≡ true
        → as_block (record { value = x }) ≡ some b
        → canonical_block b ≡ true
    at (block a) c e = ground (arith, c, e)
    at (chunk a) c e = absurd (ground (arith, e))
    at (group a) c e = absurd (ground (arith, e))
    at (section a) c e = absurd (ground (arith, e))
    at (region a) c e = absurd (ground (arith, e))
    at (sector a) c e = absurd (ground (arith, e))

pub place_at :
    (t : WorldStateTarget) (b : BlockAddress) → IsTarget t → as_block t ≡ some b → Place b
place_at t b v h = place_of b (canonical_at t b v h)

-- At a block: what its object declares, overridden or not.
abbrev pub shown_by :
    SidecarDef → Option PrototypePropertyDef → Option PropertyValue → Option PropertyValue
shown_by def none o = none
shown_by def (some decl) o = some (or_default o (logical_default_for def decl))

unfoldable pub shown_at :
    WorldStateTarget → Option BlockAddress → String → SidecarDef → WorldState → Option PropertyValue
shown_at t (some b) id def w = shown_by def (decl_at b id w) (override b id w.chunks)
shown_at t none id def w = some (or_default (Hierarchy.get t id w.hierarchy) def.default_value)

unfoldable pub shown_in :
    WorldStateTarget → String → Option SidecarDef → WorldState → Option PropertyValue
unfolding shown_at
shown_in t id none w = none
shown_in t id (some def) w = shown_at t (as_block t) id def w

unfoldable pub effective : WorldStateTarget → String → WorldState → Option PropertyValue
unfolding shown_in
effective t id w = shown_in t id (resolved t id w) w

pub resolved-find :
    (t : WorldStateTarget) (id : String) (w : WorldState) (def : SidecarDef)
    → resolved t id w ≡ some def
    → find id w.sidecars.entries ≡ some def
resolved-find t id w def h = at (find id w.sidecars.entries) h
  where
    at : (o : Option SidecarDef) → in_scope t o ≡ some def → o ≡ some def
    at none e = absurd (ground (arith, e))
    at (some d) e = ground (arith, e)

pub effective-def :
    (t : WorldStateTarget) (id : String) (w : WorldState) (def : SidecarDef)
    (o : Option BlockAddress)
    → resolved t id w ≡ some def
    → as_block t ≡ o
    → effective t id w ≡ shown_at t o id def w
unfolding effective shown_in
effective-def t id w def o r h = ap (λ x. shown_in t id x w) r ∙ ap (λ x. shown_at t x id def w) h

pub as_block-block :
    (t : WorldStateTarget) (b : BlockAddress) → as_block t ≡ some b → t.value ≡ block b
unfolding as_block
as_block-block t b h = at t.value h
  where
    at : (x : Variant) → as_block (record { value = x }) ≡ some b → x ≡ block b
    at (block a) e = ground (arith, e)
    at (chunk a) e = absurd (ground (arith, e))
    at (group a) e = absurd (ground (arith, e))
    at (section a) e = absurd (ground (arith, e))
    at (region a) e = absurd (ground (arith, e))
    at (sector a) e = absurd (ground (arith, e))

-- A target is a block in one way.
pub as_block-value :
    (t u : WorldStateTarget) (b : BlockAddress)
    → as_block t ≡ some b
    → as_block u ≡ some b
    → t.value ≡ u.value
as_block-value t u b h k = as_block-block t b h ∙ sym (as_block-block u b k)

pub not-a-block :
    (t : WorldStateTarget) → as_block t ≡ none → (a : BlockAddress) → t.value ≢ block a
unfolding as_block
not-a-block t h a e = ground (arith, h, ap (λ x. as_block (record { value = x })) e)

pub logical_default-fits :
    (def : SidecarDef) (decl : PrototypePropertyDef)
    → value_fits_sidecar_def def def.default_value ≡ true
    → value_fits_sidecar_def def (logical_default_for def decl) ≡ true
unfolding logical_default_for
logical_default-fits def decl h = ground (arith, h)

module _ (w : WorldState) (v : IsWorld w) (t : WorldStateTarget) (target : IsTarget t)
    (id : String) where
  read_block :
      (b : BlockAddress) (def : SidecarDef)
      → Place b
      → get_at t (some b) id def w ≡ ok (shown_at t (some b) id def w)
  unfolding get_at shown_at get_declared
  read_block b def p =
      ap (λ r. and_then r λ decl. get_declared b id def decl w) (declared-decl_at w v b id p)
      ∙ at (decl_at b id w)
    where
      at :
          (o : Option PrototypePropertyDef)
          → get_declared b id def o w ≡ ok (shown_by def o (override b id w.chunks))
      at none = refl
      at (some decl) =
          ap (λ r. and_then r λ s. ok (some (or_default s (logical_default_for def decl))))
            (block_property-override b id w.chunks p)

  read_at :
      (def : SidecarDef) (o : Option BlockAddress)
      → as_block t ≡ o
      → get_at t o id def w ≡ ok (shown_at t o id def w)
  unfolding get_at shown_at
  read_at def none h = refl
  read_at def (some b) h = read_block b def (place_at t b target h)

  -- A read does not throw, and it gives what the target shows.
  pub get-effective : get t id w ≡ ok (effective t id w)
  unfolding get get_def effective shown_in
  get-effective = at (resolved t id w)
    where
      at : (o : Option SidecarDef) → get_def t id o w ≡ ok (shown_in t id o w)
      at none = refl
      at (some def) = read_at def (as_block t) refl

  has_block :
      (b : BlockAddress) (def : SidecarDef)
      → Place b
      → has_at (some b) id w ≡ ok (is_some (shown_at t (some b) id def w))
  unfolding has_at shown_at
  has_block b def p =
      ap (λ r. and_then r λ decl. ok (is_some decl)) (declared-decl_at w v b id p)
      ∙ at (decl_at b id w)
    where
      at :
          (o : Option PrototypePropertyDef)
          → ok (is_some o) ≡ ok (is_some (shown_by def o (override b id w.chunks)))
      at none = refl
      at (some decl) = refl

  has_in :
      (def : SidecarDef) (o : Option BlockAddress)
      → as_block t ≡ o
      → has_at o id w ≡ ok (is_some (shown_at t o id def w))
  unfolding has_at shown_at
  has_in def none h = refl
  has_in def (some b) h = has_block b def (place_at t b target h)

  pub has-effective : has t id w ≡ ok (is_some (effective t id w))
  unfolding has has_def effective shown_in
  has-effective = at (resolved t id w)
    where
      at : (o : Option SidecarDef) → has_def t id o w ≡ ok (is_some (shown_in t id o w))
      at none = refl
      at (some def) = has_in def (as_block t) refl
