-- ===== src/World/Property/Typed.antt =====
-- What a read of a property gives is a value of the registered type.
use clone_craft.Base.{◌≡◌, refl, String, true, Option, none, some, arith, string_key}
use clone_craft.Assoc.{find, is_some}
use clone_craft.Values.{PropertyValue, SidecarDef, value_fits_sidecar_def}
use clone_craft.Exec.{ok}
use clone_craft.Coords.{BlockAddress}
use clone_craft.State.Target.{WorldStateTarget, as_block}
use clone_craft.State.Hierarchy
use clone_craft.Registry.{PrototypePropertyDef}
use clone_craft.Registry.Sidecars.{default-fits}
use clone_craft.Chunks.Manager.View.{override}
use clone_craft.World.{WorldState, logical_default_for, resolved}
use clone_craft.World.Order.{Fits, IsWorld, decl_at}
use clone_craft.World.Property.{has, get, or_default}
use clone_craft.World.Property.Reads.{Reads, effective-Reads}
use clone_craft.World.Property.Effective.{
  IsTarget, place_at, effective, shown_in, shown_at, shown_by, resolved-find, logical_default-fits,
  get-effective, has-effective,
}

module _ (w : WorldState) (v : IsWorld w) (id : String) (def : SidecarDef)
    (found : find id w.sidecars.entries ≡ some def) where
  pub value_fits_sidecar_def-Fits :
      (x : PropertyValue) → value_fits_sidecar_def def x ≡ true → Fits w.sidecars id x
  value_fits_sidecar_def-Fits x h = (def, found, h)

  pub def-fits : value_fits_sidecar_def def def.default_value ≡ true
  def-fits = default-fits def (v.checked.valid id def found).0

  typed_or :
      (o : Option PropertyValue) (d x : PropertyValue)
      → ((y : PropertyValue) → o ≡ some y → Fits w.sidecars id y)
      → value_fits_sidecar_def def d ≡ true
      → some (or_default o d) ≡ some x
      → Fits w.sidecars id x
  typed_or none d x h fits e = value_fits_sidecar_def-Fits x (ground (arith, e, fits))
  typed_or (some y) d x h fits e = h x e

  typed_by :
      (decl : Option PrototypePropertyDef) (o : Option PropertyValue) (x : PropertyValue)
      → ((y : PropertyValue) → o ≡ some y → Fits w.sidecars id y)
      → shown_by def decl o ≡ some x
      → Fits w.sidecars id x
  typed_by none o x h e = absurd (ground (arith, e))
  typed_by (some decl) o x h e =
      typed_or o (logical_default_for def decl) x h (logical_default-fits def decl def-fits) e

  typed_at :
      (t : WorldStateTarget) (o : Option BlockAddress) (x : PropertyValue)
      → IsTarget t
      → as_block t ≡ o
      → shown_at t o id def w ≡ some x
      → Fits w.sidecars id x
  unfolding shown_at
  typed_at t (some b) x target h e =
      typed_by (decl_at b id w) (override b id w.chunks) x
        (λ y. v.typed b id y (place_at t b target h)) e
  typed_at t none x target h e =
      typed_or (Hierarchy.get t id w.hierarchy) def.default_value x (v.typed_above t id) def-fits e

pub effective-Fits :
    (w : WorldState) (t : WorldStateTarget) (id : String) (x : PropertyValue)
    → IsWorld w
    → IsTarget t
    → effective t id w ≡ some x
    → Fits w.sidecars id x
unfolding effective shown_in
effective-Fits w t id x v target h = at (resolved t id w) refl h
  where
    at :
        (o : Option SidecarDef)
        → resolved t id w ≡ o
        → shown_in t id o w ≡ some x
        → Fits w.sidecars id x
    at none r e = absurd (ground (arith, e))
    at (some def) r e =
        typed_at w v id def (resolved-find t id w def r) t (as_block t) x target refl e

-- A read of a property in a world that is in order does not throw: it gives what the target shows,
-- which is the override, or else the default of the first declaration of the property by the prototype of the block, where that default
-- fits the type, or else the default of the type; and nothing where the property is not registered, its scope is another or the object at the block does not declare
-- it. `has` says whether there is a value, and the value is of the registered type and
-- within its width.
pub get-typed :
    (w : WorldState) (t : WorldStateTarget) (id : String)
    → IsWorld w
    → IsTarget t
    → (get t id w ≡ ok (effective t id w))
      × (has t id w ≡ ok (is_some (effective t id w)))
      × Reads t id w (effective t id w)
      × ((x : PropertyValue) → effective t id w ≡ some x → Fits w.sidecars id x)
get-typed w t id v target = (
  get-effective w v t target id,
  has-effective w v t target id,
  effective-Reads t id w,
  λ x. effective-Fits w t id x v target,
)
