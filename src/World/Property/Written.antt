-- ===== src/World/Property/Written.antt =====
-- Every way out of a write of a property.
use clone_craft.Base.{◌≡◌, refl, ap, ◌∙◌, String, true, false, Option, none, some, if_both, ◌&&◌}
use clone_craft.Values.{PropertyValue, SidecarDef, value_fits_sidecar_def}
use clone_craft.Assoc.{is_some}
use clone_craft.Coords.{BlockAddress}
use clone_craft.State.Target.{WorldStateTarget, as_block}
use clone_craft.World.{WorldState, resolved}
use clone_craft.World.Order.{IsWorld}
use clone_craft.World.Property.{set, set_def, set_at}
use clone_craft.World.Property.Effective.{IsTarget, effective, place_at}
use clone_craft.World.Property.Shows.{PropertyWritten, refused, accepts, taken}
use clone_craft.World.Property.AtBlock.{at_block-PropertyWritten}
use clone_craft.World.Property.Above.{above-PropertyWritten}

module _ (w : WorldState) (v : IsWorld w) (t : WorldStateTarget) (target : IsTarget t) (id : String)
    (value : PropertyValue) where
  at_target :
      (def : SidecarDef)
      → resolved t id w ≡ some def
      → value_fits_sidecar_def def value ≡ true
      → (o : Option BlockAddress) → as_block t ≡ o
      → PropertyWritten t id value w (set_at t o id def value w)
  at_target def r fits none h = above-PropertyWritten w v t id value h def r fits
  at_target def r fits (some b) h =
      at_block-PropertyWritten w v t id value b h (place_at t b target h) def r fits

  unfit :
      (def : SidecarDef)
      → resolved t id w ≡ some def
      → value_fits_sidecar_def def value ≡ false
      → accepts t id value w ≡ false
  unfolding accepts taken
  unfit def r h =
      ap (λ o. taken o value (effective t id w)) r ∙ ap (λ z. z && is_some (effective t id w)) h

  unknown : resolved t id w ≡ none → accepts t id value w ≡ false
  unfolding accepts taken
  unknown r = ap (λ o. taken o value (effective t id w)) r

  with_def :
      (o : Option SidecarDef)
      → resolved t id w ≡ o
      → PropertyWritten t id value w (set_def t id o value w)
  unfolding set_def
  with_def none r = refused (unknown r)
  with_def (some def) r =
      if_both (PropertyWritten t id value w) (value_fits_sidecar_def def value) _ _
        (λ fits. at_target def r fits (as_block t) refl) (λ bad. refused (unfit def r bad))

-- Every way out of a write of a property at a canonical target, in a world that is in order: it does
-- not throw; it changes nothing where the scope is another, the value does not fit the type or the
-- target does not show the property; elsewhere the value is what is read afterwards, no other
-- property, target or block is read otherwise, and the world stays in order; the result is true
-- exactly where the stored override is then another than before; only then are called, in this
-- order, the target hook, the block hook for a block and, for a property that is kept, the sink, with
-- the override that is now stored, nothing where the value is the default.
pub set-PropertyWritten :
    (w : WorldState) (t : WorldStateTarget) (id : String) (value : PropertyValue)
    → IsWorld w
    → IsTarget t
    → PropertyWritten t id value w (set t id value w)
unfolding set
set-PropertyWritten w t id value v target = with_def w v t target id value (resolved t id w) refl
