-- ===== src/Chunks/Orientation/Facing.antt =====
-- An orientation is read as it was written.
use clone_craft.Base.{
  ℕ, ◌≡◌, refl, ap, ◌∙◌, Bool, true, false, Option, none, some, ◌==◌, ite, same, if_pos,
  if◌then◌else◌, arith, string_key, nat_key,
}
use clone_craft.Values.{PropertyValue, uint32, float32, value_eq}
use clone_craft.Exec.{ok, and_then}
use clone_craft.Coords.{BlockAddress}
use clone_craft.State.Hierarchy.{block_key}
use clone_craft.Chunks.Manager.{ChunkManager}
use clone_craft.Chunks.Manager.Placement.{IsManager}
use clone_craft.Chunks.Manager.View.{override, Place, block_property-override}
use clone_craft.Chunks.Manager.Properties.{takes, left}
use clone_craft.Chunks.Manager.SetProperty.{set_block_property-PropertySet}
use clone_craft.Chunks.Orientation.{
  BlockOrientation, up, down, north, south, east, west, forged_orientation, block_orientation_value,
  block_orientation_from_value, orientation_of, set_block_orientation, block_orientation,
  orientation_id,
}

abbrev pub declared : BlockOrientation → Bool
declared (forged_orientation n) = false
declared _ = true

-- What is stored of an orientation: the default is not.
abbrev pub stored : BlockOrientation → Option BlockOrientation
stored up = none
stored down = some down
stored north = some north
stored south = some south
stored east = some east
stored west = some west
stored (forged_orientation n) = none

from_value :
    (o : BlockOrientation)
    → declared o ≡ true
    → block_orientation_from_value (block_orientation_value o) ≡ some o
unfolding block_orientation_from_value
from_value up h = refl
from_value down h = refl
from_value north h = refl
from_value south h = refl
from_value east h = refl
from_value west h = refl
from_value (forged_orientation n) h = absurd (ground (arith, h))

left_of :
    (n : ℕ) (old : Option PropertyValue)
    → (n == 0) ≡ false
    → left (uint32 n) (uint32 0) old ≡ some (uint32 n)
unfolding value_eq
left_of n none h = ground (arith, h)
left_of n (some (uint32 k)) h = ground (arith, h)
left_of n (some (float32 bits)) h = ground (arith, h)

read_left :
    (o : BlockOrientation) (old : Option PropertyValue)
    → declared o ≡ true
    → orientation_of (left (uint32 (block_orientation_value o)) (uint32 0) old) ≡ stored o
unfolding orientation_of value_eq block_orientation_from_value
read_left up old h = refl
read_left down old h = ap (λ v. orientation_of v) (left_of 1 old refl)
read_left north old h = ap (λ v. orientation_of v) (left_of 2 old refl)
read_left south old h = ap (λ v. orientation_of v) (left_of 3 old refl)
read_left east old h = ap (λ v. orientation_of v) (left_of 4 old refl)
read_left west old h = ap (λ v. orientation_of v) (left_of 5 old refl)
read_left (forged_orientation n) old h = absurd (ground (arith, h))

-- The orientation that was written to a loaded block that is not air is the one that is read, where
-- nothing is read for the default, whatever was stored before.
pub set_block_orientation-roundtrip :
    (b : BlockAddress) (o : BlockOrientation) (m : ChunkManager)
    → Place b
    → IsManager m
    → takes b m ≡ true
    → declared o ≡ true
    → block_orientation b (set_block_orientation b o m).1 ≡ ok (stored o)
unfolding block_orientation set_block_orientation
set_block_orientation-roundtrip b o m p v solid known =
    let set =
      set_block_property-PropertySet b orientation_id (uint32 (block_orientation_value o))
        (uint32 0) m p v in
    let now =
      set.overrides b orientation_id p
      ∙ ap
          (λ z.
            if z
            then ite (same b b)
                (ite (same orientation_id orientation_id)
                  (left (uint32 (block_orientation_value o)) (uint32 0)
                    (override b orientation_id m))
                  (override b orientation_id m))
                (override b orientation_id m)
            else override b orientation_id m)
          solid
      ∙ if_pos (same b b) refl _ _
      ∙ if_pos (same orientation_id orientation_id) refl _ _ in
    ap (λ r. and_then r λ v. ok (orientation_of v))
      (block_property-override b orientation_id _ p ∙ ap (λ x. ok x) now)
    ∙ ap (λ x. ok x) (read_left o (override b orientation_id m) known)
