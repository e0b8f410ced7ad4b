-- ===== src/Chunks/Orientation.antt =====
-- world/chunk/OrientationSidecar.h, and what ChunkManager builds on it: the orientation of a block
-- as a property, and the properties of a whole chunk.
pub mod Facing
use clone_craft.Base.{
  ℕ, ◌+◌, ◌-◌, String, Bool, true, false, Option, none, some, List, [], ◌∷◌, ltb, ◌==◌,
  if◌then◌else◌,
}
use clone_craft.Assoc.{size}
use clone_craft.Values.{PropertyValue, uint32, float32}
use clone_craft.Exec.{Result, ok, pure, and_then, ◌>>=◌, ◌>>◌}
use clone_craft.Coords.{GroupAddress, ChunkAddress, BlockAddress}
use clone_craft.Chunks.Chunk.{Chunk, PropertySidecar, clear_property, property_sidecar}
use clone_craft.Chunks.Group.{ChunkGroup, with_neighbours}
use clone_craft.Chunks.Manager.{
  ChunkManager, M, chunk_at, write_chunk, notify_all, set_block_property, block_property,
}

-- `forged_orientation n` is a value outside the enumeration, n + 6.
pub data BlockOrientation : Type 0 where
  up down north south east west : BlockOrientation
  forged_orientation : ℕ → BlockOrientation

abbrev pub block_orientation_value : BlockOrientation → ℕ
block_orientation_value up = 0
block_orientation_value down = 1
block_orientation_value north = 2
block_orientation_value south = 3
block_orientation_value east = 4
block_orientation_value west = 5
block_orientation_value (forged_orientation n) = n + 6

-- `static_cast<BlockOrientation>( value )`
abbrev orientation_cast : ℕ → BlockOrientation
orientation_cast n =
    if n == 0
    then up
    else if n == 1
    then down
    else if n == 2
    then north
    else if n == 3
    then south
    else if n == 4
    then east
    else if n == 5
    then west
    else forged_orientation (n - 6)

unfoldable pub block_orientation_from_value : ℕ → Option BlockOrientation
block_orientation_from_value n = if ltb 5 n then none else some (orientation_cast n)

abbrev pub orientation_id : String
orientation_id = "core:orientation"

unfoldable pub set_block_orientation : BlockAddress → BlockOrientation → M Bool
set_block_orientation b o =
    set_block_property b orientation_id (uint32 (block_orientation_value o))
      (uint32 (block_orientation_value up))

orientation_of : Option PropertyValue → Option BlockOrientation
unfolding block_orientation_from_value
orientation_of none = none
orientation_of (some (float32 bits)) = none
orientation_of (some (uint32 n)) = block_orientation_from_value n

unfoldable pub block_orientation : BlockAddress → ChunkManager → Result (Option BlockOrientation)
unfolding orientation_of
block_orientation b m =
    and_then (block_property b orientation_id m) λ stored. ok (orientation_of stored)

sidecar_in : String → Option Chunk → Option PropertySidecar
sidecar_in id none = none
sidecar_in id (some c) = property_sidecar id c

unfoldable pub block_property_sidecar_in_chunk :
    ChunkAddress → String → ChunkManager → Result (Option PropertySidecar)
unfolding sidecar_in
block_property_sidecar_in_chunk a id m = and_then (chunk_at a m) λ c. ok (sidecar_in id c)

abbrev pub chunk_orientation_sidecar : ChunkAddress → ChunkManager → Result (Option PropertySidecar)
chunk_orientation_sidecar a m = block_property_sidecar_in_chunk a orientation_id m

cleared : ChunkAddress → Bool × Chunk → M Bool
cleared a (false, c) m = (ok false, m)
cleared a (true, c) m = (ok true, notify_all (with_neighbours a) (write_chunk a c m))

clear_in : ChunkAddress → String → Option Chunk → M Bool
unfolding cleared
clear_in a id none = pure false
clear_in a id (some c) = cleared a (clear_property id c)

unfoldable pub clear_block_property_sidecar_in_chunk : ChunkAddress → String → M Bool
unfolding clear_in
clear_block_property_sidecar_in_chunk a id = do found ← λ m. (chunk_at a m, m); clear_in a id found

abbrev pub clear_chunk_orientations : ChunkAddress → M (Unit {0})
clear_chunk_orientations a = do clear_block_property_sidecar_in_chunk a orientation_id; pure tt

abbrev pub group_count : ChunkManager → ℕ
group_count m = size m.groups

chunks_among : List (GroupAddress × ChunkGroup) → ℕ
chunks_among [] = 0
chunks_among ((a, g) ∷ rest) = size g.chunks + chunks_among rest

unfoldable pub chunk_count : ChunkManager → ℕ
unfolding chunks_among
chunk_count m = chunks_among m.groups.entries
