-- ===== src/Tests/Chunks.antt =====
-- Each theorem on the chunks at a manager without chunks.
use clone_craft.Base.{ap, not, ◌==◌, ◌≡◌, refl, true}
use clone_craft.Exec.{ok}
use clone_craft.Chunks.Orientation.{set_block_orientation, block_orientation, east}
use clone_craft.Chunks.Orientation.Facing.{stored, set_block_orientation-roundtrip}
use clone_craft.Values.{uint32}
use clone_craft.Coords.{origin_block_address, canonical_block}
use clone_craft.Chunks.Manager.{ChunkManager, new_manager, set_block, set_block_property}
use clone_craft.Chunks.Manager.Placement.{IsManager, new_manager-IsManager}
use clone_craft.Chunks.Manager.View.{Place, place_of}
use clone_craft.Chunks.Manager.SetBlock.{
  SetBlock, set_block-SetBlock, set_block-IsManager, set_block-view,
}
use clone_craft.Chunks.Manager.Properties.{PropertySet, takes}
use clone_craft.Chunks.Manager.SetProperty.{set_block_property-PropertySet}

pub origin_canonical : canonical_block origin_block_address ≡ true
unfolding canonical_block
origin_canonical = refl

abbrev origin_place : Place origin_block_address
origin_place = place_of origin_block_address origin_canonical

set_block-SetBlock_example :
    SetBlock origin_block_address 1
      (new_manager true)
      (set_block origin_block_address 1 (new_manager true))
set_block-SetBlock_example =
    set_block-SetBlock origin_block_address 1 (new_manager true)
      (place_of origin_block_address origin_canonical) (new_manager-IsManager true)

-- A manager with a block at the origin.
abbrev built : ChunkManager
built = (set_block origin_block_address 1 (new_manager true)).1

built-IsManager : IsManager built
built-IsManager =
    set_block-IsManager origin_block_address 1 (new_manager true) origin_place
      (new_manager-IsManager true)

set_block_property-PropertySet_example :
    PropertySet origin_block_address "core:damage"
      (uint32 7)
      (uint32 3)
      built
      (set_block_property origin_block_address "core:damage" (uint32 7) (uint32 3) built)
set_block_property-PropertySet_example =
    set_block_property-PropertySet origin_block_address "core:damage" (uint32 7) (uint32 3) built
      (place_of origin_block_address origin_canonical) built-IsManager

built-takes : takes origin_block_address built ≡ true
built-takes =
    ap (λ id. not (id == 0))
      (set_block-view origin_block_address 1 (new_manager true) origin_place
        (new_manager-IsManager true))

set_block_orientation-roundtrip_example :
    block_orientation origin_block_address (set_block_orientation origin_block_address east built).1
    ≡ ok (stored east)
set_block_orientation-roundtrip_example =
    set_block_orientation-roundtrip origin_block_address east built
      (place_of origin_block_address origin_canonical) built-IsManager built-takes refl
