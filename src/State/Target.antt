-- ===== src/State/Target.antt =====
-- world/state/WorldStateTarget.h: the address that a property or a message is about. Every
-- constructor of the class rejects a non-canonical address, here by `none`.
use clone_craft.Base.{Bool, Option, none, some, if◌then◌else◌}
use clone_craft.Coords.{
  BlockAddress, ChunkAddress, GroupAddress, SectionAddress, RegionAddress, SectorAddress,
  canonical_block, canonical_chunk, canonical_group, canonical_section, canonical_region,
  canonical_sector,
}
use clone_craft.Values
use clone_craft.Values.{SidecarScope}

pub data Variant : Type 0 where
  block : BlockAddress → Variant
  chunk : ChunkAddress → Variant
  group : GroupAddress → Variant
  section : SectionAddress → Variant
  region : RegionAddress → Variant
  sector : SectorAddress → Variant

pub record WorldStateTarget : Type 0 where
  pub value : Variant

unfoldable pub canonical : Variant → Bool
canonical (block a) = canonical_block a
canonical (chunk a) = canonical_chunk a
canonical (group a) = canonical_group a
canonical (section a) = canonical_section a
canonical (region a) = canonical_region a
canonical (sector a) = canonical_sector a

unfoldable pub make : Variant → Option WorldStateTarget
unfolding canonical
make v = if canonical v then some (record { value = v }) else none

scope_of : Variant → SidecarScope
scope_of (block a) = Values.block
scope_of (chunk a) = Values.chunk
scope_of (group a) = Values.chunk_group
scope_of (section a) = Values.section
scope_of (region a) = Values.region
scope_of (sector a) = Values.sector

unfoldable pub scope : WorldStateTarget → SidecarScope
unfolding scope_of
scope t = scope_of t.value

-- `isBlock` and `asBlock` in one: the block address, if the target holds one.
block_of : Variant → Option BlockAddress
block_of (block a) = some a
block_of (chunk a) = none
block_of (group a) = none
block_of (section a) = none
block_of (region a) = none
block_of (sector a) = none

unfoldable pub as_block : WorldStateTarget → Option BlockAddress
unfolding block_of
as_block t = block_of t.value
