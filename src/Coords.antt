-- ===== src/Coords.antt =====
-- world/coordinates/Coords.part00.hpp, Coords.part03.hpp: the hierarchical addresses, their
-- canonical form and the flat index of a block in its chunk and of a chunk in its group.
pub mod Axis
pub mod Offset
pub mod Delta
pub mod Index
use clone_craft.Base.{ℕ, Bool, true, ◌&&◌}
use clone_craft.Base.Int.{ℤ, pos, leb_ℤ, ltb_ℤ, ℤ-discrete}

-- The defaults of OMNIGRID_CHUNK_EDGE, OMNIGRID_GROUP_EDGE, OMNIGRID_SECTION_EDGE,
-- OMNIGRID_REGION_EDGE and OMNIGRID_SECTOR_EDGE.
abbrev pub blocks_per_chunk_edge : ℕ
blocks_per_chunk_edge = 16

abbrev pub chunks_per_group_edge : ℕ
chunks_per_group_edge = 16

abbrev pub groups_per_section_edge : ℕ
groups_per_section_edge = 256

abbrev pub sections_per_region_edge : ℕ
sections_per_region_edge = 9_000_000_000_000_000_000

abbrev pub regions_per_sector_edge : ℕ
regions_per_sector_edge = 9_000_000_000_000_000_000

-- SectorCoord, LocalRegionCoord, LocalSectionCoord, LocalGroupCoord, LocalChunkCoord and
-- LocalBlockCoord have the same three int64 fields.
pub record Coord : Type 0 where
  pub x : ℤ
  pub y : ℤ
  pub z : ℤ

pub record GroupAddress : Type 0 where
  pub sector : Coord
  pub region : Coord
  pub section : Coord
  pub group : Coord

pub record ChunkAddress : Type 0 where
  pub group : GroupAddress
  pub chunk : Coord

pub record BlockAddress : Type 0 where
  pub chunk : ChunkAddress
  pub block : Coord

pub record SectorAddress : Type 0 where
  pub sector : Coord

pub record RegionAddress : Type 0 where
  pub sector : Coord
  pub region : Coord

pub record SectionAddress : Type 0 where
  pub sector : Coord
  pub region : Coord
  pub section : Coord

abbrev pub zero_coord : Coord
zero_coord = record { x = pos 0; y = pos 0; z = pos 0 }

-- `originGroupAddress`, `originChunkAddress`, `originBlockAddress`
abbrev pub origin_group_address : GroupAddress
origin_group_address = record {
  sector = zero_coord;
  region = zero_coord;
  section = zero_coord;
  group = zero_coord;
}

abbrev pub origin_chunk_address : ChunkAddress
origin_chunk_address = record { group = origin_group_address; chunk = zero_coord }

abbrev pub origin_block_address : BlockAddress
origin_block_address = record { chunk = origin_chunk_address; block = zero_coord }

unfoldable pub Coord-discrete : Discrete Coord
unfolding ℤ-discrete
Coord-discrete = hlevel ℤ-discrete

unfoldable pub GroupAddress-discrete : Discrete GroupAddress
unfolding Coord-discrete
GroupAddress-discrete = hlevel Coord-discrete

unfoldable pub ChunkAddress-discrete : Discrete ChunkAddress
unfolding GroupAddress-discrete
ChunkAddress-discrete = hlevel (Coord-discrete, GroupAddress-discrete)

unfoldable pub BlockAddress-discrete : Discrete BlockAddress
unfolding ChunkAddress-discrete
BlockAddress-discrete = hlevel (Coord-discrete, ChunkAddress-discrete)

unfoldable pub SectorAddress-discrete : Discrete SectorAddress
unfolding Coord-discrete
SectorAddress-discrete = hlevel Coord-discrete

unfoldable pub RegionAddress-discrete : Discrete RegionAddress
unfolding Coord-discrete
RegionAddress-discrete = hlevel Coord-discrete

unfoldable pub SectionAddress-discrete : Discrete SectionAddress
unfolding Coord-discrete
SectionAddress-discrete = hlevel Coord-discrete

-- `validLocal`
unfoldable pub valid_local : ℤ → ℕ → Bool
valid_local value radix = leb_ℤ (pos 0) value && ltb_ℤ value (pos radix)

unfoldable pub valid_coord : Coord → ℕ → Bool
unfolding valid_local
valid_coord c radix = valid_local c.x radix && (valid_local c.y radix && valid_local c.z radix)

-- `requireCanonical`, as the test that decides whether it throws.
unfoldable pub canonical_group : GroupAddress → Bool
unfolding valid_coord
canonical_group a =
    valid_coord a.region regions_per_sector_edge
    && (valid_coord a.section sections_per_region_edge
        && valid_coord a.group groups_per_section_edge)

unfoldable pub canonical_chunk : ChunkAddress → Bool
unfolding canonical_group
canonical_chunk a = canonical_group a.group && valid_coord a.chunk chunks_per_group_edge

unfoldable pub canonical_block : BlockAddress → Bool
unfolding canonical_chunk
canonical_block a = canonical_chunk a.chunk && valid_coord a.block blocks_per_chunk_edge

unfoldable pub canonical_region : RegionAddress → Bool
unfolding valid_coord
canonical_region a = valid_coord a.region regions_per_sector_edge

unfoldable pub canonical_section : SectionAddress → Bool
unfolding canonical_region
canonical_section a =
    canonical_region (record { sector = a.sector; region = a.region })
    && valid_coord a.section sections_per_region_edge

unfoldable pub canonical_sector : SectorAddress → Bool
canonical_sector a = true
