-- ===== src/Coords/Offset.antt =====
-- world/coordinates/Coords.part02.hpp, Coords.part03.hpp: addresses by their three axes, and the
-- offsets of blocks, chunks and groups. `none` is the `false` of the `try` functions.
pub mod Exact
pub mod Ends
pub mod Steps
use clone_craft.Base.{Option, none, some}
use clone_craft.Base.Int.{ℤ, pos}
use clone_craft.Exec.{Result, ok, err}
use clone_craft.Comm.Error.{sector_overflow}
use clone_craft.Coords.{GroupAddress, ChunkAddress, BlockAddress, zero_coord, origin_block_address}
use clone_craft.Coords.Axis.{
  AxisAddress, and_then_some, try_offset_axis, try_offset_chunk_axis, try_offset_group_axis,
}

abbrev pub block_axis_x : BlockAddress → AxisAddress
block_axis_x a = record {
  sector = a.chunk.group.sector.x;
  region = a.chunk.group.region.x;
  section = a.chunk.group.section.x;
  group = a.chunk.group.group.x;
  chunk = a.chunk.chunk.x;
  block = a.block.x;
}

abbrev pub block_axis_y : BlockAddress → AxisAddress
block_axis_y a = record {
  sector = a.chunk.group.sector.y;
  region = a.chunk.group.region.y;
  section = a.chunk.group.section.y;
  group = a.chunk.group.group.y;
  chunk = a.chunk.chunk.y;
  block = a.block.y;
}

abbrev pub block_axis_z : BlockAddress → AxisAddress
block_axis_z a = record {
  sector = a.chunk.group.sector.z;
  region = a.chunk.group.region.z;
  section = a.chunk.group.section.z;
  group = a.chunk.group.group.z;
  chunk = a.chunk.chunk.z;
  block = a.block.z;
}

abbrev pub from_axes : AxisAddress → AxisAddress → AxisAddress → BlockAddress
from_axes x y z = record {
  chunk = record {
    group = record {
      sector = record { x = x.sector; y = y.sector; z = z.sector };
      region = record { x = x.region; y = y.region; z = z.region };
      section = record { x = x.section; y = y.section; z = z.section };
      group = record { x = x.group; y = y.group; z = z.group };
    };
    chunk = record { x = x.chunk; y = y.chunk; z = z.chunk };
  };
  block = record { x = x.block; y = y.block; z = z.block };
}

abbrev pub chunk_origin : ChunkAddress → BlockAddress
chunk_origin a = record { chunk = a; block = zero_coord }

unfoldable pub try_offset_block : BlockAddress → ℤ → ℤ → ℤ → Option BlockAddress
try_offset_block base dx dy dz = and_then_some (try_offset_axis (block_axis_x base) dx) λ x.
    and_then_some (try_offset_axis (block_axis_y base) dy)
      λ y. and_then_some (try_offset_axis (block_axis_z base) dz) λ z. some (from_axes x y z)

unfoldable pub try_offset_chunk : ChunkAddress → ℤ → ℤ → ℤ → Option ChunkAddress
try_offset_chunk base dx dy dz =
    let bb = chunk_origin base in
    and_then_some (try_offset_chunk_axis (block_axis_x bb) dx) λ x.
      and_then_some (try_offset_chunk_axis (block_axis_y bb) dy) λ y.
        and_then_some (try_offset_chunk_axis (block_axis_z bb) dz) λ z. some (from_axes x y z).chunk

unfoldable pub try_offset_group : GroupAddress → ℤ → ℤ → ℤ → Option GroupAddress
try_offset_group base dx dy dz =
    let bb = chunk_origin (record { group = base; chunk = zero_coord }) in
    and_then_some (try_offset_group_axis (block_axis_x bb) dx) λ x.
      and_then_some (try_offset_group_axis (block_axis_y bb) dy) λ y.
        and_then_some (try_offset_group_axis (block_axis_z bb) dz)
          λ z. some (from_axes x y z).chunk.group

-- The offsets that throw where the sector does not fit.
abbrev or_overflow : {A : Type 0} → Option A → Result A
or_overflow none = err sector_overflow
or_overflow (some a) = ok a

unfoldable pub offset_block : BlockAddress → ℤ → ℤ → ℤ → Result BlockAddress
offset_block base dx dy dz = or_overflow (try_offset_block base dx dy dz)

unfoldable pub offset_chunk : ChunkAddress → ℤ → ℤ → ℤ → Result ChunkAddress
offset_chunk base dx dy dz = or_overflow (try_offset_chunk base dx dy dz)

unfoldable pub offset_group : GroupAddress → ℤ → ℤ → ℤ → Result GroupAddress
offset_group base dx dy dz = or_overflow (try_offset_group base dx dy dz)

-- `fromOriginOffset`, which throws where this is `none`.
unfoldable pub from_origin_offset : ℤ → ℤ → ℤ → Option BlockAddress
unfolding try_offset_block
from_origin_offset x y z = try_offset_block origin_block_address x y z

-- `withOriginRelativeY`
unfoldable pub with_origin_relative_y : BlockAddress → ℤ → Option BlockAddress
unfolding from_origin_offset
with_origin_relative_y column y =
    and_then_some (from_origin_offset (pos 0) y (pos 0))
      λ oy. some (from_axes (block_axis_x column) (block_axis_y oy) (block_axis_z column))
