-- ===== src/Tests/Addresses.antt =====
-- Each theorem on addresses at a concrete address.
use clone_craft.Base.Int.{◌-ℤ◌, ◌*ℤ◌, pos, negsuc, ◌+ℤ◌}
use clone_craft.Base.{arith, ◌<◌, ◌≡◌, ◌↔◌, refl, some, true}
use clone_craft.Coords.{Coord, BlockAddress, canonical_block, origin_block_address, zero_coord}
use clone_craft.Coords.Axis.{AxisAddress, try_offset_axis, try_offset_chunk_axis}
use clone_craft.Coords.Axis.Value.{IsCanonicalAxis, value, try_offset_axis-value}
use clone_craft.Coords.Axis.Complete.{try_offset_axis_complete}
use clone_craft.Coords.Axis.Chunks.{chunk_value, try_offset_chunk_axis-chunk_value}
use clone_craft.Coords.Offset.{block_axis_x, block_axis_y, block_axis_z, try_offset_block}
use clone_craft.Coords.Offset.Exact.{try_offset_block-exact}
use clone_craft.Coords.Delta.{block_axis_delta_within, middle}
use clone_craft.Coords.Delta.Exact.{Within}
use clone_craft.Coords.Delta.Blocks.{block_axis_delta_within_iff}
use clone_craft.Coords.Index.{block_index, coord_at, block_index-coord_at}

abbrev origin : AxisAddress
origin = block_axis_x origin_block_address

-- One block before the origin: every digit borrows.
abbrev before_origin : AxisAddress
before_origin = record {
  sector = negsuc 0;
  region = pos 8_999_999_999_999_999_999;
  section = pos 8_999_999_999_999_999_999;
  group = pos 255;
  chunk = pos 15;
  block = pos 15;
}

origin-IsCanonicalAxis : IsCanonicalAxis origin
origin-IsCanonicalAxis = record {
  region = (omega arith, omega arith);
  section = (omega arith, omega arith);
  group = (omega arith, omega arith);
  chunk = (omega arith, omega arith);
  block = (omega arith, omega arith);
}

try_offset_axis-value_example :
    IsCanonicalAxis before_origin × (value before_origin ≡ value origin +ℤ negsuc 0)
unfolding try_offset_axis ◌+ℤ◌ ◌-ℤ◌
try_offset_axis-value_example =
    try_offset_axis-value origin before_origin (negsuc 0) origin-IsCanonicalAxis refl

before_origin-IsCanonicalAxis : IsCanonicalAxis before_origin
before_origin-IsCanonicalAxis = record {
  region = (omega arith, omega arith);
  section = (omega arith, omega arith);
  group = (omega arith, omega arith);
  chunk = (omega arith, omega arith);
  block = (omega arith, omega arith);
}

try_offset_axis_complete_example : try_offset_axis origin (negsuc 0) ≡ some before_origin
unfolding ◌+ℤ◌ ◌-ℤ◌ ◌*ℤ◌
try_offset_axis_complete_example =
    try_offset_axis_complete origin before_origin (negsuc 0) origin-IsCanonicalAxis
      before_origin-IsCanonicalAxis (omega arith, omega arith) (omega arith, omega arith) refl

abbrev chunk_before : AxisAddress
chunk_before = record before_origin { block = pos 0 }

try_offset_chunk_axis-chunk_value_example :
    IsCanonicalAxis chunk_before
    × (chunk_before.block ≡ pos 0)
    × (chunk_value chunk_before ≡ chunk_value origin +ℤ negsuc 0)
unfolding try_offset_chunk_axis ◌+ℤ◌ ◌-ℤ◌
try_offset_chunk_axis-chunk_value_example =
    try_offset_chunk_axis-chunk_value origin chunk_before (negsuc 0) origin-IsCanonicalAxis refl

abbrev one_up : BlockAddress
one_up = record origin_block_address { block = record zero_coord { y = pos 1 } }

try_offset_block-exact_example :
    (canonical_block one_up ≡ true)
    × (value (block_axis_x one_up) ≡ value (block_axis_x origin_block_address) +ℤ pos 0)
    × (value (block_axis_y one_up) ≡ value (block_axis_y origin_block_address) +ℤ pos 1)
    × (value (block_axis_z one_up) ≡ value (block_axis_z origin_block_address) +ℤ pos 0)
unfolding canonical_block try_offset_block try_offset_axis ◌+ℤ◌
try_offset_block-exact_example =
    try_offset_block-exact origin_block_address one_up (pos 0) (pos 1) (pos 0) refl refl

abbrev corner : Coord
corner = record { x = pos 15; y = pos 0; z = pos 3 }

block_index-coord_at_example : (3843 < 4096) × (coord_at 3843 ≡ corner)
unfolding block_index
block_index-coord_at_example = block_index-coord_at corner 3843 refl

-- Over the border of two sectors, so that the search finds it.
across_sectors : block_axis_delta_within before_origin origin (pos 5) ≡ some (negsuc 0)
unfolding block_axis_delta_within try_offset_axis middle ◌+ℤ◌ ◌-ℤ◌
across_sectors = refl

block_axis_delta_within_iff_example :
    (block_axis_delta_within before_origin origin (pos 5) ≡ some (negsuc 0))
    ↔ (value before_origin ≡ value origin +ℤ negsuc 0) × Within (pos 5) (negsuc 0)
unfolding ◌+ℤ◌ ◌-ℤ◌
block_axis_delta_within_iff_example =
    block_axis_delta_within_iff before_origin origin (pos 5) (negsuc 0)
      before_origin-IsCanonicalAxis origin-IsCanonicalAxis (omega arith, omega arith)
      (omega arith, omega arith) (omega arith, omega arith)
