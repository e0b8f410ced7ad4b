-- ===== src/Coords/Delta.antt =====
-- world/coordinates/Coords.part02.hpp, Coords.part03.hpp: the difference of two addresses, where it
-- is within a bound. `none` is the `false` of these functions. Two digits of one canonical axis
-- differ by less than 2^63, so their difference is exact here.
pub mod Search
pub mod Order
pub mod Complete
pub mod Blocks
pub mod Exact
use clone_craft.Base.{
  ℕ, zero, suc, ◌+◌, Bool, true, false, ◌&&◌, ◌==◌, Option, none, some, if◌then◌else◌,
}
use clone_craft.Base.Int.{ℤ, pos, negsuc, neg, pos_part, neg_part, ◌+ℤ◌, ◌-ℤ◌, ◌*ℤ◌, ltb_ℤ, leb_ℤ}
use clone_craft.Coords.{
  Coord, GroupAddress, ChunkAddress, BlockAddress, zero_coord, blocks_per_chunk_edge,
}
use clone_craft.Coords.Axis.{
  AxisAddress, quot, and_then_some, try_offset_axis, try_offset_chunk_axis, try_offset_group_axis,
}
use clone_craft.Coords.Offset.{block_axis_x, block_axis_y, block_axis_z, chunk_origin}

abbrev pub eq_ℤ : ℤ → ℤ → Bool
eq_ℤ a b = pos_part a + neg_part b == pos_part b + neg_part a

-- `==` of two axes, member by member.
abbrev pub same_axis : AxisAddress → AxisAddress → Bool
same_axis a b =
    eq_ℤ a.sector b.sector
    && (eq_ℤ a.region b.region
        && (eq_ℤ a.section b.section
            && (eq_ℤ a.group b.group && (eq_ℤ a.chunk b.chunk && eq_ℤ a.block b.block))))

abbrev pub lex : ℤ → ℤ → Bool → Bool
lex a b rest = if eq_ℤ a b then rest else ltb_ℤ a b

-- `<` of two axes, from the sector down.
abbrev pub before_axis : AxisAddress → AxisAddress → Bool
before_axis a b = lex a.sector b.sector (
    lex a.region b.region (
      lex a.section b.section
        (lex a.group b.group (lex a.chunk b.chunk (lex a.block b.block false)))))

-- What one round of the loop decides: it ends with or without a result, or goes on.
pub data Probe : Type 0 where
  found : ℤ → Probe
  over : Probe
  between : ℤ → ℤ → Probe

unfoldable pub middle : ℤ → ℤ → ℤ
unfolding quot
middle lo hi = lo +ℤ quot (hi -ℤ lo) 2

abbrev pub above : ℤ → ℤ → Probe
above mid hi = between (mid +ℤ pos 1) hi

abbrev pub below : ℤ → ℤ → Probe
below lo mid = between lo (mid -ℤ pos 1)

abbrev pub judge : AxisAddress → ℤ → ℤ → ℤ → Option AxisAddress → Probe
judge position lo hi mid none = if ltb_ℤ mid (pos 0) then above mid hi else below lo mid
judge position lo hi mid (some candidate) =
    if same_axis candidate position
    then found mid
    else if before_axis candidate position
    then above mid hi
    else below lo mid

abbrev pub go_on : (ℤ → ℤ → Option ℤ) → Probe → Option ℤ
go_on rest (found mid) = some mid
go_on rest over = none
go_on rest (between lo hi) = rest lo hi

module _ (offset : AxisAddress → ℤ → Option AxisAddress) (position origin : AxisAddress) where
  unfoldable pub probe : ℤ → ℤ → Probe
  unfolding middle
  probe lo hi =
      if leb_ℤ lo hi
      then judge position lo hi (middle lo hi) (offset origin (middle lo hi))
      else over

  unfoldable pub search : ℕ → ℤ → ℤ → Option ℤ
  unfolding probe
  search zero lo hi = none
  search (suc fuel) lo hi = go_on (search fuel) (probe lo hi)

  -- The range has fewer than 2^64 places, and each round halves it.
  unfoldable pub bounded_axis_delta : ℤ → Option ℤ
  unfolding search
  bounded_axis_delta max_abs =
      if ltb_ℤ max_abs (pos 0)
      then none
      else if same_axis position origin
      then some (pos 0)
      else search 64 (pos 0 -ℤ max_abs) max_abs

abbrev pub if_within : ℤ → ℤ → Option ℤ
if_within max_abs delta =
    if leb_ℤ (pos 0 -ℤ max_abs) delta && leb_ℤ delta max_abs then some delta else none

abbrev pub same_section : AxisAddress → AxisAddress → Bool
same_section position origin =
    eq_ℤ position.sector origin.sector
    && (eq_ℤ position.region origin.region && eq_ℤ position.section origin.section)

abbrev pub same_group : AxisAddress → AxisAddress → Bool
same_group position origin = same_section position origin && eq_ℤ position.group origin.group

unfoldable pub block_axis_delta_within : AxisAddress → AxisAddress → ℤ → Option ℤ
unfolding bounded_axis_delta
block_axis_delta_within position origin max_abs =
    if same_group position origin
    then if_within max_abs (
        (position.chunk -ℤ origin.chunk) *ℤ blocks_per_chunk_edge
        +ℤ (position.block -ℤ origin.block))
    else bounded_axis_delta try_offset_axis position origin max_abs

unfoldable pub chunk_axis_delta_within : AxisAddress → AxisAddress → ℤ → Option ℤ
unfolding bounded_axis_delta
chunk_axis_delta_within position origin max_abs =
    if same_group position origin
    then if_within max_abs (position.chunk -ℤ origin.chunk)
    else bounded_axis_delta try_offset_chunk_axis position origin max_abs

unfoldable pub group_axis_delta_within : AxisAddress → AxisAddress → ℤ → Option ℤ
unfolding bounded_axis_delta
group_axis_delta_within position origin max_abs =
    if same_section position origin
    then if_within max_abs (position.group -ℤ origin.group)
    else bounded_axis_delta try_offset_group_axis position origin max_abs

-- One difference per axis, the first that fails ending it. A `Coord` stands for `RelativeI64`.
abbrev pub by_axes :
    (AxisAddress → AxisAddress → ℤ → Option ℤ) → BlockAddress → BlockAddress → ℤ → Option Coord
by_axes within p o max_abs = and_then_some (within (block_axis_x p) (block_axis_x o) max_abs) λ x.
    and_then_some (within (block_axis_y p) (block_axis_y o) max_abs) λ y.
      and_then_some (within (block_axis_z p) (block_axis_z o) max_abs)
        λ z. some (record { x = x; y = y; z = z })

unfoldable pub block_delta_within : BlockAddress → BlockAddress → ℤ → Option Coord
unfolding block_axis_delta_within
block_delta_within position origin max_abs = by_axes block_axis_delta_within position origin max_abs

unfoldable pub chunk_delta_within : ChunkAddress → ChunkAddress → ℤ → Option Coord
unfolding chunk_axis_delta_within
chunk_delta_within position origin max_abs =
    by_axes chunk_axis_delta_within (chunk_origin position) (chunk_origin origin) max_abs

abbrev pub group_origin : GroupAddress → BlockAddress
group_origin a = chunk_origin (record { group = a; chunk = zero_coord })

unfoldable pub group_delta_within : GroupAddress → GroupAddress → ℤ → Option Coord
unfolding group_axis_delta_within
group_delta_within position origin max_abs =
    by_axes group_axis_delta_within (group_origin position) (group_origin origin) max_abs

abbrev pub is_found : Option Coord → Bool
is_found none = false
is_found (some _) = true

unfoldable pub chunk_within_chebyshev : ChunkAddress → ChunkAddress → ℤ → Bool
unfolding chunk_delta_within
chunk_within_chebyshev a b radius = leb_ℤ (pos 0) radius && is_found (chunk_delta_within a b radius)
