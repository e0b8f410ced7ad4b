-- ===== src/Coords/Axis.antt =====
-- world/coordinates/CoordMath.h, Coords.part01.hpp, Coords.part02.hpp: one axis of an address as
-- digits of a mixed radix, and the offsets along it. A sum of two int64 is checked; the sums that
-- the program makes in 128 bits are exact here, and they fit.
pub mod Floor
pub mod Value
pub mod Complete
pub mod Chunks
pub mod Groups
use clone_craft.Base.{ℕ, suc, ◌+◌, ◌-◌, ◌/◌, ◌%◌, ◌&&◌, ◌||◌, Option, none, some, if◌then◌else◌}
use clone_craft.Base.Int.{ℤ, pos, negsuc, neg, ◌+ℤ◌, ◌-ℤ◌, ltb_ℤ}
use clone_craft.Coords.{
  blocks_per_chunk_edge, chunks_per_group_edge, groups_per_section_edge, sections_per_region_edge,
  regions_per_sector_edge,
}

-- `/` and `%` of C++ by a positive divisor round towards zero.
unfoldable pub quot : ℤ → ℕ → ℤ
quot (pos n) r = pos (n / r)
quot (negsuc n) r = neg (suc n / r)

unfoldable pub rem : ℤ → ℕ → ℤ
rem (pos n) r = pos (n % r)
rem (negsuc n) r = neg (suc n % r)

unfoldable pub floor_div : ℤ → ℕ → ℤ
unfolding quot rem
floor_div a b = if ltb_ℤ (rem a b) (pos 0) then quot a b -ℤ pos 1 else quot a b

unfoldable pub floor_mod : ℤ → ℕ → ℤ
unfolding rem
floor_mod a b = if ltb_ℤ (rem a b) (pos 0) then rem a b +ℤ pos b else rem a b

abbrev pub int64_max : ℤ
int64_max = pos 9_223_372_036_854_775_807

abbrev pub int64_min : ℤ
int64_min = negsuc 9_223_372_036_854_775_807

-- `tryAddI64`
unfoldable pub try_add_i64 : ℤ → ℤ → Option ℤ
try_add_i64 a b =
    if (ltb_ℤ (pos 0) b && ltb_ℤ (int64_max -ℤ b) a)
      || (ltb_ℤ b (pos 0) && ltb_ℤ a (int64_min -ℤ b))
    then none
    else some (a +ℤ b)

-- `detail::AxisAddress`
pub record AxisAddress : Type 0 where
  pub sector : ℤ
  pub region : ℤ
  pub section : ℤ
  pub group : ℤ
  pub chunk : ℤ
  pub block : ℤ

-- `if( !… ) return false;` and what follows.
abbrev pub and_then_some : {A B : Type 0} → Option A → (A → Option B) → Option B
and_then_some none f = none
and_then_some (some a) f = f a

-- `propagateDigit`: the new digit and the new carry.
unfoldable pub propagate_digit : ℤ → ℕ → ℤ → Option (ℤ × ℤ)
unfolding floor_div floor_mod quot rem try_add_i64
propagate_digit digit radix carry =
    let quotient = floor_div carry radix in
    let remainder = floor_mod carry radix in
    let sum = digit +ℤ remainder in
    and_then_some (try_add_i64 quotient (quot sum radix)) λ carry'. some (rem sum radix, carry')

-- `tryOffsetAxis`, by blocks.
unfoldable pub try_offset_axis : AxisAddress → ℤ → Option AxisAddress
unfolding propagate_digit
try_offset_axis base delta =
    let carry₀ = floor_div delta blocks_per_chunk_edge in
    let remainder = floor_mod delta blocks_per_chunk_edge in
    let block_sum = base.block +ℤ remainder in
    and_then_some (try_add_i64 carry₀ (quot block_sum blocks_per_chunk_edge)) λ carry₁.
      and_then_some (propagate_digit base.chunk chunks_per_group_edge carry₁) λ (chunk, carry₂).
        and_then_some (propagate_digit base.group groups_per_section_edge carry₂) λ (group, carry₃).
          and_then_some (propagate_digit base.section sections_per_region_edge carry₃)
            λ (section, carry₄).
              and_then_some (propagate_digit base.region regions_per_sector_edge carry₄)
                λ (region, carry₅). and_then_some (try_add_i64 base.sector carry₅) λ sector.
                  some (record {
                    sector = sector;
                    region = region;
                    section = section;
                    group = group;
                    chunk = chunk;
                    block = rem block_sum blocks_per_chunk_edge;
                  })

-- `tryOffsetChunkAxis`, by chunks.
unfoldable pub try_offset_chunk_axis : AxisAddress → ℤ → Option AxisAddress
unfolding propagate_digit
try_offset_chunk_axis base delta =
    let carry₀ = floor_div delta chunks_per_group_edge in
    let remainder = floor_mod delta chunks_per_group_edge in
    let chunk_sum = base.chunk +ℤ remainder in
    and_then_some (try_add_i64 carry₀ (quot chunk_sum chunks_per_group_edge)) λ carry₁.
      and_then_some (propagate_digit base.group groups_per_section_edge carry₁) λ (group, carry₂).
        and_then_some (propagate_digit base.section sections_per_region_edge carry₂)
          λ (section, carry₃).
            and_then_some (propagate_digit base.region regions_per_sector_edge carry₃)
              λ (region, carry₄). and_then_some (try_add_i64 base.sector carry₄) λ sector.
                some (record {
                  sector = sector;
                  region = region;
                  section = section;
                  group = group;
                  chunk = rem chunk_sum chunks_per_group_edge;
                  block = pos 0;
                })

-- `tryOffsetGroupAxis`, by groups.
unfoldable pub try_offset_group_axis : AxisAddress → ℤ → Option AxisAddress
unfolding propagate_digit
try_offset_group_axis base delta =
    let carry₀ = floor_div delta groups_per_section_edge in
    let remainder = floor_mod delta groups_per_section_edge in
    let group_sum = base.group +ℤ remainder in
    and_then_some (try_add_i64 carry₀ (quot group_sum groups_per_section_edge)) λ carry₁.
      and_then_some (propagate_digit base.section sections_per_region_edge carry₁)
        λ (section, carry₂).
          and_then_some (propagate_digit base.region regions_per_sector_edge carry₂)
            λ (region, carry₃). and_then_some (try_add_i64 base.sector carry₃) λ sector.
              some (record {
                sector = sector;
                region = region;
                section = section;
                group = rem group_sum groups_per_section_edge;
                chunk = pos 0;
                block = pos 0;
              })
