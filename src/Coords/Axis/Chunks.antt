-- ===== src/Coords/Axis/Chunks.antt =====
-- Offsets along an axis that are counted in chunks.
use clone_craft.Base.{some_injective, ◌≡◌, refl, subst, some, arith}
use clone_craft.Base.Int.{ℤ, pos, ◌+ℤ◌, ◌*ℤ◌}
use clone_craft.Coords.{
  chunks_per_group_edge, groups_per_section_edge, sections_per_region_edge, regions_per_sector_edge,
}
use clone_craft.Coords.Axis.{AxisAddress, try_offset_chunk_axis}
use clone_craft.Coords.Axis.Value.{
  try_add_i64-eq-some, carried, propagate_digit-Split, and_then_some-eq-some, horner,
  IsCanonicalAxis,
}

-- The position in chunks, from the origin of sector 0.
abbrev pub chunk_value : AxisAddress → ℤ
chunk_value a =
    (((a.sector *ℤ regions_per_sector_edge +ℤ a.region) *ℤ sections_per_region_edge +ℤ a.section)
          *ℤ groups_per_section_edge
        +ℤ a.group)
      *ℤ chunks_per_group_edge
    +ℤ a.chunk

-- From a canonical place, an offset by chunks that is found leads to the first block of a chunk, in
-- canonical digits, and that chunk is exactly so many chunks away.
pub try_offset_chunk_axis-chunk_value :
    (base out : AxisAddress) (delta : ℤ)
    → IsCanonicalAxis base
    → try_offset_chunk_axis base delta ≡ some out
    → IsCanonicalAxis out × (out.block ≡ pos 0) × (chunk_value out ≡ chunk_value base +ℤ delta)
unfolding try_offset_chunk_axis
try_offset_chunk_axis-chunk_value base out delta can h =
    let (c₁, chunks, h₁) = and_then_some-eq-some _ _ out h in
    let ((group, c₂), groups, h₂) = and_then_some-eq-some _ _ out h₁ in
    let ((section, c₃), sections, h₃) = and_then_some-eq-some _ _ out h₂ in
    let ((region, c₄), regions, h₄) = and_then_some-eq-some _ _ out h₃ in
    let (sector, top, made) = and_then_some-eq-some _ _ out h₄ in
    let (chunk_in, s₀) =
      carried base.chunk delta chunks_per_group_edge c₁ (omega arith) can.chunk chunks in
    let (group_in, s₁) =
      propagate_digit-Split base.group _ c₁ group c₂ (omega arith) can.group groups in
    let (section_in, s₂) =
      propagate_digit-Split base.section _ c₂ section c₃ (omega arith) can.section sections in
    let (region_in, s₃) =
      propagate_digit-Split base.region _ c₃ region c₄ (omega arith) can.region regions in
    let v₄ = try_add_i64-eq-some base.sector c₄ sector top in
    let v₃ = horner _ _ c₃ c₄ base.region region regions_per_sector_edge v₄ s₃ in
    let v₂ = horner _ _ c₂ c₃ base.section section sections_per_region_edge v₃ s₂ in
    let v₁ = horner _ _ c₁ c₂ base.group group groups_per_section_edge v₂ s₁ in
    let v₀ = horner _ _ delta c₁ base.chunk _ chunks_per_group_edge v₁ s₀ in
    subst
      (λ (a : AxisAddress).
        IsCanonicalAxis a × (a.block ≡ pos 0) × (chunk_value a ≡ chunk_value base +ℤ delta))
      (some_injective made)
      (
        record {
          region = region_in;
          section = section_in;
          group = group_in;
          chunk = chunk_in;
          block = (omega arith, omega arith);
        },
        refl,
        v₀,
      )
