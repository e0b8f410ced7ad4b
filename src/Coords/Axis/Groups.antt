-- ===== src/Coords/Axis/Groups.antt =====
-- Offsets along an axis that are counted in groups.
use clone_craft.Base.{some_injective, ◌≡◌, refl, subst, some, arith}
use clone_craft.Base.Int.{ℤ, pos, ◌+ℤ◌, ◌*ℤ◌}
use clone_craft.Coords.{groups_per_section_edge, sections_per_region_edge, regions_per_sector_edge}
use clone_craft.Coords.Axis.{AxisAddress, try_offset_group_axis}
use clone_craft.Coords.Axis.Value.{
  try_add_i64-eq-some, carried, propagate_digit-Split, and_then_some-eq-some, horner,
  IsCanonicalAxis,
}

-- The position in groups, from the origin of sector 0.
abbrev pub group_value : AxisAddress → ℤ
group_value a =
    ((a.sector *ℤ regions_per_sector_edge +ℤ a.region) *ℤ sections_per_region_edge +ℤ a.section)
      *ℤ groups_per_section_edge
    +ℤ a.group

-- From a canonical place, an offset by groups that is found leads to the first block of a group, in
-- canonical digits, and that group is exactly so many groups away.
pub try_offset_group_axis-group_value :
    (base out : AxisAddress) (delta : ℤ)
    → IsCanonicalAxis base
    → try_offset_group_axis base delta ≡ some out
    → IsCanonicalAxis out
      × (out.chunk ≡ pos 0)
      × (out.block ≡ pos 0)
      × (group_value out ≡ group_value base +ℤ delta)
unfolding try_offset_group_axis
try_offset_group_axis-group_value base out delta can h =
    let (c₁, groups, h₁) = and_then_some-eq-some _ _ out h in
    let ((section, c₂), sections, h₂) = and_then_some-eq-some _ _ out h₁ in
    let ((region, c₃), regions, h₃) = and_then_some-eq-some _ _ out h₂ in
    let (sector, top, made) = and_then_some-eq-some _ _ out h₃ in
    let (group_in, s₀) =
      carried base.group delta groups_per_section_edge c₁ (omega arith) can.group groups in
    let (section_in, s₁) =
      propagate_digit-Split base.section _ c₁ section c₂ (omega arith) can.section sections in
    let (region_in, s₂) =
      propagate_digit-Split base.region _ c₂ region c₃ (omega arith) can.region regions in
    let v₃ = try_add_i64-eq-some base.sector c₃ sector top in
    let v₂ = horner _ _ c₂ c₃ base.region region regions_per_sector_edge v₃ s₂ in
    let v₁ = horner _ _ c₁ c₂ base.section section sections_per_region_edge v₂ s₁ in
    let v₀ = horner _ _ delta c₁ base.group _ groups_per_section_edge v₁ s₀ in
    subst
      (λ (a : AxisAddress).
        IsCanonicalAxis a
        × (a.chunk ≡ pos 0)
        × (a.block ≡ pos 0)
        × (group_value a ≡ group_value base +ℤ delta))
      (some_injective made)
      (
        record {
          region = region_in;
          section = section_in;
          group = group_in;
          chunk = (omega arith, omega arith);
          block = (omega arith, omega arith);
        },
        refl,
        refl,
        v₀,
      )
