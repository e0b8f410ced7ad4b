-- ===== src/Coords/Delta/Exact.antt =====
-- What a difference within a bound is, in positions.
use clone_craft.Base.{
  ◌≡◌, sym, ap, ◌∙◌, subst, true, some_injective, Option, none, some, arith, and_split, if_both,
  ◌⊎◌, inl, inr, ◌&&◌,
}
use clone_craft.Base.Int.{
  ℤ, pos, pos_part, neg_part, ◌+ℤ◌, ◌-ℤ◌, ◌*ℤ◌, ◌≤ℤ◌, leb_ℤ, ltb_ℤ, +ℤ_parts, -ℤ_parts, *ℤ_parts,
  eq_of_parts,
}
use clone_craft.Coords.{groups_per_section_edge, sections_per_region_edge, regions_per_sector_edge}
use clone_craft.Coords.Axis.{AxisAddress, try_offset_axis}
use clone_craft.Coords.Axis.Value.{IsCanonicalAxis, value, try_offset_axis-value}
use clone_craft.Coords.Delta.{
  same_axis, same_group, if_within, bounded_axis_delta, block_axis_delta_within,
}
use clone_craft.Coords.Delta.Search.{eq_ℤ→≡, same_axis→≡, search-Sound}

abbrev pub Within : ℤ → ℤ → Type 0
Within max_abs d = (pos 0 -ℤ max_abs ≤ℤ d) × (d ≤ℤ max_abs)

tests-Within :
    (max_abs delta : ℤ)
    → (leb_ℤ (pos 0 -ℤ max_abs) delta && leb_ℤ delta max_abs) ≡ true
    → Within max_abs delta
tests-Within max_abs delta h =
    let (low, high) = and_split (leb_ℤ (pos 0 -ℤ max_abs) delta) (leb_ℤ delta max_abs) h in
    (ground (arith, low), ground (arith, high))

if_within-Within :
    (max_abs delta d : ℤ) → if_within max_abs delta ≡ some d → (delta ≡ d) × Within max_abs d
if_within-Within max_abs delta d =
    if_both (λ o. o ≡ some d → (delta ≡ d) × Within max_abs d)
      (leb_ℤ (pos 0 -ℤ max_abs) delta && leb_ℤ delta max_abs) (some delta) none
      (λ within h.
        let e = some_injective h in
        (e, subst (Within max_abs) e (tests-Within max_abs delta within)))
      (λ _ h. absurd (ground (arith, h)))

around_zero : (max_abs : ℤ) → pos 0 ≤ℤ max_abs → Within max_abs (pos 0)
around_zero max_abs h = (omega (arith, h, -ℤ_parts (pos 0) max_abs), h)

-- A bounded difference is no difference, or one that the offset confirms.
pub bounded_axis_delta-Within :
    (offset : AxisAddress → ℤ → Option AxisAddress)
    → (position origin : AxisAddress) (max_abs d : ℤ)
    → bounded_axis_delta offset position origin max_abs ≡ some d
    → ((position ≡ origin) × (d ≡ pos 0) ⊎ (offset origin d ≡ some position)) × Within max_abs d
unfolding bounded_axis_delta
bounded_axis_delta-Within offset position origin max_abs d =
    let Found = (λ (o : Option ℤ).
      o ≡ some d
      → ((position ≡ origin) × (d ≡ pos 0) ⊎ (offset origin d ≡ some position))
        × Within max_abs d) in
    if_both Found (ltb_ℤ max_abs (pos 0)) none _ (λ _ h. absurd (ground (arith, h)))
      (λ bound.
        if_both Found (same_axis position origin) (some (pos 0)) _
          (λ same h.
            let e = sym (some_injective h) in
            (
              inl (same_axis→≡ position origin same, e),
              subst (Within max_abs) (sym e) (around_zero max_abs (ground (arith, bound))),
            ))
          (λ _ h.
            let (low, high, there) = search-Sound offset position origin 64 _ _ d h in
            (inr there, (low, high))))

-- Two places of one group differ by their two last digits.
same_top :
    (t t' c b c' b' : ℤ)
    → t ≡ t'
    → (t *ℤ 16 +ℤ c) *ℤ 16 +ℤ b ≡ (t' *ℤ 16 +ℤ c') *ℤ 16 +ℤ b' +ℤ ((c -ℤ c') *ℤ 16 +ℤ (b -ℤ b'))
same_top t t' c b c' b' e =
    let upper = t *ℤ 16 +ℤ c in
    let upper' = t' *ℤ 16 +ℤ c' in
    let chunks = (c -ℤ c') *ℤ 16 in
    let blocks = b -ℤ b' in
    eq_of_parts _ _ (
      omega (
        arith,
        ap pos_part e,
        ap neg_part e,
        *ℤ_parts t 16,
        *ℤ_parts t' 16,
        +ℤ_parts (t *ℤ 16) c,
        +ℤ_parts (t' *ℤ 16) c',
        *ℤ_parts upper 16,
        *ℤ_parts upper' 16,
        +ℤ_parts (upper *ℤ 16) b,
        +ℤ_parts (upper' *ℤ 16) b',
        -ℤ_parts c c',
        *ℤ_parts (c -ℤ c') 16,
        -ℤ_parts b b',
        +ℤ_parts chunks blocks,
        +ℤ_parts (upper' *ℤ 16 +ℤ b') (chunks +ℤ blocks),
      ))

abbrev group_top : AxisAddress → ℤ
group_top a =
    ((a.sector *ℤ regions_per_sector_edge +ℤ a.region) *ℤ sections_per_region_edge +ℤ a.section)
      *ℤ groups_per_section_edge
    +ℤ a.group

same_group-group_top : (a b : AxisAddress) → same_group a b ≡ true → group_top a ≡ group_top b
same_group-group_top a b h =
    let (section, group) = and_split _ _ h in
    let (sector, rest) = and_split _ _ section in
    let (region, low) = and_split _ _ rest in
    λ i.
      ((eq_ℤ→≡ a.sector b.sector sector i *ℤ regions_per_sector_edge
              +ℤ eq_ℤ→≡ a.region b.region region i)
            *ℤ sections_per_region_edge
          +ℤ eq_ℤ→≡ a.section b.section low i)
        *ℤ groups_per_section_edge
      +ℤ eq_ℤ→≡ a.group b.group group i

pub zero_right : (a : ℤ) → a ≡ a +ℤ pos 0
zero_right a = eq_of_parts _ _ (omega (arith, +ℤ_parts a (pos 0)))

-- The position in a group, from the digits.
pub same_group-value :
    (a b : AxisAddress)
    → same_group a b ≡ true
    → value a ≡ value b +ℤ ((a.chunk -ℤ b.chunk) *ℤ 16 +ℤ (a.block -ℤ b.block))
same_group-value a b same =
    same_top _ _ a.chunk a.block b.chunk b.block (same_group-group_top a b same)

-- A difference of blocks along an axis that is found is within the bound, and the position is exactly
-- that far from the origin, whichever way it was found: from the digits of one group or by the
-- search. The origin is canonical.
pub block_axis_delta_within-exact :
    (position origin : AxisAddress) (max_abs d : ℤ)
    → IsCanonicalAxis origin
    → block_axis_delta_within position origin max_abs ≡ some d
    → (value position ≡ value origin +ℤ d) × Within max_abs d
unfolding block_axis_delta_within
block_axis_delta_within-exact position origin max_abs d can =
    let Exactly =
      (λ (o : Option ℤ). o ≡ some d → (value position ≡ value origin +ℤ d) × Within max_abs d) in
    if_both Exactly (same_group position origin) _ _
      (λ same h.
        let (e, within) = if_within-Within max_abs _ d h in
        (same_group-value position origin same ∙ ap (λ (x : ℤ). value origin +ℤ x) e, within))
      (λ _ h.
        let (how, within) = bounded_axis_delta-Within try_offset_axis position origin max_abs d h in
        (
          elim how [
            | inl (here, none_at_all) ↦
                ap value here
                ∙ zero_right (value origin)
                ∙ ap (λ (x : ℤ). value origin +ℤ x) (sym none_at_all)
            | inr there ↦ (try_offset_axis-value origin position d can there).1
          ],
          within,
        ))
