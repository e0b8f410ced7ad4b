-- ===== src/Coords/Delta/Complete.antt =====
-- Every difference within the bound is found.
use clone_craft.Base.{
  ℕ, zero, suc, ◌≡◌, refl, sym, ap, ◌∙◌, subst, inl, inr, true, false, Option, none, some, arith,
  if◌then◌else◌, and_join, Bool, Bool-cases,
}
use clone_craft.Base.Int.{ℤ, pos, ◌+ℤ◌, ◌-ℤ◌, ◌≤ℤ◌, ◌<ℤ◌, leb_ℤ, +ℤ_parts, -ℤ_parts}
use clone_craft.Coords.{
  blocks_per_chunk_edge, chunks_per_group_edge, groups_per_section_edge, sections_per_region_edge,
  regions_per_sector_edge,
}
use clone_craft.Coords.Axis.{AxisAddress, int64_min, int64_max, try_offset_axis}
use clone_craft.Coords.Axis.Value.{low, high, digit-Split, horner, value, IsCanonicalAxis}
use clone_craft.Coords.Axis.Complete.{IsInt64, try_offset_axis_complete}
use clone_craft.Coords.Delta.{
  eq_ℤ, same_axis, before_axis, middle, above, below, found, judge, go_on, probe, search,
}
use clone_craft.Coords.Delta.Search.{
  Half, middle-Half, Fewer, above-Fewer, below-Fewer, same_axis→≡,
}
use clone_craft.Coords.Delta.Order.{value-sector}

-- Every offset from a canonical place leads somewhere, if its sector need not fit 64 bits.
somewhere :
    (base : AxisAddress) (delta : ℤ)
    → IsCanonicalAxis base
    → (out : AxisAddress) × IsCanonicalAxis out × (value out ≡ value base +ℤ delta)
somewhere base delta can =
    let c₁ = high base.block blocks_per_chunk_edge delta in
    let c₂ = high base.chunk chunks_per_group_edge c₁ in
    let c₃ = high base.group groups_per_section_edge c₂ in
    let c₄ = high base.section sections_per_region_edge c₃ in
    let c₅ = high base.region regions_per_sector_edge c₄ in
    let (block, s₀) = digit-Split base.block delta blocks_per_chunk_edge (omega arith) can.block in
    let (chunk, s₁) = digit-Split base.chunk c₁ chunks_per_group_edge (omega arith) can.chunk in
    let (group, s₂) = digit-Split base.group c₂ groups_per_section_edge (omega arith) can.group in
    let (section, s₃) =
      digit-Split base.section c₃ sections_per_region_edge (omega arith) can.section in
    let (region, s₄) =
      digit-Split base.region c₄ regions_per_sector_edge (omega arith) can.region in
    let v₄ = horner base.sector _ c₄ c₅ base.region _ regions_per_sector_edge refl s₄ in
    let v₃ = horner _ _ c₃ c₄ base.section _ sections_per_region_edge v₄ s₃ in
    let v₂ = horner _ _ c₂ c₃ base.group _ groups_per_section_edge v₃ s₂ in
    let v₁ = horner _ _ c₁ c₂ base.chunk _ chunks_per_group_edge v₂ s₁ in
    let v₀ = horner _ _ delta c₁ base.block _ blocks_per_chunk_edge v₁ s₀ in
    (
      record {
        sector = base.sector +ℤ c₅;
        region = low base.region regions_per_sector_edge c₄;
        section = low base.section sections_per_region_edge c₃;
        group = low base.group groups_per_section_edge c₂;
        chunk = low base.chunk chunks_per_group_edge c₁;
        block = low base.block blocks_per_chunk_edge delta;
      },
      record { region = region; section = section; group = group; chunk = chunk; block = block },
      v₀,
    )

-- Between two places whose sectors fit, an offset is found.
pub found_between :
    (lower upper base : AxisAddress) (delta : ℤ)
    → IsCanonicalAxis lower
    → IsCanonicalAxis upper
    → IsCanonicalAxis base
    → int64_min ≤ℤ lower.sector
    → upper.sector ≤ℤ int64_max
    → IsInt64 delta
    → value lower ≤ℤ value base +ℤ delta
    → value base +ℤ delta ≤ℤ value upper
    → (out : AxisAddress) × (try_offset_axis base delta ≡ some out)
found_between lower upper base delta can_lower can_upper can low_fits high_fits fits from to =
    let (out, place, e) = somewhere base delta can in
    let up = value-sector lower out can_lower place (subst (λ x. value lower ≤ℤ x) (sym e) from) in
    let down = value-sector out upper place can_upper (subst (λ x. x ≤ℤ value upper) (sym e) to) in
    (
      out,
      try_offset_axis_complete base out delta can place fits
          (omega (arith, low_fits, up), omega (arith, high_fits, down)) e,
    )

pub chosen : {A : Type 0} {b : Bool} (x y : A) → b ≡ true → (if b then x else y) ≡ x
chosen x y h = ap (λ c. if c then x else y) h

pub passed_over : {A : Type 0} {b : Bool} (x y : A) → b ≡ false → (if b then x else y) ≡ y
passed_over x y h = ap (λ c. if c then x else y) h

eq_ℤ_refl : (a : ℤ) → eq_ℤ a a ≡ true
eq_ℤ_refl a = ground arith

pub same_axis_refl : (a : AxisAddress) → same_axis a a ≡ true
same_axis_refl a = and_join _ _ (eq_ℤ_refl a.sector) (
    and_join _ _ (eq_ℤ_refl a.region) (
      and_join _ _ (eq_ℤ_refl a.section)
        (and_join _ _ (eq_ℤ_refl a.group) (and_join _ _ (eq_ℤ_refl a.chunk) (eq_ℤ_refl a.block)))))

judge_same :
    (position : AxisAddress) (lo hi mid : ℤ) → judge position lo hi mid (some position) ≡ found mid
judge_same position lo hi mid = chosen (found mid) _ (same_axis_refl position)

pub judge-above :
    (position : AxisAddress) (lo hi mid : ℤ)
    → mid <ℤ pos 0
    → judge position lo hi mid none ≡ above mid hi
judge-above position lo hi mid h = ground (arith, h)

pub judge-below :
    (position : AxisAddress) (lo hi mid : ℤ)
    → pos 0 ≤ℤ mid
    → judge position lo hi mid none ≡ below lo mid
judge-below position lo hi mid h = ground (arith, h)

pub judge_before :
    (position c : AxisAddress) (lo hi mid : ℤ)
    → same_axis c position ≡ false
    → before_axis c position ≡ true
    → judge position lo hi mid (some c) ≡ above mid hi
judge_before position c lo hi mid h k = passed_over _ _ h ∙ chosen _ _ k

pub judge_after :
    (position c : AxisAddress) (lo hi mid : ℤ)
    → same_axis c position ≡ false
    → before_axis c position ≡ false
    → judge position lo hi mid (some c) ≡ below lo mid
judge_after position c lo hi mid h k = passed_over _ _ h ∙ passed_over _ _ k

pub apart : (a b : AxisAddress) → (value a ≡ value b → ⊥) → same_axis a b ≡ false
apart a b h = elim (Bool-cases (same_axis a b)) [
  | inl same ↦ absurd (h (ap value (same_axis→≡ a b same)))
  | inr differ ↦ differ
]

-- What the loop learns of each place it tries.
pub data Told (offset : AxisAddress → ℤ → Option AxisAddress) (position origin : AxisAddress)
    (d m : ℤ) : Type 0 where
  here : m ≡ d → offset origin m ≡ some position → Told offset position origin d m
  too_low :
      m <ℤ d
      → ((lo hi : ℤ) → judge position lo hi m (offset origin m) ≡ above m hi)
      → Told offset position origin d m
  too_high :
      d <ℤ m
      → ((lo hi : ℤ) → judge position lo hi m (offset origin m) ≡ below lo m)
      → Told offset position origin d m

module _ (offset : AxisAddress → ℤ → Option AxisAddress) (position origin : AxisAddress) (d : ℤ)
    (told : (m : ℤ) → IsInt64 m → Told offset position origin d m) where
  step :
      (n : ℕ) (lo hi m : ℤ)
      → Half lo hi m
      → Fewer (suc n) lo hi
      → (lo ≤ℤ d) × (d ≤ℤ hi)
      → IsInt64 lo × IsInt64 hi
      → ((lo' hi' : ℤ)
          → Fewer n lo' hi'
          → (lo' ≤ℤ d) × (d ≤ℤ hi')
          → IsInt64 lo' × IsInt64 hi'
          → search offset position origin n lo' hi' ≡ some d)
      → Told offset position origin d m
      → go_on (search offset position origin n) (judge position lo hi m (offset origin m)) ≡ some d
  step n lo hi m h few (from, to) (low_fits, high_fits) rest (here e there) =
      ap (λ o. go_on (search offset position origin n) (judge position lo hi m o)) there
      ∙ ap (go_on (search offset position origin n)) (judge_same position lo hi m)
      ∙ ap some e
  step n lo hi m h few (from, to) (low_fits, high_fits) rest (too_low less judged) =
      let next = +ℤ_parts m (pos 1) in
      ap (go_on (search offset position origin n)) (judged lo hi)
      ∙ rest (m +ℤ pos 1) hi (above-Fewer n lo hi m h few) (omega (arith, less, next), to)
          (
            (omega (arith, low_fits, next, h.least), omega (arith, high_fits, next, less, to)),
            high_fits,
          )
  step n lo hi m h few (from, to) (low_fits, high_fits) rest (too_high more judged) =
      let last = -ℤ_parts m (pos 1) in
      ap (go_on (search offset position origin n)) (judged lo hi)
      ∙ rest lo (m -ℤ pos 1) (below-Fewer n lo hi m h few) (from, omega (arith, more, last))
          (
            low_fits,
            (omega (arith, low_fits, last, more, from), omega (arith, high_fits, last, h.most)),
          )

  -- A difference in the range is found in as many rounds as it takes to halve the range.
  pub search-finds :
      (n : ℕ) (lo hi : ℤ)
      → Fewer n lo hi
      → (lo ≤ℤ d) × (d ≤ℤ hi)
      → IsInt64 lo × IsInt64 hi
      → search offset position origin n lo hi ≡ some d
  unfolding search probe
  search-finds zero lo hi few (from, to) fits = absurd (omega (arith, few, from, to))
  search-finds (suc n) lo hi few (from, to) (low_fits, high_fits) =
      let m = middle lo hi in
      let h = middle-Half lo hi (omega (arith, from, to)) in
      ap (go_on (search offset position origin n)) (
        chosen {b = leb_ℤ lo hi} (judge position lo hi m (offset origin m)) _
          (ground (arith, from, to)))
      ∙ step n lo hi m h few (from, to) (low_fits, high_fits)
          (λ lo' hi' few' within fits. search-finds n lo' hi' few' within fits)
          (told m (omega (arith, low_fits, h.least), omega (arith, high_fits, h.most)))
