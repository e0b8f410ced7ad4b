-- ===== src/Coords/Delta/Blocks.antt =====
-- Differences counted in blocks: what is found and when.
use clone_craft.Base.{
  ◌≡◌, refl, sym, ap, ◌∙◌, subst, inl, inr, ◌↔◌, Option, none, some, arith, if_both, Bool-cases,
  and_join, ◌&&◌,
}
use clone_craft.Base.Int.{
  ℤ, pos, pos_part, neg_part, ◌+ℤ◌, ◌-ℤ◌, ◌≤ℤ◌, ◌<ℤ◌, leb_ℤ, ltb_ℤ, +ℤ_parts, -ℤ_parts,
}
use clone_craft.Coords.Axis.{AxisAddress, try_offset_axis}
use clone_craft.Coords.Axis.Value.{value, IsCanonicalAxis, try_offset_axis-value}
use clone_craft.Coords.Axis.Complete.{IsInt64, order, cancel, try_offset_axis_complete}
use clone_craft.Coords.Delta.{
  same_axis, same_group, if_within, above, below, judge, bounded_axis_delta,
  block_axis_delta_within,
}
use clone_craft.Coords.Delta.Complete.{
  Told, here, too_low, too_high, found_between, apart, judge-above, judge-below, judge_before,
  judge_after, chosen, search-finds,
}
use clone_craft.Coords.Delta.Exact.{
  Within, zero_right, same_group-value, block_axis_delta_within-exact,
}
use clone_craft.Coords.Delta.Order.{value-before_axis, before_axis-flip}
use clone_craft.Coords.Delta.Search.{same_axis→≡}

plus_less : (a x y : ℤ) → x <ℤ y → a +ℤ x <ℤ a +ℤ y
plus_less a x y h = omega (arith, h, +ℤ_parts a x, +ℤ_parts a y)

plus_most : (a x y : ℤ) → x <ℤ y → a +ℤ x ≤ℤ a +ℤ y
plus_most a x y h = omega (arith, h, +ℤ_parts a x, +ℤ_parts a y)

no_less : (a m : ℤ) → pos 0 ≤ℤ m → a ≤ℤ a +ℤ m
no_less a m h = omega (arith, h, +ℤ_parts a m)

no_more : (a m : ℤ) → m <ℤ pos 0 → a +ℤ m ≤ℤ a
no_more a m h = omega (arith, h, +ℤ_parts a m)

distinct : (a b : ℤ) → a <ℤ b → a ≡ b → ⊥
distinct a b h e = omega (arith, h, ap pos_part e, ap neg_part e)

not_both : (a : ℤ) → pos 0 ≤ℤ a → a <ℤ pos 0 → ⊥
not_both a h k = omega (arith, h, k)

if_within_fits : (max_abs d : ℤ) → Within max_abs d → if_within max_abs d ≡ some d
if_within_fits max_abs d (from, to) =
    chosen {b = leb_ℤ (pos 0 -ℤ max_abs) d && leb_ℤ d max_abs} (some d) none (
      and_join (leb_ℤ (pos 0 -ℤ max_abs) d) (leb_ℤ d max_abs) (ground (arith, from))
        (ground (arith, to)))

module _ (position origin : AxisAddress) (d : ℤ) (place : IsCanonicalAxis position)
    (can : IsCanonicalAxis origin) (place_fits : IsInt64 position.sector)
    (fits : IsInt64 origin.sector) (e : value position ≡ value origin +ℤ d) where
  told_below :
      (m : ℤ) (o : Option AxisAddress)
      → IsInt64 m
      → m <ℤ d
      → try_offset_axis origin m ≡ o
      → (lo hi : ℤ) → judge position lo hi m o ≡ above m hi
  told_below m none i less asked lo hi = elim (Bool-cases (ltb_ℤ m (pos 0))) [
    | inl minus ↦ judge-above position lo hi m (ground (arith, minus))
    | inr plus ↦
        let (out, got) =
          found_between origin position origin m can place can fits.0 place_fits.1 i
            (no_less (value origin) m (ground (arith, plus)))
            (subst (λ x. value origin +ℤ m ≤ℤ x) (sym e) (plus_most (value origin) m d less)) in
        absurd (ground (arith, sym asked ∙ got))
  ]
  told_below m (some c) i less asked lo hi =
      let (canonical, ec) = try_offset_axis-value origin c m can asked in
      let smaller =
        subst (λ x. x <ℤ value position) (sym ec)
          (subst (λ x. value origin +ℤ m <ℤ x) (sym e) (plus_less (value origin) m d less)) in
      judge_before position c lo hi m
        (apart c position (distinct (value c) (value position) smaller))
        (value-before_axis c position canonical place smaller)

  told_above :
      (m : ℤ) (o : Option AxisAddress)
      → IsInt64 m
      → d <ℤ m
      → try_offset_axis origin m ≡ o
      → (lo hi : ℤ) → judge position lo hi m o ≡ below lo m
  told_above m none i more asked lo hi = elim (Bool-cases (ltb_ℤ m (pos 0))) [
    | inr plus ↦ judge-below position lo hi m (ground (arith, plus))
    | inl minus ↦
        let (out, got) =
          found_between position origin origin m place can can place_fits.0 fits.1 i
            (subst (λ x. x ≤ℤ value origin +ℤ m) (sym e) (plus_most (value origin) d m more))
            (no_more (value origin) m (ground (arith, minus))) in
        absurd (ground (arith, sym asked ∙ got))
  ]
  told_above m (some c) i more asked lo hi =
      let (canonical, ec) = try_offset_axis-value origin c m can asked in
      let larger =
        subst (λ x. value position <ℤ x) (sym ec)
          (subst (λ x. x <ℤ value origin +ℤ m) (sym e) (plus_less (value origin) d m more)) in
      judge_after position c lo hi m
        (apart c position (λ same. distinct (value position) (value c) larger (sym same)))
        (before_axis-flip position c (value-before_axis position c place canonical larger))

  told : (m : ℤ) → IsInt64 m → Told try_offset_axis position origin d m
  told m i = elim (order m d) [
    | inl same ↦ here same (
        try_offset_axis_complete origin position m can place i place_fits
          (e ∙ ap (λ (x : ℤ). value origin +ℤ x) (sym same)))
    | inr (inl less) ↦ too_low less (told_below m _ i less refl)
    | inr (inr more) ↦ too_high more (told_above m _ i more refl)
  ]

  here_is_zero : position ≡ origin → pos 0 ≡ d
  here_is_zero same =
      cancel (value origin) (pos 0) d (sym (zero_right (value origin)) ∙ ap value (sym same) ∙ e)

  -- A difference within the bound is found.
  block_axis_delta_within_complete :
      (max_abs : ℤ)
      → IsInt64 max_abs
      → Within max_abs d
      → block_axis_delta_within position origin max_abs ≡ some d
  unfolding block_axis_delta_within bounded_axis_delta
  block_axis_delta_within_complete max_abs i (from, to) =
      let Found = (λ (o : Option ℤ). o ≡ some d) in
      let range = -ℤ_parts (pos 0) max_abs in
      if_both Found (same_group position origin) _ _
        (λ same.
          let digits =
            cancel (value origin) _ d (sym (same_group-value position origin same) ∙ e) in
          ap (if_within max_abs) digits ∙ if_within_fits max_abs d (from, to))
        (λ _.
          if_both Found (ltb_ℤ max_abs (pos 0)) none _
            (λ minus.
              absurd (not_both max_abs (omega (arith, range, from, to)) (ground (arith, minus))))
            (λ _.
              if_both Found (same_axis position origin) (some (pos 0)) _
                (λ same. ap some (here_is_zero (same_axis→≡ position origin same)))
                (λ _.
                  search-finds try_offset_axis position origin d told 64 (pos 0 -ℤ max_abs) max_abs
                    (omega (arith, range, i)) (from, to)
                    ((omega (arith, range, from, to, i), omega (arith, range, from, to, i)), i))))

-- Between canonical places whose sectors fit 64 bits, a difference of blocks along an axis is found
-- exactly when it is within the bound and is the difference of the positions, whether it comes from
-- the digits of one group or from the search, and the rounds of the search are enough. The bound
-- fits 64 bits.
pub block_axis_delta_within_iff :
    (position origin : AxisAddress) (max_abs d : ℤ)
    → IsCanonicalAxis position
    → IsCanonicalAxis origin
    → IsInt64 position.sector
    → IsInt64 origin.sector
    → IsInt64 max_abs
    → (block_axis_delta_within position origin max_abs ≡ some d)
      ↔ (value position ≡ value origin +ℤ d) × Within max_abs d
block_axis_delta_within_iff position origin max_abs d place can place_fits fits i = (
  block_axis_delta_within-exact position origin max_abs d can,
  λ (e, within).
      block_axis_delta_within_complete position origin d place can place_fits fits e max_abs i
        within,
)
