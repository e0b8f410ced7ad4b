-- ===== src/Coords/Axis/Complete.antt =====
-- Every offset that has a place is found.
use native.Mathlib.Nat.{mul-le-mul_right, add-mul}
use clone_craft.Base.{
  ℕ, ◌+◌, ◌<◌, ◌≤◌, ◌≡◌, refl, sym, ap, ◌∙◌, subst, ◌⊎◌, inl, inr, Option, some, arith,
}
use clone_craft.Base.Int.{
  ℤ, pos_part, neg_part, ◌+ℤ◌, ◌*ℤ◌, ◌≤ℤ◌, ◌<ℤ◌, +ℤ_parts, -ℤ_parts, *ℤ_parts, eq_of_parts,
}
use clone_craft.Coords.{
  blocks_per_chunk_edge, chunks_per_group_edge, groups_per_section_edge, sections_per_region_edge,
  regions_per_sector_edge,
}
use clone_craft.Coords.Axis.{
  int64_max, int64_min, try_add_i64, propagate_digit, and_then_some, AxisAddress, try_offset_axis,
}
use clone_craft.Coords.Axis.Value.{
  InRadix, Split, low, high, digit-Split, horner, value, IsCanonicalAxis,
}

abbrev pub IsInt64 : ℤ → Type 0
IsInt64 a = (int64_min ≤ℤ a) × (a ≤ℤ int64_max)

try_add_i64-fits : (a b : ℤ) → IsInt64 (a +ℤ b) → try_add_i64 a b ≡ some (a +ℤ b)
unfolding try_add_i64
try_add_i64-fits a b h = ground (arith, h, +ℤ_parts a b, -ℤ_parts int64_max b, -ℤ_parts int64_min b)

-- Of two numbers in a radix, the one with the smaller upper part is smaller.
not_less :
    (c c' d d' : ℤ) (r : ℕ) → InRadix d r → InRadix d' r → c *ℤ r +ℤ d ≡ c' *ℤ r +ℤ d' → c <ℤ c' → ⊥
not_less c c' d d' r p q e less =
    let steps = mul-le-mul_right r less in
    omega (
      arith,
      steps,
      p,
      q,
      add-mul (pos_part c + neg_part c') 1 r,
      add-mul (pos_part c) (neg_part c') r,
      add-mul (pos_part c') (neg_part c) r,
      *ℤ_parts c r,
      *ℤ_parts c' r,
      +ℤ_parts (c *ℤ r) d,
      +ℤ_parts (c' *ℤ r) d',
      ap pos_part e,
      ap neg_part e,
    )

pub order : (a b : ℤ) → (a ≡ b) ⊎ ((a <ℤ b) ⊎ (b <ℤ a))
order a b = ground (arith, eq_of_parts a b)

pub unique_upper :
    (c c' d d' : ℤ) (r : ℕ) → InRadix d r → InRadix d' r → c *ℤ r +ℤ d ≡ c' *ℤ r +ℤ d' → c ≡ c'
unique_upper c c' d d' r p q e = elim (order c c') [
  | inl same ↦ same
  | inr (inl less) ↦ absurd (not_less c c' d d' r p q e less)
  | inr (inr more) ↦ absurd (not_less c' c d' d r q p (sym e) more)
]

pub cancel : (a d d' : ℤ) → a +ℤ d ≡ a +ℤ d' → d ≡ d'
cancel a d d' e =
    eq_of_parts d d' (omega (arith, +ℤ_parts a d, +ℤ_parts a d', ap pos_part e, ap neg_part e))

not_lt : (a b : ℤ) → (a <ℤ b → ⊥) → b ≤ℤ a
not_lt a b h = ground (arith, h)

module _ (digit carry : ℤ) (r : ℕ) (c d : ℤ) (h : 2 ≤ r) (p : InRadix digit r) (i : IsInt64 carry)
    (s : Split digit carry r d c) where
  not_above : int64_max <ℤ c → ⊥
  not_above big = omega (
    arith,
    mul-le-mul_right r big,
    h,
    p,
    i,
    s.0,
    add-mul 9_223_372_036_854_775_808 (neg_part c) r,
    *ℤ_parts c r,
    +ℤ_parts (c *ℤ r) d,
    +ℤ_parts carry digit,
    ap pos_part s.1,
    ap neg_part s.1,
  )

  not_below : c <ℤ int64_min → ⊥
  not_below small = omega (
    arith,
    mul-le-mul_right r small,
    h,
    p,
    i,
    s.0,
    add-mul (pos_part c) 9_223_372_036_854_775_809 r,
    *ℤ_parts c r,
    +ℤ_parts (c *ℤ r) d,
    +ℤ_parts carry digit,
    ap pos_part s.1,
    ap neg_part s.1,
  )

  -- A carry that fits leaves a carry that fits.
  high-IsInt64 : IsInt64 c
  high-IsInt64 = (not_lt c int64_min not_below, not_lt int64_max c not_above)

-- One digit of a sum that has a place: the digit and the upper part of the place come out.
peel :
    (V V' digit digit' carry : ℤ) (r : ℕ)
    → 0 < r
    → InRadix digit r
    → InRadix digit' r
    → V' *ℤ r +ℤ digit' ≡ V *ℤ r +ℤ digit +ℤ carry
    → (low digit r carry ≡ digit') × (V' ≡ V +ℤ high digit r carry)
peel V V' digit digit' carry r h p q e =
    let (in_radix, split) = digit-Split digit carry r h p in
    let sum =
      horner V (V +ℤ high digit r carry) carry (high digit r carry) digit (low digit r carry) r refl
        split in
    let upper =
      unique_upper V' (V +ℤ high digit r carry) digit' (low digit r carry) r q in_radix
        (e ∙ sym sum) in
    (
      cancel (V' *ℤ r) (low digit r carry) digit'
          (ap (λ u. u *ℤ r +ℤ low digit r carry) upper ∙ sum ∙ sym e),
      upper,
    )

propagate_digit-fits :
    (digit carry : ℤ) (r : ℕ)
    → 2 ≤ r
    → InRadix digit r
    → IsInt64 carry
    → IsInt64 (high digit r carry)
      × (propagate_digit digit r carry ≡ some (low digit r carry, high digit r carry))
unfolding propagate_digit
propagate_digit-fits digit carry r h p i =
    let fits =
      high-IsInt64 digit carry r _ _ h p i (digit-Split digit carry r (omega (arith, h)) p) in
    (fits, ap (λ o. and_then_some o (λ c. some (low digit r carry, c))) (try_add_i64-fits _ _ fits))

pub bind_some :
    {A B : Type 0} {o : Option A} {a : A} {r : Option B}
    → (f : A → Option B) → o ≡ some a
    → f a ≡ r
    → and_then_some o f ≡ r
bind_some f found rest = ap (λ o. and_then_some o f) found ∙ rest

-- From a canonical place, an offset that fits 64 bits is found whenever there is a canonical place that
-- far away whose sector fits 64 bits, and then it is that place.
pub try_offset_axis_complete :
    (base out : AxisAddress) (delta : ℤ)
    → IsCanonicalAxis base
    → IsCanonicalAxis out
    → IsInt64 delta
    → IsInt64 out.sector
    → value out ≡ value base +ℤ delta
    → try_offset_axis base delta ≡ some out
unfolding try_offset_axis
try_offset_axis_complete base out delta can place i fits e =
    let c₁ = high base.block blocks_per_chunk_edge delta in
    let c₂ = high base.chunk chunks_per_group_edge c₁ in
    let c₃ = high base.group groups_per_section_edge c₂ in
    let c₄ = high base.section sections_per_region_edge c₃ in
    let c₅ = high base.region regions_per_sector_edge c₄ in
    let (block, e₁) = peel _ _ base.block out.block delta _ (omega arith) can.block place.block e in
    let (chunk, e₂) = peel _ _ base.chunk out.chunk c₁ _ (omega arith) can.chunk place.chunk e₁ in
    let (group, e₃) = peel _ _ base.group out.group c₂ _ (omega arith) can.group place.group e₂ in
    let (section, e₄) =
      peel _ _ base.section out.section c₃ _ (omega arith) can.section place.section e₃ in
    let (region, e₅) =
      peel _ _ base.region out.region c₄ _ (omega arith) can.region place.region e₄ in
    let (i₁, s₁) =
      propagate_digit-fits base.block delta blocks_per_chunk_edge (omega arith) can.block i in
    let (i₂, s₂) =
      propagate_digit-fits base.chunk c₁ chunks_per_group_edge (omega arith) can.chunk i₁ in
    let (i₃, s₃) =
      propagate_digit-fits base.group c₂ groups_per_section_edge (omega arith) can.group i₂ in
    let (i₄, s₄) =
      propagate_digit-fits base.section c₃ sections_per_region_edge (omega arith) can.section i₃ in
    let (i₅, s₅) =
      propagate_digit-fits base.region c₄ regions_per_sector_edge (omega arith) can.region i₄ in
    bind_some _ (try_add_i64-fits _ _ i₁) (
      bind_some _ s₂ (
        bind_some _ s₃ (
          bind_some _ s₄ (
            bind_some _ s₅ (
              bind_some _ (try_add_i64-fits base.sector c₅ (subst IsInt64 e₅ fits)) (λ j.
                some (record {
                  sector = sym e₅ j;
                  region = region j;
                  section = section j;
                  group = group j;
                  chunk = chunk j;
                  block = block j;
                })))))))
