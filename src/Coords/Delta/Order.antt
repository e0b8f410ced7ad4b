-- ===== src/Coords/Delta/Order.antt =====
-- The order of axes, which compares them digit by digit, is the order of the positions.
use native.Mathlib.Nat.{mul-le-mul_right, add-mul}
use clone_craft.Base.{◌+◌, ◌≡◌, refl, ap, sym, ◌∙◌, ◌⊎◌, inl, inr, Bool, true, false, ℕ, arith}
use clone_craft.Base.Int.{ℤ, pos_part, neg_part, ◌+ℤ◌, ◌*ℤ◌, ◌<ℤ◌, ◌≤ℤ◌, +ℤ_parts, *ℤ_parts}
use clone_craft.Coords.{
  blocks_per_chunk_edge, chunks_per_group_edge, groups_per_section_edge, sections_per_region_edge,
  regions_per_sector_edge,
}
use clone_craft.Coords.Axis.{AxisAddress}
use clone_craft.Coords.Axis.Value.{InRadix, value, IsCanonicalAxis}
use clone_craft.Coords.Axis.Complete.{order, unique_upper, cancel}
use clone_craft.Coords.Delta.{lex, before_axis}

-- The upper part decides, where it differs.
upper_first :
    (t t' x y : ℤ) (r : ℕ) → InRadix x r → InRadix y r → t *ℤ r +ℤ x <ℤ t' *ℤ r +ℤ y → t' <ℤ t → ⊥
upper_first t t' x y r p q less more = omega (
  arith,
  mul-le-mul_right r more,
  less,
  p,
  q,
  add-mul (pos_part t' + neg_part t) 1 r,
  add-mul (pos_part t') (neg_part t) r,
  add-mul (pos_part t) (neg_part t') r,
  *ℤ_parts t r,
  *ℤ_parts t' r,
  +ℤ_parts (t *ℤ r) x,
  +ℤ_parts (t' *ℤ r) y,
)

abbrev Less : ℤ → ℤ → Bool → Type 0
Less a b rest = (a <ℤ b) ⊎ (a ≡ b) × (rest ≡ true)

lex_less : (x y : ℤ) (rest : Bool) → x <ℤ y → lex x y rest ≡ true
lex_less x y rest h = ground (arith, h)

lex_same : (x y : ℤ) (rest : Bool) → x ≡ y → rest ≡ true → lex x y rest ≡ true
lex_same x y rest e h = ground (arith, ap pos_part e, ap neg_part e, h)

same_upper : (t t' x y : ℤ) (r : ℕ) → t ≡ t' → t *ℤ r +ℤ x <ℤ t' *ℤ r +ℤ y → x <ℤ y
same_upper t t' x y r e h = omega (
  arith,
  h,
  ap (λ (z : ℤ). pos_part (z *ℤ r)) e,
  ap (λ (z : ℤ). neg_part (z *ℤ r)) e,
  +ℤ_parts (t *ℤ r) x,
  +ℤ_parts (t' *ℤ r) y,
)

-- One digit of the comparison.
digit-Less :
    (t t' x y : ℤ) (r : ℕ) (rest : Bool)
    → InRadix x r
    → InRadix y r
    → Less (t *ℤ r +ℤ x) (t' *ℤ r +ℤ y) rest
    → Less t t' (lex x y rest)
digit-Less t t' x y r rest p q (inl less) = elim (order t t') [
  | inl same ↦ inr (same, lex_less x y rest (same_upper t t' x y r same less))
  | inr (inl below_it) ↦ inl below_it
  | inr (inr more) ↦ absurd (upper_first t t' x y r p q less more)
]
digit-Less t t' x y r rest p q (inr (same, h)) =
    let e = unique_upper t t' x y r p q same in
    inr (e, lex_same x y rest (cancel (t *ℤ r) x y (same ∙ ap (λ (z : ℤ). z *ℤ r +ℤ y) (sym e))) h)

sector_first : (x y : ℤ) (rest : Bool) → Less x y rest → (x ≤ℤ y) × (lex x y rest ≡ true)
sector_first x y rest (inl h) = (omega (arith, h), lex_less x y rest h)
sector_first x y rest (inr (e, h)) =
    (omega (arith, ap pos_part e, ap neg_part e), lex_same x y rest e h)

-- The comparison of two axes of which the digits are in their radices.
value-lex :
    (a b : AxisAddress) (rest : Bool)
    → IsCanonicalAxis a
    → IsCanonicalAxis b
    → Less (value a) (value b) rest
    → (a.sector ≤ℤ b.sector)
      × (lex a.sector b.sector (
            lex a.region b.region (
              lex a.section b.section
                (lex a.group b.group (lex a.chunk b.chunk (lex a.block b.block rest)))))
          ≡ true)
value-lex a b rest can place less =
    let at_chunk =
      digit-Less _ _ a.block b.block blocks_per_chunk_edge rest can.block place.block less in
    let at_group =
      digit-Less _ _ a.chunk b.chunk chunks_per_group_edge _ can.chunk place.chunk at_chunk in
    let at_section =
      digit-Less _ _ a.group b.group groups_per_section_edge _ can.group place.group at_group in
    let at_region =
      digit-Less _ _ a.section b.section sections_per_region_edge _ can.section place.section
        at_section in
    let at_sector =
      digit-Less _ _ a.region b.region regions_per_sector_edge _ can.region place.region
        at_region in
    sector_first a.sector b.sector _ at_sector

-- Of two canonical places, the one with the smaller position is before the other.
pub value-before_axis :
    (a b : AxisAddress)
    → IsCanonicalAxis a
    → IsCanonicalAxis b
    → value a <ℤ value b
    → before_axis a b ≡ true
value-before_axis a b can place less = (value-lex a b false can place (inl less)).1

at_most : (x y : ℤ) → x ≤ℤ y → Less x y true
at_most x y h = elim (order x y) [
  | inl same ↦ inr (same, refl)
  | inr (inl less) ↦ inl less
  | inr (inr more) ↦ absurd (omega (arith, h, more))
]

-- The sectors of canonical places are in the order of the positions.
pub value-sector :
    (a b : AxisAddress)
    → IsCanonicalAxis a
    → IsCanonicalAxis b
    → value a ≤ℤ value b
    → a.sector ≤ℤ b.sector
value-sector a b can place h = (value-lex a b true can place (at_most (value a) (value b) h)).0

lex_flip : (x y : ℤ) (p q : Bool) → (p ≡ true → q ≡ false) → lex x y p ≡ true → lex y x q ≡ false
lex_flip x y true q f h = ground (arith, h, f refl)
lex_flip x y false q f h = ground (arith, h)

pub before_axis-flip : (a b : AxisAddress) → before_axis a b ≡ true → before_axis b a ≡ false
before_axis-flip a b = lex_flip a.sector b.sector _ _ (
    lex_flip a.region b.region _ _ (
      lex_flip a.section b.section _ _ (
        lex_flip a.group b.group _ _
          (lex_flip a.chunk b.chunk _ _ (lex_flip a.block b.block false false (λ _. refl))))))
