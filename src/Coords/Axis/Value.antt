-- ===== src/Coords/Axis/Value.antt =====
-- What an offset does to the position that an axis stands for.
use native.Mathlib.Nat.{div-add-mod', mod-lt, add-mul}
use clone_craft.Base.{
  some_injective, ℕ, ◌+◌, ◌*◌, ◌<◌, ◌≡◌, refl, sym, ap, ◌∙◌, subst, Option, none, some, arith,
}
use clone_craft.Base.Int.{
  ℤ, pos, negsuc, pos_part, neg_part, ◌+ℤ◌, ◌*ℤ◌, ◌≤ℤ◌, ◌<ℤ◌, +ℤ_parts, *ℤ_parts, eq_of_parts,
}
use clone_craft.Coords.{
  blocks_per_chunk_edge, chunks_per_group_edge, groups_per_section_edge, sections_per_region_edge,
  regions_per_sector_edge,
}
use clone_craft.Coords.Axis.{
  quot, rem, floor_div, floor_mod, try_add_i64, propagate_digit, and_then_some, AxisAddress,
  try_offset_axis,
}
use clone_craft.Coords.Axis.Floor.{floor_div-mod, floor_mod-bounds}

expand : (a b c d e f r : ℕ) → a + b + c ≡ d + e + f → a * r + b * r + c * r ≡ d * r + e * r + f * r
expand a b c d e f r h =
    sym (add-mul (a + b) c r ∙ ap (λ n. n + c * r) (add-mul a b r))
    ∙ ap (λ n. n * r) h
    ∙ (add-mul (d + e) f r ∙ ap (λ n. n + f * r) (add-mul d e r))

times_plus : (a b : ℤ) (r : ℕ) → (a +ℤ b) *ℤ r ≡ a *ℤ r +ℤ b *ℤ r
times_plus a b r = eq_of_parts _ _ (
    omega (
      arith,
      expand _ _ _ _ _ _ r (+ℤ_parts a b),
      *ℤ_parts (a +ℤ b) r,
      *ℤ_parts a r,
      *ℤ_parts b r,
      +ℤ_parts (a *ℤ r) (b *ℤ r),
    ))

abbrev pub InRadix : ℤ → ℕ → Type 0
InRadix d r = (pos 0 ≤ℤ d) × (d <ℤ pos r)

-- The sum of two digits, split again.
split_sum :
    (a b : ℤ) (r : ℕ)
    → 0 < r
    → InRadix a r
    → InRadix b r
    → InRadix (rem (a +ℤ b) r) r × (quot (a +ℤ b) r *ℤ r +ℤ rem (a +ℤ b) r ≡ a +ℤ b)
unfolding quot rem ◌+ℤ◌ ◌*ℤ◌
split_sum (pos a) (pos b) r h p q = ground (arith, h, div-add-mod' (a + b) r, mod-lt (a + b) h)
split_sum (pos a) (negsuc b) r h p q = absurd (ground (arith, q))
split_sum (negsuc a) b r h p q = absurd (ground (arith, p))

pub try_add_i64-eq-some : (a b c : ℤ) → try_add_i64 a b ≡ some c → c ≡ a +ℤ b
unfolding try_add_i64
try_add_i64-eq-some a b c h = ground arith

abbrev pub Split : ℤ → ℤ → ℕ → ℤ → ℤ → Type 0
Split digit carry r digit' carry' = InRadix digit' r × (carry' *ℤ r +ℤ digit' ≡ carry +ℤ digit)

-- The new digit and the new carry, before the check of the sum.
abbrev pub low : ℤ → ℕ → ℤ → ℤ
low digit r carry = rem (digit +ℤ floor_mod carry r) r

abbrev pub high : ℤ → ℕ → ℤ → ℤ
high digit r carry = floor_div carry r +ℤ quot (digit +ℤ floor_mod carry r) r

-- One digit: the new digit is in the radix, and with the new carry it stands for the old ones.
pub digit-Split :
    (digit carry : ℤ) (r : ℕ)
    → 0 < r
    → InRadix digit r
    → Split digit carry r (low digit r carry) (high digit r carry)
digit-Split digit carry r h p =
    let m = floor_mod carry r in
    let q = floor_div carry r in
    let f = quot (digit +ℤ m) r in
    let (bounded, summed) = split_sum digit m r h p (floor_mod-bounds carry r h) in
    let d = rem (digit +ℤ m) r in
    (
      bounded,
      eq_of_parts _ _ (
          omega (
            arith,
            ap pos_part (floor_div-mod carry r h),
            ap neg_part (floor_div-mod carry r h),
            +ℤ_parts (q *ℤ r) m,
            ap pos_part summed,
            ap neg_part summed,
            +ℤ_parts (f *ℤ r) d,
            +ℤ_parts digit m,
            ap pos_part (times_plus q f r),
            ap neg_part (times_plus q f r),
            +ℤ_parts (q *ℤ r) (f *ℤ r),
            +ℤ_parts ((q +ℤ f) *ℤ r) d,
            +ℤ_parts carry digit,
          )),
    )

pub carried :
    (digit carry : ℤ) (r : ℕ) (c : ℤ)
    → 0 < r
    → InRadix digit r
    → try_add_i64 (floor_div carry r) (quot (digit +ℤ floor_mod carry r) r) ≡ some c
    → Split digit carry r (low digit r carry) c
carried digit carry r c h p e =
    subst (Split digit carry r (low digit r carry)) (sym (try_add_i64-eq-some _ _ c e))
      (digit-Split digit carry r h p)

pub and_then_some-eq-some :
    {A B : Type 0} (o : Option A) (f : A → Option B) (b : B)
    → and_then_some o f ≡ some b
    → (a : A) × (o ≡ some a) × (f a ≡ some b)
and_then_some-eq-some none f b h = absurd (ground arith)
and_then_some-eq-some (some a) f b h = (a, refl, h)

pub propagate_digit-Split :
    (digit : ℤ) (r : ℕ) (carry digit' carry' : ℤ)
    → 0 < r
    → InRadix digit r
    → propagate_digit digit r carry ≡ some (digit', carry')
    → Split digit carry r digit' carry'
unfolding propagate_digit
propagate_digit-Split digit r carry digit' carry' h p e =
    let (c, added, made) = and_then_some-eq-some _ _ (digit', carry') e in
    subst (λ (t : ℤ × ℤ). Split digit carry r t.0 t.1) (some_injective made)
      (carried digit carry r c h p added)

-- The position in blocks, from the origin of sector 0.
abbrev pub value : AxisAddress → ℤ
value a =
    ((((a.sector *ℤ regions_per_sector_edge +ℤ a.region) *ℤ sections_per_region_edge +ℤ a.section)
              *ℤ groups_per_section_edge
            +ℤ a.group)
          *ℤ chunks_per_group_edge
        +ℤ a.chunk)
      *ℤ blocks_per_chunk_edge
    +ℤ a.block

pub record IsCanonicalAxis (a : AxisAddress) : Type 0 where
  pub region : InRadix a.region regions_per_sector_edge
  pub section : InRadix a.section sections_per_region_edge
  pub group : InRadix a.group groups_per_section_edge
  pub chunk : InRadix a.chunk chunks_per_group_edge
  pub block : InRadix a.block blocks_per_chunk_edge

-- A digit more: if the higher part moved by the carry, the whole moves by what came in.
pub horner :
    (v v' c c' d d' : ℤ) (r : ℕ)
    → v' ≡ v +ℤ c'
    → c' *ℤ r +ℤ d' ≡ c +ℤ d
    → v' *ℤ r +ℤ d' ≡ v *ℤ r +ℤ d +ℤ c
horner v v' c c' d d' r h e =
    let scaled = ap (λ (x : ℤ). x *ℤ r) h ∙ times_plus v c' r in
    eq_of_parts _ _ (
      omega (
        arith,
        ap pos_part scaled,
        ap neg_part scaled,
        +ℤ_parts (v *ℤ r) (c' *ℤ r),
        ap pos_part e,
        ap neg_part e,
        +ℤ_parts (c' *ℤ r) d',
        +ℤ_parts c d,
        +ℤ_parts (v' *ℤ r) d',
        +ℤ_parts (v *ℤ r) d,
        +ℤ_parts (v *ℤ r +ℤ d) c,
      ))

-- An offset that is found is exact: the new digits are canonical, and the new position is the old
-- one and the offset, over all borders of chunks, groups, sections, regions and sectors.
pub try_offset_axis-value :
    (base out : AxisAddress) (delta : ℤ)
    → IsCanonicalAxis base
    → try_offset_axis base delta ≡ some out
    → IsCanonicalAxis out × (value out ≡ value base +ℤ delta)
unfolding try_offset_axis
try_offset_axis-value base out delta can h =
    let (c₁, blocks, h₁) = and_then_some-eq-some _ _ out h in
    let ((chunk, c₂), chunks, h₂) = and_then_some-eq-some _ _ out h₁ in
    let ((group, c₃), groups, h₃) = and_then_some-eq-some _ _ out h₂ in
    let ((section, c₄), sections, h₄) = and_then_some-eq-some _ _ out h₃ in
    let ((region, c₅), regions, h₅) = and_then_some-eq-some _ _ out h₄ in
    let (sector, top, made) = and_then_some-eq-some _ _ out h₅ in
    let (block_in, s₀) =
      carried base.block delta blocks_per_chunk_edge c₁ (omega arith) can.block blocks in
    let (chunk_in, s₁) =
      propagate_digit-Split base.chunk _ c₁ chunk c₂ (omega arith) can.chunk chunks in
    let (group_in, s₂) =
      propagate_digit-Split base.group _ c₂ group c₃ (omega arith) can.group groups in
    let (section_in, s₃) =
      propagate_digit-Split base.section _ c₃ section c₄ (omega arith) can.section sections in
    let (region_in, s₄) =
      propagate_digit-Split base.region _ c₄ region c₅ (omega arith) can.region regions in
    let v₅ = try_add_i64-eq-some base.sector c₅ sector top in
    let v₄ = horner _ _ c₄ c₅ base.region region regions_per_sector_edge v₅ s₄ in
    let v₃ = horner _ _ c₃ c₄ base.section section sections_per_region_edge v₄ s₃ in
    let v₂ = horner _ _ c₂ c₃ base.group group groups_per_section_edge v₃ s₂ in
    let v₁ = horner _ _ c₁ c₂ base.chunk chunk chunks_per_group_edge v₂ s₁ in
    let v₀ = horner _ _ delta c₁ base.block _ blocks_per_chunk_edge v₁ s₀ in
    subst (λ (a : AxisAddress). IsCanonicalAxis a × (value a ≡ value base +ℤ delta))
      (some_injective made)
      (
        record {
          region = region_in;
          section = section_in;
          group = group_in;
          chunk = chunk_in;
          block = block_in;
        },
        v₀,
      )
