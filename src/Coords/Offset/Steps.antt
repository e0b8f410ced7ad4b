-- ===== src/Coords/Offset/Steps.antt =====
-- One step along an axis: it stays in the chunk, or it leads into the next one.
use native.Mathlib.Nat.{div-add-mod', div-lt_iff_lt-mul}
use clone_craft.Base.{◌≡◌, refl, sym, ap, ◌∙◌, subst, some, arith, ◌<◌, ℕ, suc, ◌*◌, ◌/◌, ◌%◌}
use clone_craft.Base.Int.{ℤ, pos, negsuc, ◌+ℤ◌, ◌-ℤ◌, eq_of_parts, +ℤ_parts, pos_part, neg_part}
use clone_craft.Coords.{
  chunks_per_group_edge, groups_per_section_edge, sections_per_region_edge, regions_per_sector_edge,
}
use clone_craft.Coords.Axis.{
  AxisAddress, and_then_some, quot, rem, floor_div, floor_mod, try_add_i64, propagate_digit,
  try_offset_axis, try_offset_chunk_axis,
}
use clone_craft.Coords.Offset.Ends.{at_chunk}
use clone_craft.Coords.Axis.Complete.{bind_some}
use clone_craft.Coords.Axis.Value.{IsCanonicalAxis, InRadix}

pub sum_zero : (a : ℤ) → a +ℤ pos 0 ≡ a
sum_zero a = eq_of_parts _ _ (omega (arith, +ℤ_parts a (pos 0)))

no_carry : (a : ℤ) → try_add_i64 a (pos 0) ≡ some (a +ℤ pos 0)
unfolding try_add_i64
no_carry a = refl

div_below : (n r : ℕ) → n < r → n / r ≡ 0
div_below n r h =
    let few = (div-lt_iff_lt-mul {k = r} {x = n} {y = 1} (omega (arith, h))).1 (omega (arith, h)) in
    omega (arith, few)

mod_below : (n r : ℕ) → n < r → n % r ≡ n
mod_below n r h = omega (arith, ap (λ q. q * r) (div_below n r h), div-add-mod' n r)

quot_digit : (d : ℤ) (r : ℕ) → InRadix d r → quot d r ≡ pos 0
unfolding quot
quot_digit (pos n) r h = ap (λ m. pos m) (div_below n r (omega (arith, h)))
quot_digit (negsuc n) r h = absurd (omega (arith, h))

rem_digit : (d : ℤ) (r : ℕ) → InRadix d r → rem d r ≡ d
unfolding rem
rem_digit (pos n) r h = ap (λ m. pos m) (mod_below n r (omega (arith, h)))
rem_digit (negsuc n) r h = absurd (omega (arith, h))

nothing_carried :
    (d : ℤ)
    → and_then_some {B = ℤ × ℤ} (try_add_i64 (pos 0) (pos 0)) (λ c. some (d, c)) ≡ some (d, pos 0)
unfolding try_add_i64 ◌+ℤ◌
nothing_carried d = refl

-- Without a carry a digit stays.
quiet_digit :
    (d : ℤ) (r : ℕ)
    → floor_div (pos 0) r ≡ pos 0
    → floor_mod (pos 0) r ≡ pos 0
    → InRadix d r
    → propagate_digit d r (pos 0) ≡ some (d, pos 0)
unfolding propagate_digit
quiet_digit d r q m h =
    let sum = ap (λ x. d +ℤ x) m ∙ sum_zero d in
    (λ i.
      and_then_some {B = ℤ × ℤ} (try_add_i64 (q i) ((ap (λ x. quot x r) sum ∙ quot_digit d r h) i))
        λ c. some ((ap (λ x. rem x r) sum ∙ rem_digit d r h) i, c))
    ∙ nothing_carried d

-- The carry and the digit of the blocks.
abbrev Moves : ℤ → ℤ → ℤ → ℤ → Type 0
Moves delta digit carry digit' =
    (try_add_i64 (floor_div delta 16) (quot (digit +ℤ floor_mod delta 16) 16) ≡ some carry)
    × (rem (digit +ℤ floor_mod delta 16) 16 ≡ digit')

none-Moves : (d : ℤ) → InRadix d 16 → Moves (pos 0) d (pos 0) d
unfolding floor_div floor_mod quot rem try_add_i64 ◌+ℤ◌
none-Moves (pos n) h = ground (arith, h)
none-Moves (negsuc n) h = absurd (omega (arith, h))

low-Moves : (n : ℕ) → n < 15 → Moves (negsuc 0) (pos (suc n)) (pos 0) (pos n)
unfolding floor_div floor_mod quot rem try_add_i64 ◌+ℤ◌ ◌-ℤ◌
low-Moves n h = ground (arith, h)

high-Moves : (n : ℕ) → n < 15 → Moves (pos 1) (pos n) (pos 0) (pos (suc n))
unfolding floor_div floor_mod quot rem try_add_i64 ◌+ℤ◌
high-Moves n h = ground (arith, h)

under-Moves : Moves (negsuc 0) (pos 0) (negsuc 0) (pos 15)
unfolding floor_div floor_mod quot rem try_add_i64 ◌+ℤ◌ ◌-ℤ◌
under-Moves = (refl, refl)

over-Moves : Moves (pos 1) (pos 15) (pos 1) (pos 0)
unfolding floor_div floor_mod quot rem try_add_i64 ◌+ℤ◌ ◌-ℤ◌
over-Moves = (refl, refl)

module _ (a : AxisAddress) (can : IsCanonicalAxis a) where
  -- What is left of an offset by chunks that does not leave the group.
  quiet_upper :
      {A : Type 0} (f : ℤ → ℤ → ℤ → ℤ → A)
      → and_then_some (propagate_digit a.group groups_per_section_edge (pos 0)) (λ (group, c₃).
        and_then_some (propagate_digit a.section sections_per_region_edge c₃) λ (section, c₄).
          and_then_some (propagate_digit a.region regions_per_sector_edge c₄) λ (region, c₅).
            and_then_some (try_add_i64 a.sector c₅) λ sector. some (f sector region section group))
        ≡ some (f a.sector a.region a.section a.group)
  unfolding floor_div floor_mod quot rem
  quiet_upper f = bind_some _ (quiet_digit a.group groups_per_section_edge refl refl can.group) (
      bind_some _ (quiet_digit a.section sections_per_region_edge refl refl can.section) (
        bind_some _ (quiet_digit a.region regions_per_sector_edge refl refl can.region)
          (bind_some _ (no_carry a.sector ∙ ap (λ x. some x) (sum_zero a.sector)) refl)))

  -- No step, and a step that stays in the chunk.
  inner :
      (delta block : ℤ)
      → Moves delta a.block (pos 0) block
      → try_offset_axis a delta ≡ some (record a { block = block })
  unfolding try_offset_axis floor_div floor_mod quot rem
  inner delta block (carried, there) = bind_some _ carried (
      bind_some _ (quiet_digit a.chunk chunks_per_group_edge refl refl can.chunk) (
        quiet_upper (λ sector region section group. record {
          sector = sector;
          region = region;
          section = section;
          group = group;
          chunk = a.chunk;
          block = rem (a.block +ℤ floor_mod delta 16) 16;
        })
        ∙ ap (λ b. some (record a { block = b })) there))

  pub stay : try_offset_axis a (pos 0) ≡ some a
  stay = inner (pos 0) a.block (none-Moves a.block can.block)

  pub stay_chunk : try_offset_chunk_axis a (pos 0) ≡ some (record a { block = pos 0 })
  unfolding try_offset_chunk_axis floor_div floor_mod quot rem
  stay_chunk =
      let (carried, there) = none-Moves a.chunk can.chunk in
      bind_some _ carried (
        quiet_upper (λ sector region section group. record {
          sector = sector;
          region = region;
          section = section;
          group = group;
          chunk = rem (a.chunk +ℤ floor_mod (pos 0) 16) 16;
          block = pos 0;
        })
        ∙ ap (λ c. some (record a { chunk = c; block = pos 0 })) there)

  pub inner_low :
      (n : ℕ)
      → a.block ≡ pos (suc n)
      → try_offset_axis a (negsuc 0) ≡ some (record a { block = pos n })
  inner_low n h = inner (negsuc 0) (pos n) (
      subst (λ x. Moves (negsuc 0) x (pos 0) (pos n)) (sym h)
        (low-Moves n (omega (arith, ap pos_part h, ap neg_part h, can.block))))

  pub inner_high :
      (n : ℕ)
      → a.block ≡ pos n
      → n < 15
      → try_offset_axis a (pos 1) ≡ some (record a { block = pos (suc n) })
  inner_high n h low =
      inner (pos 1) (pos (suc n))
        (subst (λ x. Moves (pos 1) x (pos 0) (pos (suc n))) (sym h) (high-Moves n low))

-- A step over the border leads to the last or the first block of the next chunk.
edge :
    (a : AxisAddress) (delta block : ℤ)
    → Moves delta a.block delta block
    → try_offset_axis a delta
      ≡ and_then_some (try_offset_chunk_axis a delta) (λ c. some (record c { block = block }))
unfolding try_offset_axis try_offset_chunk_axis propagate_digit
edge a delta block (carried, there) = bind_some _ carried (
    ap
      (λ x. and_then_some (propagate_digit a.chunk 16 delta) (λ (chunk, c₂).
        and_then_some (propagate_digit a.group groups_per_section_edge c₂) (λ (group, c₃).
          and_then_some (propagate_digit a.section sections_per_region_edge c₃) (λ (section, c₄).
            and_then_some (propagate_digit a.region regions_per_sector_edge c₄) (λ (region, c₅).
              and_then_some (try_add_i64 a.sector c₅) (λ sector. some (record {
                sector = sector;
                region = region;
                section = section;
                group = group;
                chunk = chunk;
                block = x;
              })))))))
      there
    ∙ at_chunk (λ c. record c { block = block }) (λ c. try_add_i64 a.sector c)
        (λ c. propagate_digit a.region regions_per_sector_edge c)
        (λ c. propagate_digit a.section sections_per_region_edge c)
        (try_add_i64 (floor_div delta 16) (quot (a.chunk +ℤ floor_mod delta 16) 16))
        (rem (a.chunk +ℤ floor_mod delta 16) 16)
        (λ c. propagate_digit a.group groups_per_section_edge c)
        (λ chunk group section region sector. record {
          sector = sector;
          region = region;
          section = section;
          group = group;
          chunk = chunk;
          block = pos 0;
        }))

abbrev pub Onward : AxisAddress → ℤ → ℤ → Type 0
Onward a delta block =
    try_offset_axis a delta
    ≡ and_then_some (try_offset_chunk_axis a delta) (λ c. some (record c { block = block }))

pub edge_low : (a : AxisAddress) → a.block ≡ pos 0 → Onward a (negsuc 0) (pos 15)
edge_low a h =
    edge a (negsuc 0) (pos 15)
      (subst (λ x. Moves (negsuc 0) x (negsuc 0) (pos 15)) (sym h) under-Moves)

pub edge_high : (a : AxisAddress) → a.block ≡ pos 15 → Onward a (pos 1) (pos 0)
edge_high a h =
    edge a (pos 1) (pos 0) (subst (λ x. Moves (pos 1) x (pos 1) (pos 0)) (sym h) over-Moves)
