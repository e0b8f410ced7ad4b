-- ===== src/Coords/Axis/Floor.antt =====
-- Division that rounds down, and checked addition.
use native.Mathlib.Nat.{div-add-mod', mod-lt, add-mul}
use clone_craft.Base.{
  true, ℕ, zero, suc, ◌+◌, ◌-◌, ◌*◌, ◌/◌, ◌%◌, ◌<◌, ◌≤◌, ◌≡◌, refl, ap, ◌∙◌, arith,
}
use clone_craft.Base.Int.{ltb_ℤ, ℤ, pos, negsuc, neg, ◌+ℤ◌, ◌-ℤ◌, ◌*ℤ◌, ◌≤ℤ◌, ◌<ℤ◌}
use clone_craft.Coords.Axis.{quot, rem, floor_div, floor_mod}

is_negative : (m : ℕ) → ltb_ℤ (neg (suc m)) (pos 0) ≡ true
is_negative m = ground arith

neg_less : (n : ℕ) → neg n -ℤ pos 1 ≡ neg (n + 1)
unfolding ◌-ℤ◌
neg_less zero = refl
neg_less (suc n) = ground arith

neg_times : (n r : ℕ) → neg n *ℤ r ≡ neg (n * r)
unfolding ◌*ℤ◌
neg_times zero r = ground arith
neg_times (suc n) r = ground arith

neg_plus : (n m : ℕ) → m ≤ n → neg n +ℤ pos m ≡ neg (n - m)
unfolding ◌+ℤ◌
neg_plus zero m h = ground (arith, h)
neg_plus (suc n) m h = ground (arith, h)

neg_up : (m r : ℕ) → m < r → neg m +ℤ pos r ≡ pos (r - m)
unfolding ◌+ℤ◌
neg_up zero r h = ground (arith, h)
neg_up (suc m) r h = ground (arith, h)

negative_bounds :
    (r m : ℕ)
    → m < r
    → (a : ℤ) → rem a r ≡ neg m
    → (pos 0 ≤ℤ floor_mod a r) × (floor_mod a r <ℤ pos r)
unfolding floor_mod
negative_bounds r zero h a e = rw e (omega (arith, h))
negative_bounds r (suc m) h a e = rw (e, is_negative m, neg_up (suc m) r h) (omega (arith, h))

pub floor_mod-bounds : (a : ℤ) (r : ℕ) → 0 < r → (pos 0 ≤ℤ floor_mod a r) × (floor_mod a r <ℤ pos r)
unfolding floor_mod rem ◌+ℤ◌
floor_mod-bounds (pos n) r h = ground (arith, h, mod-lt n h)
floor_mod-bounds (negsuc n) r h = negative_bounds r (suc n % r) (mod-lt (suc n) h) (negsuc n) refl

-- A negative number with quotient `q` and remainder `m`, by whether the remainder is zero.
floor_negative :
    (a : ℤ) (r q m : ℕ)
    → m < r
    → quot a r ≡ neg q
    → rem a r ≡ neg m
    → floor_div a r *ℤ r +ℤ floor_mod a r ≡ neg (q * r + m)
unfolding floor_div floor_mod
floor_negative a r q zero h d e =
    rw (d, e, neg_times q r, neg_plus (q * r) 0 (omega arith)) (ap neg (omega arith))
floor_negative a r q (suc m) h d e =
    rw
      (
        d,
        e,
        is_negative m,
        neg_less q,
        neg_times (q + 1) r,
        neg_up (suc m) r h,
        neg_plus ((q + 1) * r) (r - suc m) (grind (arith, add-mul q 1 r)),
      )
      (ap neg (grind (arith, add-mul q 1 r, h)))

pub floor_div-mod : (a : ℤ) (r : ℕ) → 0 < r → floor_div a r *ℤ r +ℤ floor_mod a r ≡ a
unfolding floor_div floor_mod rem quot ◌+ℤ◌ ◌-ℤ◌ ◌*ℤ◌
floor_div-mod (pos n) r h = ground (arith, h, div-add-mod' n r, mod-lt n h)
floor_div-mod (negsuc n) r h =
    floor_negative (negsuc n) r (suc n / r) (suc n % r) (mod-lt (suc n) h) refl refl
    ∙ ap neg (div-add-mod' (suc n) r)
