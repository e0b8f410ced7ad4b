-- ===== src/Chunks/Group/Touched/Border.antt =====
-- The neighbours of a block along one axis.
use clone_craft.Base.{
  ℕ, zero, suc, ◌<◌, ◌≡◌, ◌≢◌, refl, sym, ap, ◌∙◌, false, Option, none, some, List, [], ◌∷◌, ◌==◌,
  same, if_pos, if_neg, arith, Bool-cases, inl, inr,
}
use clone_craft.Base.Int.{ℤ, pos, negsuc}
use clone_craft.Coords.{ChunkAddress, BlockAddress}
use clone_craft.State.Hierarchy.{chunk_key}
use clone_craft.Coords.Axis.{AxisAddress, and_then_some, try_offset_axis, try_offset_chunk_axis}
use clone_craft.Coords.Axis.Value.{IsCanonicalAxis, InRadix}
use clone_craft.Coords.Axis.Chunks.{chunk_value, try_offset_chunk_axis-chunk_value}
use clone_craft.Coords.Axis.Complete.{cancel}
use clone_craft.Coords.Offset.Steps.{Onward, inner_low, inner_high, edge_low, edge_high, sum_zero}
use clone_craft.Chunks.Group.{none_or, is_at, at_border}
use clone_craft.Chunks.Group.Touched.{other_chunk}

not_first : (n : ℕ) → is_at (pos (suc n)) 0 ≡ false
not_first n = ground arith

low_border :
    (v : ℤ) (o : Option ChunkAddress) (r : List ChunkAddress)
    → InRadix v 16
    → (v ≡ pos 0 → r ≡ none_or o)
    → ((n : ℕ) → v ≡ pos (suc n) → r ≡ [])
    → at_border (is_at v 0) o ≡ r
low_border (pos zero) o r h first other = sym (first refl)
low_border (pos (suc n)) o r h first other =
    ap (λ z. at_border z o) (not_first n) ∙ sym (other n refl)
low_border (negsuc n) o r h first other = absurd (omega (arith, h))

high_border :
    (v : ℤ) (o : Option ChunkAddress) (r : List ChunkAddress)
    → InRadix v 16
    → (v ≡ pos 15 → r ≡ none_or o)
    → ((n : ℕ) → v ≡ pos n → n < 15 → r ≡ [])
    → at_border (is_at v 15) o ≡ r
high_border (pos n) o r h last other = elim (Bool-cases (n == 15)) [
  | inl e ↦ ap (λ z. at_border z o) e ∙ sym (last (ap (λ m. pos m) (ground (arith, e))))
  | inr d ↦ ap (λ z. at_border z o) d ∙ sym (other n refl (ground (arith, d, h)))
]
high_border (negsuc n) o r h last other = absurd (omega (arith, h))

abbrev pub step : (AxisAddress → BlockAddress) → Option AxisAddress → Option BlockAddress
step put o = and_then_some o (λ x. some (put x))

abbrev pub chunk_step : (AxisAddress → BlockAddress) → Option AxisAddress → Option ChunkAddress
chunk_step put o = and_then_some o (λ x. some (put x).chunk)

-- One axis: a place on it, put back between the other two.
module _ (b : BlockAddress) (a : AxisAddress) (put : AxisAddress → BlockAddress)
    (position : ChunkAddress → ℤ) (can : IsCanonicalAxis a)
    (own : (n : ℤ) → (put (record a { block = n })).chunk ≡ b.chunk)
    (above : (x : AxisAddress) (n : ℤ) → (put (record x { block = n })).chunk ≡ (put x).chunk)
    (here : position b.chunk ≡ chunk_value a)
    (there : (x : AxisAddress) → position (put x).chunk ≡ chunk_value x) where
  within :
      (delta n : ℤ)
      → try_offset_axis a delta ≡ some (record a { block = n })
      → other_chunk b (step put (try_offset_axis a delta)) ≡ []
  within delta n h =
      ap (λ o. other_chunk b (step put o)) h
      ∙ if_pos (same b.chunk (put (record a { block = n })).chunk) (sym (own n)) _ _

  across :
      (delta n : ℤ)
      → delta ≢ pos 0
      → Onward a delta n
      → other_chunk b (step put (try_offset_axis a delta))
        ≡ none_or (chunk_step put (try_offset_chunk_axis a delta))
  across delta n moves h =
      ap (λ o. other_chunk b (step put o)) h ∙ at (try_offset_chunk_axis a delta) refl
    where
      at :
          (o : Option AxisAddress)
          → try_offset_chunk_axis a delta ≡ o
          → other_chunk b (step put (and_then_some o (λ c. some (record c { block = n }))))
            ≡ none_or (chunk_step put o)
      at none e = refl
      at (some c) e =
          let (canonical, first, moved) = try_offset_chunk_axis-chunk_value a c delta can e in
          if_neg (same b.chunk (put (record c { block = n })).chunk)
            (λ same_chunk. moves (
              cancel (chunk_value a) delta (pos 0) (
                sym moved
                ∙ sym (there c)
                ∙ ap position (sym (same_chunk ∙ above c n))
                ∙ here
                ∙ sym (sum_zero (chunk_value a)))))
            _ _
          ∙ ap (λ d. d ∷ []) (above c n)

  pub low :
      at_border (is_at a.block 0) (chunk_step put (try_offset_chunk_axis a (negsuc 0)))
      ≡ other_chunk b (step put (try_offset_axis a (negsuc 0)))
  low =
      low_border a.block _ _ can.block
        (λ e. across (negsuc 0) (pos 15) (λ z. absurd (ground (arith, z))) (edge_low a e))
        (λ n e. within (negsuc 0) (pos n) (inner_low a can n e))

  pub high :
      at_border (is_at a.block 15) (chunk_step put (try_offset_chunk_axis a (pos 1)))
      ≡ other_chunk b (step put (try_offset_axis a (pos 1)))
  high =
      high_border a.block _ _ can.block
        (λ e. across (pos 1) (pos 0) (λ z. absurd (ground (arith, z))) (edge_high a e))
        (λ n e few. within (pos 1) (pos (suc n)) (inner_high a can n e few))
