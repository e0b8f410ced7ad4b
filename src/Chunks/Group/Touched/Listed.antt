-- ===== src/Chunks/Group/Touched/Listed.antt =====
-- The list of the chunks that a block touches, as the code makes it, is the list of its neighbours.
use clone_craft.Base.{◌≡◌, refl, sym, ap, ◌∙◌, true, some, ◌∷◌, ◌++◌}
use clone_craft.Base.Int.{ℤ, pos, negsuc}
use clone_craft.Coords.{BlockAddress, canonical_block}
use clone_craft.State.Hierarchy.{chunk_key}
use clone_craft.Coords.Axis.{AxisAddress, and_then_some, try_offset_axis, try_offset_chunk_axis}
use clone_craft.Coords.Axis.Value.{IsCanonicalAxis}
use clone_craft.Coords.Axis.Chunks.{chunk_value}
use clone_craft.Coords.Offset.{
  block_axis_x, block_axis_y, block_axis_z, from_axes, chunk_origin, try_offset_block,
  try_offset_chunk,
}
use clone_craft.Coords.Offset.Exact.{canonical_block-axes}
use clone_craft.Coords.Offset.Steps.{stay, stay_chunk}
use clone_craft.Chunks.Group.{is_at, at_border, for_block}
use clone_craft.Chunks.Group.Touched.{other_chunk, beyond, touched}
use clone_craft.Chunks.Group.Touched.Border.{step, chunk_step, low, high}

module _ (b : BlockAddress) (can : canonical_block b ≡ true) where
  abbrev x : AxisAddress
  x = block_axis_x b

  abbrev y : AxisAddress
  y = block_axis_y b

  abbrev z : AxisAddress
  z = block_axis_z b

  can_x : IsCanonicalAxis x
  can_x = (canonical_block-axes b can).0

  can_y : IsCanonicalAxis y
  can_y = (canonical_block-axes b can).1.0

  can_z : IsCanonicalAxis z
  can_z = (canonical_block-axes b can).1.1

  abbrev put_x : AxisAddress → BlockAddress
  put_x v = from_axes v y z

  abbrev put_y : AxisAddress → BlockAddress
  put_y v = from_axes x v z

  abbrev put_z : AxisAddress → BlockAddress
  put_z v = from_axes x y v

  by_x : (d : ℤ) → try_offset_block b d (pos 0) (pos 0) ≡ step put_x (try_offset_axis x d)
  unfolding try_offset_block
  by_x d = λ i. and_then_some (try_offset_axis x d) λ u.
      and_then_some (stay y can_y i) λ v. and_then_some (stay z can_z i) λ w. some (from_axes u v w)

  by_y : (d : ℤ) → try_offset_block b (pos 0) d (pos 0) ≡ step put_y (try_offset_axis y d)
  unfolding try_offset_block
  by_y d = λ i. and_then_some (stay x can_x i) λ u.
      and_then_some (try_offset_axis y d)
        λ v. and_then_some (stay z can_z i) λ w. some (from_axes u v w)

  by_z : (d : ℤ) → try_offset_block b (pos 0) (pos 0) d ≡ step put_z (try_offset_axis z d)
  unfolding try_offset_block
  by_z d = λ i. and_then_some (stay x can_x i) λ u.
      and_then_some (stay y can_y i)
        λ v. and_then_some (try_offset_axis z d) λ w. some (from_axes u v w)

  chunk_by_x :
      (d : ℤ)
      → try_offset_chunk b.chunk d (pos 0) (pos 0) ≡ chunk_step put_x (try_offset_chunk_axis x d)
  unfolding try_offset_chunk try_offset_chunk_axis
  chunk_by_x d = λ i. and_then_some (try_offset_chunk_axis x d) λ u.
      and_then_some (stay_chunk y can_y i)
        λ v. and_then_some (stay_chunk z can_z i) λ w. some (from_axes u v w).chunk

  chunk_by_y :
      (d : ℤ)
      → try_offset_chunk b.chunk (pos 0) d (pos 0) ≡ chunk_step put_y (try_offset_chunk_axis y d)
  unfolding try_offset_chunk try_offset_chunk_axis
  chunk_by_y d = λ i. and_then_some (stay_chunk x can_x i) λ u.
      and_then_some (try_offset_chunk_axis y d)
        λ v. and_then_some (stay_chunk z can_z i) λ w. some (from_axes u v w).chunk

  chunk_by_z :
      (d : ℤ)
      → try_offset_chunk b.chunk (pos 0) (pos 0) d ≡ chunk_step put_z (try_offset_chunk_axis z d)
  unfolding try_offset_chunk try_offset_chunk_axis
  chunk_by_z d = λ i. and_then_some (stay_chunk x can_x i) λ u.
      and_then_some (stay_chunk y can_y i)
        λ v. and_then_some (try_offset_chunk_axis z d) λ w. some (from_axes u v w).chunk

  low_x :
      at_border (is_at b.block.x 0) (try_offset_chunk b.chunk (negsuc 0) (pos 0) (pos 0))
      ≡ beyond b (negsuc 0) (pos 0) (pos 0)
  low_x =
      ap (λ o. at_border (is_at b.block.x 0) o) (chunk_by_x (negsuc 0))
      ∙ low b x put_x (λ c. chunk_value (block_axis_x (chunk_origin c))) can_x (λ n. refl)
          (λ u n. refl) refl (λ u. refl)
      ∙ ap (λ o. other_chunk b o) (sym (by_x (negsuc 0)))

  high_x :
      at_border (is_at b.block.x 15) (try_offset_chunk b.chunk (pos 1) (pos 0) (pos 0))
      ≡ beyond b (pos 1) (pos 0) (pos 0)
  high_x =
      ap (λ o. at_border (is_at b.block.x 15) o) (chunk_by_x (pos 1))
      ∙ high b x put_x (λ c. chunk_value (block_axis_x (chunk_origin c))) can_x (λ n. refl)
          (λ u n. refl) refl (λ u. refl)
      ∙ ap (λ o. other_chunk b o) (sym (by_x (pos 1)))

  low_y :
      at_border (is_at b.block.y 0) (try_offset_chunk b.chunk (pos 0) (negsuc 0) (pos 0))
      ≡ beyond b (pos 0) (negsuc 0) (pos 0)
  low_y =
      ap (λ o. at_border (is_at b.block.y 0) o) (chunk_by_y (negsuc 0))
      ∙ low b y put_y (λ c. chunk_value (block_axis_y (chunk_origin c))) can_y (λ n. refl)
          (λ u n. refl) refl (λ u. refl)
      ∙ ap (λ o. other_chunk b o) (sym (by_y (negsuc 0)))

  high_y :
      at_border (is_at b.block.y 15) (try_offset_chunk b.chunk (pos 0) (pos 1) (pos 0))
      ≡ beyond b (pos 0) (pos 1) (pos 0)
  high_y =
      ap (λ o. at_border (is_at b.block.y 15) o) (chunk_by_y (pos 1))
      ∙ high b y put_y (λ c. chunk_value (block_axis_y (chunk_origin c))) can_y (λ n. refl)
          (λ u n. refl) refl (λ u. refl)
      ∙ ap (λ o. other_chunk b o) (sym (by_y (pos 1)))

  low_z :
      at_border (is_at b.block.z 0) (try_offset_chunk b.chunk (pos 0) (pos 0) (negsuc 0))
      ≡ beyond b (pos 0) (pos 0) (negsuc 0)
  low_z =
      ap (λ o. at_border (is_at b.block.z 0) o) (chunk_by_z (negsuc 0))
      ∙ low b z put_z (λ c. chunk_value (block_axis_z (chunk_origin c))) can_z (λ n. refl)
          (λ u n. refl) refl (λ u. refl)
      ∙ ap (λ o. other_chunk b o) (sym (by_z (negsuc 0)))

  high_z :
      at_border (is_at b.block.z 15) (try_offset_chunk b.chunk (pos 0) (pos 0) (pos 1))
      ≡ beyond b (pos 0) (pos 0) (pos 1)
  high_z =
      ap (λ o. at_border (is_at b.block.z 15) o) (chunk_by_z (pos 1))
      ∙ high b z put_z (λ c. chunk_value (block_axis_z (chunk_origin c))) can_z (λ n. refl)
          (λ u n. refl) refl (λ u. refl)
      ∙ ap (λ o. other_chunk b o) (sym (by_z (pos 1)))

  -- The list of the code is the list of the neighbours.
  pub for_block-touched : for_block b ≡ touched b
  unfolding for_block touched
  for_block-touched =
      λ i. b.chunk ∷ (low_x i ++ (high_x i ++ (low_y i ++ (high_y i ++ (low_z i ++ high_z i)))))
