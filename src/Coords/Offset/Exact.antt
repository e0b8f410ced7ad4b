-- ===== src/Coords/Offset/Exact.antt =====
-- Offsets of whole addresses.
use clone_craft.Base.{some_injective, ℕ, and_split, and_join, ◌≡◌, subst, some, true, arith}
use clone_craft.Base.Int.{ℤ, ◌+ℤ◌}
use clone_craft.Coords.{
  Coord, BlockAddress, valid_local, valid_coord, canonical_group, canonical_chunk, canonical_block,
}
use clone_craft.Coords.Axis.{AxisAddress}
use clone_craft.Coords.Axis.Value.{
  value, IsCanonicalAxis, InRadix, and_then_some-eq-some, try_offset_axis-value,
}
use clone_craft.Coords.Offset.{
  block_axis_x, block_axis_y, block_axis_z, from_axes, try_offset_block,
}

valid_local-InRadix : (v : ℤ) (r : ℕ) → valid_local v r ≡ true → InRadix v r
unfolding valid_local
valid_local-InRadix v r h = (ground arith, ground arith)

InRadix-valid_local : (v : ℤ) (r : ℕ) → InRadix v r → valid_local v r ≡ true
unfolding valid_local
InRadix-valid_local v r (p, q) = ground (arith, p, q)

abbrev CoordInRadix : Coord → ℕ → Type 0
CoordInRadix c r = InRadix c.x r × (InRadix c.y r × InRadix c.z r)

valid_coord-InRadix : (c : Coord) (r : ℕ) → valid_coord c r ≡ true → CoordInRadix c r
unfolding valid_coord
valid_coord-InRadix c r h =
    let (x, rest) = and_split (valid_local c.x r) _ h in
    let (y, z) = and_split (valid_local c.y r) _ rest in
    (valid_local-InRadix c.x r x, (valid_local-InRadix c.y r y, valid_local-InRadix c.z r z))

InRadix-valid_coord : (c : Coord) (r : ℕ) → CoordInRadix c r → valid_coord c r ≡ true
unfolding valid_coord
InRadix-valid_coord c r (x, (y, z)) =
    and_join _ _ (InRadix-valid_local c.x r x)
      (and_join _ _ (InRadix-valid_local c.y r y) (InRadix-valid_local c.z r z))

-- An address is canonical when its three axes are.
pub canonical_block-axes :
    (a : BlockAddress)
    → canonical_block a ≡ true
    → IsCanonicalAxis (block_axis_x a)
      × (IsCanonicalAxis (block_axis_y a) × IsCanonicalAxis (block_axis_z a))
unfolding canonical_block canonical_chunk canonical_group
canonical_block-axes a h =
    let (upper, block) = and_split (canonical_chunk a.chunk) _ h in
    let (group, chunk) = and_split (canonical_group a.chunk.group) _ upper in
    let (region, lower) = and_split (valid_coord a.chunk.group.region _) _ group in
    let (section, inner) = and_split (valid_coord a.chunk.group.section _) _ lower in
    let (rx, (ry, rz)) = valid_coord-InRadix _ _ region in
    let (sx, (sy, sz)) = valid_coord-InRadix _ _ section in
    let (gx, (gy, gz)) = valid_coord-InRadix _ _ inner in
    let (cx, (cy, cz)) = valid_coord-InRadix _ _ chunk in
    let (bx, (by, bz)) = valid_coord-InRadix _ _ block in
    (
      record { region = rx; section = sx; group = gx; chunk = cx; block = bx },
      (
        record { region = ry; section = sy; group = gy; chunk = cy; block = by },
        record { region = rz; section = sz; group = gz; chunk = cz; block = bz },
      ),
    )

axes-canonical_block :
    (x y z : AxisAddress)
    → IsCanonicalAxis x
    → IsCanonicalAxis y
    → IsCanonicalAxis z
    → canonical_block (from_axes x y z) ≡ true
unfolding canonical_block canonical_chunk canonical_group
axes-canonical_block x y z p q r =
    and_join _ _
      (and_join _ _
        (and_join _ _ (InRadix-valid_coord _ _ (p.region, (q.region, r.region))) (
          and_join _ _ (InRadix-valid_coord _ _ (p.section, (q.section, r.section)))
            (InRadix-valid_coord _ _ (p.group, (q.group, r.group)))))
        (InRadix-valid_coord _ _ (p.chunk, (q.chunk, r.chunk))))
      (InRadix-valid_coord _ _ (p.block, (q.block, r.block)))

abbrev Exact : BlockAddress → ℤ → ℤ → ℤ → BlockAddress → Type 0
Exact base dx dy dz out =
    (canonical_block out ≡ true)
    × (value (block_axis_x out) ≡ value (block_axis_x base) +ℤ dx)
    × (value (block_axis_y out) ≡ value (block_axis_y base) +ℤ dy)
    × (value (block_axis_z out) ≡ value (block_axis_z base) +ℤ dz)

-- From a canonical block, an offset that is found leads to a canonical block whose position is
-- exactly that far away along each axis.
pub try_offset_block-exact :
    (base out : BlockAddress) (dx dy dz : ℤ)
    → canonical_block base ≡ true
    → try_offset_block base dx dy dz ≡ some out
    → (canonical_block out ≡ true)
      × (value (block_axis_x out) ≡ value (block_axis_x base) +ℤ dx)
      × (value (block_axis_y out) ≡ value (block_axis_y base) +ℤ dy)
      × (value (block_axis_z out) ≡ value (block_axis_z base) +ℤ dz)
unfolding try_offset_block
try_offset_block-exact base out dx dy dz can h =
    let (can_x, (can_y, can_z)) = canonical_block-axes base can in
    let (x, found_x, h₁) = and_then_some-eq-some _ _ out h in
    let (y, found_y, h₂) = and_then_some-eq-some _ _ out h₁ in
    let (z, found_z, made) = and_then_some-eq-some _ _ out h₂ in
    let (in_x, moved_x) = try_offset_axis-value (block_axis_x base) x dx can_x found_x in
    let (in_y, moved_y) = try_offset_axis-value (block_axis_y base) y dy can_y found_y in
    let (in_z, moved_z) = try_offset_axis-value (block_axis_z base) z dz can_z found_z in
    subst (Exact base dx dy dz) (some_injective made)
      (axes-canonical_block x y z in_x in_y in_z, moved_x, moved_y, moved_z)
