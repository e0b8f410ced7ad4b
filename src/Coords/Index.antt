-- ===== src/Coords/Index.antt =====
-- world/coordinates/Coords.part03.hpp: `blockIndex` and `chunkIndex`, the flat index of a block in
-- its chunk and of a chunk in its group. `none` is the throw.
use clone_craft.Base.{
  ℕ, ◌+◌, ◌*◌, ◌/◌, ◌%◌, ◌^◌, ◌<◌, ◌≡◌, refl, Option, none, some, if◌then◌else◌, arith, Bool, true,
  false,
}
use clone_craft.Base.Int.{ℤ, pos, negsuc, pos_part}
use clone_craft.Coords.{Coord, valid_coord, blocks_per_chunk_edge, chunks_per_group_edge}

-- The cast to `uint32_t` of a number that is not negative.
unfoldable pub block_index : Coord → Option ℕ
unfolding valid_coord
block_index local =
    if valid_coord local blocks_per_chunk_edge
    then some (
        ((pos_part local.x * blocks_per_chunk_edge + pos_part local.y) * blocks_per_chunk_edge
          + pos_part local.z)
        % 2 ^ 32)
    else none

unfoldable pub chunk_index : Coord → Option ℕ
unfolding valid_coord
chunk_index local =
    if valid_coord local chunks_per_group_edge
    then some (
        ((pos_part local.x * chunks_per_group_edge + pos_part local.y) * chunks_per_group_edge
          + pos_part local.z)
        % 2 ^ 32)
    else none

-- The coordinate at an index.
abbrev pub coord_at : ℕ → Coord
coord_at i = record { x = pos (i / 256); y = pos (i / 16 % 16); z = pos (i % 16) }

index-coord_at :
    (x y z : ℤ) (i : ℕ)
    → block_index (record { x = x; y = y; z = z }) ≡ some i
    → (i < 4096) × (coord_at i ≡ record { x = x; y = y; z = z })
unfolding block_index
index-coord_at (pos x) (pos y) (pos z) i h =
    (ground arith, at (ground arith) (ground arith) (ground arith))
  where
    at :
        i / 256 ≡ x
        → i / 16 % 16 ≡ y
        → i % 16 ≡ z
        → coord_at i ≡ record { x = pos x; y = pos y; z = pos z }
    at p q r = rw (p, q, r) refl
index-coord_at (pos x) (pos y) (negsuc z) i h = absurd (ground arith)
index-coord_at (pos x) (negsuc y) z i h = absurd (ground arith)
index-coord_at (negsuc x) y z i h = absurd (ground arith)

-- Every local coordinate of a chunk has an index below 4096, from which it can be read back, so
-- that no two share one; a coordinate outside the chunk has none.
pub block_index-coord_at :
    (local : Coord) (i : ℕ) → block_index local ≡ some i → (i < 4096) × (coord_at i ≡ local)
unfolding block_index
block_index-coord_at local i h = index-coord_at local.x local.y local.z i h

pub chunk_index-coord_at :
    (local : Coord) (i : ℕ) → chunk_index local ≡ some i → (i < 4096) × (coord_at i ≡ local)
unfolding block_index chunk_index
chunk_index-coord_at local i h = block_index-coord_at local i h

chosen : (b : Bool) (x : ℕ) → b ≡ true → (i : ℕ) × ((if b then some x else none) ≡ some i)
chosen true x h = (x, refl)
chosen false x h = absurd (ground (arith, h))

pub block_index-valid_coord :
    (local : Coord) (i : ℕ)
    → block_index local ≡ some i
    → valid_coord local blocks_per_chunk_edge ≡ true
unfolding block_index
block_index-valid_coord local i h = kept (valid_coord local blocks_per_chunk_edge) _ i h
  where
    kept :
        (b : Bool) (x i : ℕ) → ◌≡◌ {A = Option ℕ} (if b then some x else none) (some i) → b ≡ true
    kept true x i e = refl
    kept false x i e = absurd (ground (arith, e))

-- A valid coordinate has an index.
pub block_index_valid :
    (local : Coord)
    → valid_coord local blocks_per_chunk_edge ≡ true
    → (i : ℕ) × (block_index local ≡ some i)
unfolding block_index
block_index_valid local h = chosen _ _ h

pub chunk_index_valid :
    (local : Coord)
    → valid_coord local chunks_per_group_edge ≡ true
    → (i : ℕ) × (chunk_index local ≡ some i)
unfolding chunk_index
chunk_index_valid local h = chosen _ _ h
