-- ===== src/Chunks/Chunk/Cells.antt =====
-- The cells of a chunk, and how many are not air.
use clone_craft.Base.{
  ℕ, zero, suc, ◌+◌, ◌≤◌, ◌<◌, ◌≡◌, refl, ap, List, [], ◌∷◌, ◌==◌, length, if◌then◌else◌, arith,
}
use clone_craft.Chunks.Chunk.{cell, set_cell, non_air, all_air}

pub length-set_cell : (bs : List ℕ) (i id : ℕ) → length (set_cell bs i id) ≡ length bs
unfolding set_cell
length-set_cell [] i id = refl
length-set_cell (b ∷ bs) zero id = refl
length-set_cell (b ∷ bs) (suc i) id = ap (λ n. suc n) (length-set_cell bs i id)

pub cell-set_cell :
    (bs : List ℕ) (i j id : ℕ)
    → i < length bs
    → cell (set_cell bs i id) j ≡ (if i == j then id else cell bs j)
unfolding cell set_cell
cell-set_cell [] i j id h = absurd (omega (arith, h))
cell-set_cell (b ∷ bs) zero zero id h = refl
cell-set_cell (b ∷ bs) zero (suc j) id h = ground arith
cell-set_cell (b ∷ bs) (suc i) zero id h = ground arith
cell-set_cell (b ∷ bs) (suc i) (suc j) id h = ground (arith, cell-set_cell bs i j id)

-- A write moves the count by what the old and the new block count for.
pub non_air-set_cell :
    (bs : List ℕ) (i id : ℕ)
    → i < length bs
    → non_air (set_cell bs i id) + (if cell bs i == 0 then 0 else 1)
      ≡ non_air bs + (if id == 0 then 0 else 1)
unfolding cell set_cell non_air
non_air-set_cell [] i id h = absurd (omega (arith, h))
non_air-set_cell (b ∷ bs) zero id h = omega arith
non_air-set_cell (b ∷ bs) (suc i) id h = omega (arith, non_air-set_cell bs i id (omega (arith, h)))

pub non_air-le-length : (bs : List ℕ) → non_air bs ≤ length bs
unfolding non_air
non_air-le-length [] = omega arith
non_air-le-length (b ∷ bs) = ground (arith, non_air-le-length bs)

pub length-all_air : (n : ℕ) → length (all_air n) ≡ n
unfolding all_air
length-all_air zero = refl
length-all_air (suc n) = ap (λ k. suc k) (length-all_air n)

pub non_air-all_air : (n : ℕ) → non_air (all_air n) ≡ 0
unfolding all_air non_air
non_air-all_air zero = refl
non_air-all_air (suc n) = omega (arith, non_air-all_air n)

pub cell-all_air : (n i : ℕ) → cell (all_air n) i ≡ 0
unfolding cell all_air
cell-all_air zero i = refl
cell-all_air (suc n) zero = refl
cell-all_air (suc n) (suc i) = cell-all_air n i
