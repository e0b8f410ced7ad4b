-- ===== src/Chunks/Chunk/Invariant.antt =====
-- A chunk counts its blocks rightly, keeps no empty sidecar and no override of an air block.
use clone_craft.Base.{
  ℕ, ◌<◌, ◌≡◌, refl, sym, ◌∙◌, subst, String, true, false, Option, none, some, List, ◌==◌, length,
  if_both, and_split, ==_iff, string_key, nat_key, arith,
}
use clone_craft.Assoc.{find, is_some, find-empty, empty}
use clone_craft.Exec.{ok, require-eq-ok, ok_injective}
use clone_craft.Coords.{Coord, ChunkAddress, canonical_chunk}
use clone_craft.Coords.Index.{block_index, block_index-coord_at}
use clone_craft.Chunks.Sidecar
use clone_craft.Chunks.Sidecar.{Sidecar, is_empty_sidecar, set_with_default}
use clone_craft.Chunks.Chunk.{
  Chunk, PropertySidecar, cell, set_cell, non_air, volume, recounted, write_block, get_property,
  read_sidecar, set_block, set_block_at, fresh, assign_blocks, assign_counted,
}
use clone_craft.Chunks.Chunk.Cells.{
  length-set_cell, non_air-set_cell, non_air-le-length, length-all_air, non_air-all_air,
  cell-all_air,
}
use clone_craft.Chunks.Chunk.Sweep.{clean, find-sweep}
use clone_craft.Chunks.Chunk.Access.{write_block-cell, write_block-property}

pub record IsChunk (c : Chunk) : Type 0 where
  pub placed : canonical_chunk c.address ≡ true
  pub sized : length c.blocks ≡ volume
  pub counted : c.non_air_count ≡ non_air c.blocks
  pub lean :
      (id : String) (s : PropertySidecar)
      → find id c.sidecars ≡ some s
      → (is_empty_sidecar s ≡ false) × (s.capacity ≡ volume)
  pub living :
      (id : String) (i : ℕ)
      → is_some (get_property i id c) ≡ true
      → (i < volume) × ((cell c.blocks i == 0) ≡ false)

nothing-living :
    (i : ℕ) (id : String) → is_some (read_sidecar i (find id (empty {K = String}))) ≡ true → ⊥
nothing-living i id h = ground (arith, h, find-empty {V = PropertySidecar} id)

pub fresh-IsChunk : (a : ChunkAddress) → canonical_chunk a ≡ true → IsChunk (fresh a)
unfolding fresh get_property
fresh-IsChunk a placed = record {
  placed = placed;
  sized = length-all_air volume;
  counted = sym (non_air-all_air volume);
  lean = λ id s k. absurd (ground (arith, k, find-empty {V = PropertySidecar} id));
  living = λ id i k. absurd (nothing-living i id k);
}

pub address-fresh : (a : ChunkAddress) → (fresh a).address ≡ a
unfolding fresh
address-fresh a = refl

-- A new chunk is all air and has no overrides.
pub cell-fresh : (a : ChunkAddress) (i : ℕ) → cell (fresh a).blocks i ≡ 0
unfolding fresh
cell-fresh a i = cell-all_air volume i

pub get_property-fresh :
    (a : ChunkAddress) (i : ℕ) (id : String) → get_property i id (fresh a) ≡ none
unfolding fresh get_property
get_property-fresh a i id = ground (arith, find-empty {V = PropertySidecar} id)

clean-lean :
    (i : ℕ) (o : Option PropertySidecar) (s : PropertySidecar)
    → clean i o ≡ some s
    → ((t : PropertySidecar) → o ≡ some t → t.capacity ≡ volume)
    → (is_empty_sidecar s ≡ false) × (s.capacity ≡ volume)
unfolding clean Sidecar.remove
clean-lean i none s h caps = absurd (ground (arith, h))
clean-lean i (some t) s h caps = ground (arith, h, caps t refl)

module _ (i id : ℕ) (c : Chunk) (v : IsChunk c) (low : i < volume) where
  within : i < length c.blocks
  within = omega (arith, low, v.sized)

  recounted_right :
      (cell c.blocks i == id) ≡ false
      → recounted (cell c.blocks i) id c.non_air_count ≡ non_air (set_cell c.blocks i id)
  recounted_right changed = ground (
    arith,
    changed,
    v.counted,
    v.sized,
    non_air-le-length c.blocks,
    non_air-set_cell c.blocks i id within,
  )

  pub write_block-IsChunk : IsChunk (write_block i id c)
  unfolding write_block
  write_block-IsChunk = record {
    placed =
        if_both (λ (t : Chunk). canonical_chunk t.address ≡ true) (cell c.blocks i == id) _ _
          (λ k. v.placed) (λ k. v.placed);
    sized =
        if_both (λ (t : Chunk). length t.blocks ≡ volume) (cell c.blocks i == id) _ _ (λ k. v.sized)
          (λ k. length-set_cell c.blocks i id ∙ v.sized);
    counted =
        if_both (λ (t : Chunk). t.non_air_count ≡ non_air t.blocks) (cell c.blocks i == id) _ _
          (λ k. v.counted) recounted_right;
    lean = λ q s.
        if_both
          (λ (t : Chunk).
            find q t.sidecars ≡ some s → (is_empty_sidecar s ≡ false) × (s.capacity ≡ volume))
          (cell c.blocks i == id) _ _ (λ k h. v.lean q s h)
          (λ k h.
            clean-lean i (find q c.sidecars) s (sym (find-sweep i q c.sidecars) ∙ h)
              (λ t found. (v.lean q t found).1));
    living = λ q j h.
        ground (
          arith,
          h,
          v.living q j,
          write_block-property i j id q c,
          write_block-cell i j id c within,
        );
  }

-- A block that is written keeps the chunk in order.
pub set_block-IsChunk :
    (local : Coord) (id : ℕ) (c c' : Chunk) → IsChunk c → set_block local id c ≡ ok c' → IsChunk c'
unfolding set_block set_block_at
set_block-IsChunk local id c c' v h = at (block_index local) refl h
  where
    at : (o : Option ℕ) → block_index local ≡ o → set_block_at o id c ≡ ok c' → IsChunk c'
    at none e k = absurd (ground (arith, k))
    at (some i) e k =
        subst IsChunk (ok_injective k)
          (write_block-IsChunk i id c v (block_index-coord_at local i e).0)

pub assign_blocks-IsChunk :
    (blocks : List ℕ) (c c' : Chunk) → IsChunk c → assign_blocks blocks c ≡ ok c' → IsChunk c'
unfolding assign_blocks get_property
assign_blocks-IsChunk blocks c c' v h =
    let (right, made) = require-eq-ok _ _ _ c' h in
    subst IsChunk (ok_injective made) (record {
      placed = v.placed;
      sized = (==_iff _ _).0 right;
      counted = refl;
      lean = λ id s k. absurd (ground (arith, k, find-empty {V = PropertySidecar} id));
      living = λ id i k. absurd (nothing-living i id k);
    })

-- With a count given from outside, the chunk is in order exactly if that count is right.
pub assign_counted-IsChunk :
    (blocks : List ℕ) (count : ℕ) (c c' : Chunk)
    → IsChunk c
    → count ≡ non_air blocks
    → assign_counted blocks count c ≡ ok c'
    → IsChunk c'
unfolding assign_counted get_property
assign_counted-IsChunk blocks count c c' v right h =
    let (fits, made) = require-eq-ok _ _ _ c' h in
    subst IsChunk (ok_injective made) (record {
      placed = v.placed;
      sized = (==_iff _ _).0 (and_split _ _ fits).0;
      counted = right;
      lean = λ id s k. absurd (ground (arith, k, find-empty {V = PropertySidecar} id));
      living = λ id i k. absurd (nothing-living i id k);
    })
