-- ===== src/Chunks/Manager/View.antt =====
-- The world of blocks that a manager stands for: the block and the overrides at each address.
use clone_craft.Base.{
  ℕ, ◌<◌, ◌≡◌, ◌≢◌, sym, ap, ◌∙◌, String, true, false, Option, none, some, ◌==◌, same, nat_key,
  arith, and_split, and_join,
}
use clone_craft.Values.{PropertyValue}
use clone_craft.Exec.{ok, and_then}
use clone_craft.Coords.{BlockAddress, canonical_chunk, canonical_block}
use clone_craft.Coords.Index.{
  chunk_index, block_index, coord_at, block_index-coord_at, block_index_valid,
  block_index-valid_coord, chunk_index_valid,
}
use clone_craft.State.Hierarchy.{group_key, chunk_key, block_key}
use clone_craft.Chunks.Chunk
use clone_craft.Chunks.Chunk.{Chunk, cell, get_property}
use clone_craft.Chunks.Manager.{ChunkManager, try_block_at, block_in, block_property, property_in}
use clone_craft.Chunks.Manager.Placement.{chunk_of, chunk_at-chunk_of}

abbrev pub seen : Option ℕ → Option Chunk → Option ℕ
seen (some k) (some c) = some (cell c.blocks k)
seen (some k) none = none
seen none (some c) = none
seen none none = none

abbrev pub held : Option ℕ → String → Option Chunk → Option PropertyValue
held (some k) q (some c) = get_property k q c
held (some k) q none = none
held none q (some c) = none
held none q none = none

-- The block at an address, where its chunk is loaded.
unfoldable pub view : BlockAddress → ChunkManager → Option ℕ
view b m = seen (block_index b.block) (chunk_of b.chunk m)

-- The override of a property at an address.
unfoldable pub override : BlockAddress → String → ChunkManager → Option PropertyValue
override b q m = held (block_index b.block) q (chunk_of b.chunk m)

-- The place of a canonical block: the index of its chunk and its own.
pub record Place (b : BlockAddress) : Type 0 where
  pub i : ℕ
  pub k : ℕ
  pub chunk_at_i : chunk_index b.chunk.chunk ≡ some i
  pub block_at_k : block_index b.block ≡ some k
  pub canonical : canonical_chunk b.chunk ≡ true
  pub low : k < 4096

pub place_of : (b : BlockAddress) → canonical_block b ≡ true → Place b
unfolding canonical_block canonical_chunk
place_of b h =
    let (chunk, block) = and_split _ _ h in
    let (i, e) = chunk_index_valid b.chunk.chunk (and_split _ _ chunk).1 in
    let (k, f) = block_index_valid b.block block in
    record {
      i = i;
      k = k;
      chunk_at_i = e;
      block_at_k = f;
      canonical = chunk;
      low = (block_index-coord_at b.block k f).0;
    }

pub place-canonical : (b : BlockAddress) → Place b → canonical_block b ≡ true
unfolding canonical_block
place-canonical b p = and_join _ _ p.canonical (block_index-valid_coord b.block p.k p.block_at_k)

-- Two places of one chunk with one index are one block.
pub same_place :
    (b c : BlockAddress) (p : Place b) (q : Place c) → b.chunk ≡ c.chunk → p.k ≡ q.k → b ≡ c
same_place b c p q chunks indices =
    let blocks : b.block ≡ c.block =
      sym (block_index-coord_at b.block p.k p.block_at_k).1
      ∙ ap (λ k. coord_at k) indices
      ∙ (block_index-coord_at c.block q.k q.block_at_k).1 in
    λ t. record { chunk = chunks t; block = blocks t }

pub other_index : (b c : BlockAddress) (p : Place b) (q : Place c) → b ≡ c → p.k ≡ q.k
other_index b c p q e =
    ground (arith, p.block_at_k, q.block_at_k, ap (λ (x : BlockAddress). block_index x.block) e)

-- The reads of the manager are the view, and they do not throw at a canonical address.
pub try_block_at-view :
    (b : BlockAddress) (m : ChunkManager) → Place b → try_block_at b m ≡ ok (view b m)
unfolding try_block_at view block_in Chunk.block
try_block_at-view b m p =
    ap (λ r. and_then r λ c. block_in b.block c) (chunk_at-chunk_of b.chunk p.i m p.chunk_at_i)
    ∙ at (chunk_of b.chunk m)
  where
    at : (o : Option Chunk) → block_in b.block o ≡ ok (seen (block_index b.block) o)
    at none = ground (arith, p.block_at_k)
    at (some c) = ground (arith, p.block_at_k)

pub block_property-override :
    (b : BlockAddress) (q : String) (m : ChunkManager)
    → Place b
    → block_property b q m ≡ ok (override b q m)
unfolding block_property override property_in
block_property-override b q m p =
    ap (λ r. and_then r λ c. property_in b.block q c) (chunk_at-chunk_of b.chunk p.i m p.chunk_at_i)
    ∙ at (chunk_of b.chunk m)
  where
    at : (o : Option Chunk) → property_in b.block q o ≡ ok (held (block_index b.block) q o)
    at none = ground (arith, p.block_at_k)
    at (some c) = ground (arith, p.block_at_k)

-- How two blocks may lie to each other.
pub data Related (b c : BlockAddress) (p : Place b) (q : Place c) : Type 0 where
  equal : b ≡ c → p.k ≡ q.k → b.chunk ≡ c.chunk → Related b c p q
  beside : b ≢ c → (p.k == q.k) ≡ false → p.k ≢ q.k → b.chunk ≡ c.chunk → Related b c p q
  apart : b ≢ c → b.chunk ≢ c.chunk → Related b c p q

pub related : (b c : BlockAddress) (p : Place b) (q : Place c) → Related b c p q
related b c p q = elim (same b.chunk c.chunk) [
  | yes e ↦ elim (same p.k q.k) [
    | yes k ↦ equal (same_place b c p q e k) k e
    | no n ↦ beside (λ f. n (other_index b c p q f)) (ground (arith, n)) n e
  ]
  | no n ↦ apart (λ e. n (ap (λ (x : BlockAddress). x.chunk) e)) n
]

pub view-loaded :
    (b : BlockAddress) (p : Place b) (c : Chunk) (m : ChunkManager)
    → chunk_of b.chunk m ≡ some c
    → view b m ≡ some (cell c.blocks p.k)
unfolding view
view-loaded b p c m h = ground (arith, p.block_at_k, h)

pub view-absent :
    (b : BlockAddress) (m : ChunkManager) → Place b → chunk_of b.chunk m ≡ none → view b m ≡ none
unfolding view
view-absent b m p h = ground (arith, p.block_at_k, h)

pub override-absent :
    (b : BlockAddress) (q : String) (m : ChunkManager)
    → Place b
    → chunk_of b.chunk m ≡ none
    → override b q m ≡ none
unfolding override
override-absent b q m p h = ground (arith, p.block_at_k, h)
