-- ===== src/Chunks/Manager/Blocks.antt =====
-- What a write of a block does to the world of blocks.
use clone_craft.Base.{
  length, ℕ, ◌<◌, ◌≡◌, refl, sym, ap, ◌∙◌, String, true, false, none, some, ◌++◌, ◌==◌, ite, same,
  if_pos, if_neg, nat_key, arith, if◌then◌else◌,
}
use clone_craft.Exec.{ok, >>=-ok, >>-ok}
use clone_craft.Coords.{BlockAddress}
use clone_craft.Coords.Index.{block_index}
use clone_craft.State.Hierarchy.{group_key, chunk_key, block_key}
use clone_craft.Chunks.Chunk
use clone_craft.Chunks.Chunk.{Chunk, cell, get_property, write_block, fresh, volume}
use clone_craft.Chunks.Chunk.Invariant.{IsChunk, write_block-IsChunk}
use clone_craft.Chunks.Chunk.Access.{address-write_block, write_block-cell, write_block-property}
use clone_craft.Chunks.Group.{for_block}
use clone_craft.Chunks.Group.Touched.{touched}
use clone_craft.Chunks.Group.Touched.Listed.{for_block-touched}
use clone_craft.Chunks.Manager.{ChunkManager, write_chunk, notify_all, replace, replace_if, or_air}
use clone_craft.Chunks.Manager.Placement.{IsManager, chunk_of}
use clone_craft.Chunks.Manager.Writes.{
  group_found, write_chunk-chunk_of, write_chunk-IsManager, write_chunk-changes,
}
use clone_craft.Chunks.Manager.View.{
  view-loaded, related, equal, beside, apart, place-canonical, view, override, Place, seen, held,
}

-- What a changed block does: the block is new and has no overrides; if its chunk was not loaded, it
-- now is, with air everywhere else; no other block and no other override changes; the observers hear
-- of the chunk of the block and of those of its six neighbours that are in another chunk.
pub record Wrote (b : BlockAddress) (id : ℕ) (m m' : ChunkManager) : Type 0 where
  pub managed : IsManager m'
  pub blocks :
      (c : BlockAddress)
      → Place c
      → view c m'
        ≡ ite
            (same b c)
            (some id)
            (ite (same b.chunk c.chunk) (some (or_air (view c m))) (view c m))
  pub overrides :
      (c : BlockAddress) (q : String)
      → Place c
      → override c q m' ≡ ite (same b c) none (override c q m)
  pub heard : m'.changes ≡ (if m.observed then m.changes ++ touched b else m.changes)

module _ (b : BlockAddress) (id : ℕ) (p : Place b) where
  abbrev pub after : Chunk → ChunkManager → ChunkManager
  after c m = notify_all (for_block b) (write_chunk b.chunk (write_block p.k id c) m)

  pub replace-unchanged :
      (c : Chunk) (m : ChunkManager)
      → (cell c.blocks p.k == id) ≡ true
      → replace b id c m ≡ (ok false, m)
  unfolding replace replace_if Chunk.block
  replace-unchanged c m h =
      >>=-ok _ _ m m (cell c.blocks p.k) (ground (arith, p.block_at_k))
      ∙ ap (λ t. replace_if t b id c m) h

  pub replace-changed :
      (c : Chunk) (m : ChunkManager)
      → (cell c.blocks p.k == id) ≡ false
      → replace b id c m ≡ (ok true, after c m)
  unfolding replace replace_if Chunk.block Chunk.set_block
  replace-changed c m h =
      >>=-ok _ _ m m (cell c.blocks p.k) (ground (arith, p.block_at_k))
      ∙ ap (λ t. replace_if t b id c m) h
      ∙ >>=-ok _ _ m m (write_block p.k id c) (ground (arith, p.block_at_k))
      ∙ >>-ok _ _ m (after c m) tt refl

  module _ (m : ChunkManager) (v : IsManager m) (c : Chunk) (found : chunk_of b.chunk m ≡ some c)
      (differs : (cell c.blocks p.k == id) ≡ false) where
    chunk_ordered : IsChunk c
    chunk_ordered =
        let (g, at, there) = group_found b.chunk p.i p.chunk_at_i c m found in
        ((v.grouped b.chunk.group g at).holds.held p.i c there).1

    chunk_after :
        (d : BlockAddress)
        → Place d
        → chunk_of d.chunk (after c m)
          ≡ ite (same b.chunk d.chunk) (some (write_block p.k id c)) (chunk_of d.chunk m)
    unfolding chunk_of
    chunk_after d q =
        write_chunk-chunk_of b.chunk p.i p.chunk_at_i d.chunk q.i c (write_block p.k id c) m v
          q.chunk_at_i found

    within : p.k < length c.blocks
    within = omega (arith, p.low, chunk_ordered.sized)

    here : (d : BlockAddress) → b.chunk ≡ d.chunk → chunk_of d.chunk m ≡ some c
    here d e = ap (λ a. chunk_of a m) (sym e) ∙ found

    view-after :
        (d : BlockAddress) → Place d → view d (after c m) ≡ ite (same b d) (some id) (view d m)
    unfolding view
    view-after d q =
        ap (λ o. seen (block_index d.block) o) (chunk_after d q) ∙ elim (related b d p q) [
          | equal f k e ↦
              rw (if_pos _ e, if_pos _ f, q.block_at_k)
                (ap (λ n. some n) (write_block-cell p.k q.k id c within ∙ ground (arith, k)))
          | beside n k _ e ↦
              rw (if_pos _ e, if_neg _ n, q.block_at_k)
                (ap (λ n. some n) (write_block-cell p.k q.k id c within ∙ ground (arith, k))
                  ∙ ap (λ o. seen (some q.k) o) (sym (here d e)))
          | apart n e ↦ rw (if_neg _ e, if_neg _ n) refl
        ]

    override-after :
        (d : BlockAddress) (name : String)
        → Place d
        → override d name (after c m) ≡ ite (same b d) none (override d name m)
    unfolding override
    override-after d name q =
        ap (λ o. held (block_index d.block) name o) (chunk_after d q) ∙ elim (related b d p q) [
          | equal f k e ↦
              rw (if_pos _ e, if_pos _ f, q.block_at_k)
                (write_block-property p.k q.k id name c ∙ ground (arith, k, differs))
          | beside n _ k e ↦
              rw (if_pos _ e, if_neg _ n, q.block_at_k)
                (write_block-property p.k q.k id name c
                  ∙ ground (arith, k, differs)
                  ∙ ap (λ o. held (some q.k) name o) (sym (here d e)))
          | apart n e ↦ rw (if_neg _ e, if_neg _ n) refl
        ]

    managed_after : IsManager (after c m)
    managed_after = record {
      grouped =
          (write_chunk-IsManager b.chunk p.i p.chunk_at_i c (write_block p.k id c) m v found
            (write_block-IsChunk p.k id c chunk_ordered p.low)
            (address-write_block p.k id c)).grouped;
    }

    heard_after : (after c m).changes ≡ (if m.observed then m.changes ++ touched b else m.changes)
    heard_after =
        let (changes, observed) =
          write_chunk-changes b.chunk p.i p.chunk_at_i c (write_block p.k id c) m v found in
        λ t.
          if observed t then changes t ++ for_block-touched b (place-canonical b p) t else changes t

    kept :
        (d : BlockAddress)
        → Place d
        → view d m ≡ ite (same b.chunk d.chunk) (some (or_air (view d m))) (view d m)
    kept d q = elim (same b.chunk d.chunk) [
      | yes e ↦ rw (if_pos _ e, view-loaded d q c m (here d e)) refl
      | no n ↦ rw (if_neg _ n) refl
    ]

    pub after-Wrote : Wrote b id m (after c m)
    after-Wrote = record {
      managed = managed_after;
      blocks = λ d q. view-after d q ∙ ap (λ o. ite (same b d) (some id) o) (kept d q);
      overrides = override-after;
      heard = heard_after;
    }
