-- ===== src/Chunks/Manager/Properties.antt =====
-- What a write of a block property does to the world of blocks.
use clone_craft.Base.{
  ◌≡◌, refl, sym, ap, ◌∙◌, String, Bool, true, false, not, ◌&&◌, Option, none, some, ◌++◌, ◌==◌,
  ite, same, if_pos, if_neg, nat_key, string_key, arith, if◌then◌else◌,
}
use clone_craft.Assoc.{is_some}
use clone_craft.Values.{PropertyValue, value_eq}
use clone_craft.Exec.{Result, ok}
use clone_craft.Coords.{BlockAddress}
use clone_craft.Coords.Index.{block_index}
use clone_craft.State.Hierarchy.{group_key, chunk_key, block_key}
use clone_craft.Chunks.Sidecar.{holds}
use clone_craft.Chunks.Chunk.{Chunk, cell, get_property}
use clone_craft.Chunks.Chunk.Invariant.{IsChunk}
use clone_craft.Chunks.Group.{for_block}
use clone_craft.Chunks.Group.Touched.{touched}
use clone_craft.Chunks.Group.Touched.Listed.{for_block-touched}
use clone_craft.Chunks.Manager.{ChunkManager, write_chunk, notify_all, or_air}
use clone_craft.Chunks.Manager.Placement.{IsManager, chunk_of}
use clone_craft.Chunks.Manager.Writes.{
  group_found, write_chunk-chunk_of, write_chunk-IsManager, write_chunk-changes,
}
use clone_craft.Chunks.Manager.View.{
  place-canonical, view, override, Place, seen, held, view-absent,
}

-- Whether a block can hold an override: it is loaded and not air.
abbrev pub takes : BlockAddress → ChunkManager → Bool
takes b m = not (or_air (view b m) == 0)

-- Whether a write reports a change, and what it leaves.
abbrev pub reports : PropertyValue → PropertyValue → Option PropertyValue → Bool
reports v d old = if value_eq v d then is_some old else not (holds value_eq v old)

abbrev pub left : PropertyValue → PropertyValue → Option PropertyValue → Option PropertyValue
left v d old = if value_eq v d then none else if holds value_eq v old then old else some v

pub record PropertySet (b : BlockAddress) (name : String) (v d : PropertyValue) (m : ChunkManager)
    (r : Result Bool × ChunkManager) : Type 0 where
  pub returned : r.0 ≡ ok (takes b m && reports v d (override b name m))
  pub managed : IsManager r.1
  pub blocks : (c : BlockAddress) → Place c → view c r.1 ≡ view c m
  pub overrides :
      (c : BlockAddress) (n : String)
      → Place c
      → override c n r.1 ≡ (
          if takes b m
          then ite
              (same b c)
              (ite (same name n) (left v d (override b name m)) (override c n m))
              (override c n m)
          else override c n m)
  pub heard : r.1.changes ≡ (
      if takes b m && reports v d (override b name m)
      then if m.observed then m.changes ++ touched b else m.changes
      else m.changes)

module _ (b : BlockAddress) (name : String) (v d : PropertyValue) (p : Place b) (m : ChunkManager)
    (ordered : IsManager m) where
  pub absent-PropertySet : chunk_of b.chunk m ≡ none → PropertySet b name v d m (ok false, m)
  absent-PropertySet h =
      let e = view-absent b m p h in
      record {
        returned = ground (arith, e);
        managed = ordered;
        blocks = λ c q. refl;
        overrides = λ c n q. ground (arith, e);
        heard = ground (arith, e);
      }

  module _ (c : Chunk) (found : chunk_of b.chunk m ≡ some c) where
    pub chunk_ordered : IsChunk c
    chunk_ordered =
        let (g, at, there) = group_found b.chunk p.i p.chunk_at_i c m found in
        ((ordered.grouped b.chunk.group g at).holds.held p.i c there).1

    pub here : (e : BlockAddress) → b.chunk ≡ e.chunk → chunk_of e.chunk m ≡ some c
    here e h = ap (λ a. chunk_of a m) (sym h) ∙ found

    pub override-here : override b name m ≡ get_property p.k name c
    unfolding override
    override-here = ground (arith, p.block_at_k, found)

    abbrev pub result : Bool × Chunk → Result Bool × ChunkManager
    result r =
        let written = write_chunk b.chunk r.1 m in
        (ok r.0, if r.0 then notify_all (for_block b) written else written)

    groups_written : (r : Bool × Chunk) → (result r).1.groups ≡ (write_chunk b.chunk r.1 m).groups
    groups_written (true, c') = refl
    groups_written (false, c') = refl

    pub chunk_after :
        (r : Bool × Chunk) (e : BlockAddress)
        → Place e
        → chunk_of e.chunk (result r).1 ≡ ite (same b.chunk e.chunk) (some r.1) (chunk_of e.chunk m)
    unfolding chunk_of
    chunk_after (true, c') e q =
        write_chunk-chunk_of b.chunk p.i p.chunk_at_i e.chunk q.i c c' m ordered q.chunk_at_i found
    chunk_after (false, c') e q =
        write_chunk-chunk_of b.chunk p.i p.chunk_at_i e.chunk q.i c c' m ordered q.chunk_at_i found

    pub heard_after :
        (r : Bool × Chunk)
        → (result r).1.changes
          ≡ (if r.0 then if m.observed then m.changes ++ touched b else m.changes else m.changes)
    heard_after (true, c') =
        let (changes, observed) =
          write_chunk-changes b.chunk p.i p.chunk_at_i c c' m ordered found in
        λ t.
          if observed t then changes t ++ for_block-touched b (place-canonical b p) t else changes t
    heard_after (false, c') = (write_chunk-changes b.chunk p.i p.chunk_at_i c c' m ordered found).0

    pub managed_after :
        (r : Bool × Chunk) → IsChunk r.1 → r.1.address ≡ c.address → IsManager (result r).1
    managed_after (true, c') w a = record {
      grouped = (write_chunk-IsManager b.chunk p.i p.chunk_at_i c c' m ordered found w a).grouped;
    }
    managed_after (false, c') w a =
        write_chunk-IsManager b.chunk p.i p.chunk_at_i c c' m ordered found w a

    -- Blocks stay, and the chunk's overrides are those of the new chunk.
    pub view_after :
        (r : Bool × Chunk) (e : BlockAddress)
        → r.1.blocks ≡ c.blocks
        → Place e
        → view e (result r).1 ≡ view e m
    unfolding view
    view_after r e kept q =
        ap (λ o. seen (block_index e.block) o) (chunk_after r e q) ∙ elim (same b.chunk e.chunk) [
          | yes h ↦
              rw (if_pos _ h, q.block_at_k)
                (ap (λ bs. some (cell bs q.k)) kept ∙ ap (λ o. seen (some q.k) o) (sym (here e h)))
          | no n ↦ rw (if_neg _ n) refl
        ]

    pub override_after :
        (r : Bool × Chunk) (e : BlockAddress) (n : String)
        → Place e
        → override e n (result r).1
          ≡ ite (same b.chunk e.chunk) (held (block_index e.block) n (some r.1)) (override e n m)
    unfolding override
    override_after r e n q =
        ap (λ o. held (block_index e.block) n o) (chunk_after r e q) ∙ elim (same b.chunk e.chunk) [
          | yes h ↦ rw (if_pos _ h, if_pos _ h) refl
          | no k ↦ rw (if_neg _ k, if_neg _ k) refl
        ]

    pub override-at :
        (e : BlockAddress) (n : String) (q : Place e)
        → b.chunk ≡ e.chunk
        → override e n m ≡ get_property q.k n c
    unfolding override
    override-at e n q h = ground (arith, q.block_at_k, here e h)
