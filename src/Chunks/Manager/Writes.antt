-- ===== src/Chunks/Manager/Writes.antt =====
-- A write through a pointer to a chunk, and the chunk that is created where none is loaded.
use clone_craft.Base.{
  ℕ, ◌≡◌, sym, ap, ◌∙◌, subst, some, ite, same, nat_key, arith, Option-cases, inl, inr,
}
use clone_craft.Assoc.{find, put}
use clone_craft.Coords.{Coord, GroupAddress, ChunkAddress}
use clone_craft.Coords.Index.{chunk_index, chunk_index-coord_at}
use clone_craft.State.Hierarchy.{group_key, chunk_key}
use clone_craft.Chunks.Chunk.{Chunk}
use clone_craft.Chunks.Chunk.Invariant.{IsChunk}
use clone_craft.Chunks.Group.{ChunkGroup, address_in}
use clone_craft.Chunks.Manager.{ChunkManager, write_chunk, write_chunk_in}
use clone_craft.Chunks.Manager.Placement.{
  IsManager, chunk_of, in_group, put_chunk-IsGroup, put_group-IsManager, put_group-chunk_of,
}

module _ (a : ChunkAddress) (i : ℕ) (index : chunk_index a.chunk ≡ some i) where
  pub at_index : address_in a.group i ≡ a
  at_index =
      ap (λ (c : Coord). record { group = a.group; chunk = c })
        (chunk_index-coord_at a.chunk i index).1

  abbrev with_chunk : Chunk → ChunkGroup → ChunkManager → ChunkManager
  with_chunk c g m = record m {
    groups = put a.group (record g { chunks = put i c g.chunks }) m.groups;
  }

  pub group_found :
      (c : Chunk) (m : ChunkManager)
      → chunk_of a m ≡ some c
      → (g : ChunkGroup) × (find a.group m.groups ≡ some g) × (find i g.chunks ≡ some c)
  unfolding chunk_of
  group_found c m h = elim (Option-cases (find a.group m.groups)) [
    | inl absent ↦ absurd (ground (arith, h, absent, index))
    | inr (g, e) ↦ (g, e, ground (arith, h, e, index))
  ]

  write_chunk_lem :
      (c : Chunk) (g : ChunkGroup) (m : ChunkManager)
      → find a.group m.groups ≡ some g
      → g.address ≡ a.group
      → write_chunk a c m ≡ with_chunk c g m
  unfolding write_chunk write_chunk_in
  write_chunk_lem c g m found placed =
      ap (λ o. write_chunk_in o c (find a.group m.groups) m) index
      ∙ ap (λ o. write_chunk_in (some i) c o m) found
      ∙ ap
          (λ (k : GroupAddress). record m {
            groups = put k (record g { chunks = put i c g.chunks }) m.groups;
          })
          placed

  -- A write to a loaded chunk replaces that chunk and no other.
  pub write_chunk-chunk_of :
      (b : ChunkAddress) (j : ℕ) (c c' : Chunk) (m : ChunkManager)
      → IsManager m
      → chunk_index b.chunk ≡ some j
      → chunk_of a m ≡ some c
      → chunk_of b (write_chunk a c' m) ≡ ite (same a b) (some c') (chunk_of b m)
  write_chunk-chunk_of b j c c' m v hb h =
      let (g, found, there) = group_found c m h in
      ap (λ t. chunk_of b t) (write_chunk_lem c' g m found (v.grouped a.group g found).holds.placed)
      ∙ put_group-chunk_of a b i j c' g m index hb (λ k. ap (λ o. in_group (some k) o) (sym found))

  pub write_chunk-IsManager :
      (c c' : Chunk) (m : ChunkManager)
      → IsManager m
      → chunk_of a m ≡ some c
      → IsChunk c'
      → c'.address ≡ c.address
      → IsManager (write_chunk a c' m)
  write_chunk-IsManager c c' m v h w e =
      let (g, found, there) = group_found c m h in
      let old = v.grouped a.group g found in
      let (low, _, at) = old.holds.held i c there in
      subst IsManager (sym (write_chunk_lem c' g m found old.holds.placed)) (
        put_group-IsManager a.group (record g { chunks = put i c' g.chunks }) m
          (λ b k _ found'. v.grouped b k found')
          (put_chunk-IsGroup a.group g i c' old.holds low w (e ∙ at)))

  pub write_chunk-changes :
      (c c' : Chunk) (m : ChunkManager)
      → IsManager m
      → chunk_of a m ≡ some c
      → ((write_chunk a c' m).changes ≡ m.changes) × ((write_chunk a c' m).observed ≡ m.observed)
  write_chunk-changes c c' m v h =
      let (g, found, there) = group_found c m h in
      let e = write_chunk_lem c' g m found (v.grouped a.group g found).holds.placed in
      (ap (λ (t : ChunkManager). t.changes) e, ap (λ (t : ChunkManager). t.observed) e)
