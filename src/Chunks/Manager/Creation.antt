-- ===== src/Chunks/Manager/Creation.antt =====
-- The chunk that is created where none is loaded.
use clone_craft.Base.{
  ℕ, ◌<◌, ◌≡◌, ◌≢◌, refl, sym, ap, ◌∙◌, subst, true, Option, none, some, ite, same, nat_key, arith,
  Option-cases, inl, inr, and_split,
}
use clone_craft.Assoc.{find, put, find-put, find-empty, empty}
use clone_craft.Exec.{Result, ok, lift, >>=-ok}
use clone_craft.Coords.{GroupAddress, ChunkAddress, canonical_group, canonical_chunk}
use clone_craft.Coords.Index.{chunk_index, chunk_index-coord_at}
use clone_craft.State.Hierarchy.{group_key, chunk_key}
use clone_craft.Chunks.Chunk.{Chunk, fresh, new_chunk}
use clone_craft.Chunks.Chunk.Invariant.{fresh-IsChunk, address-fresh}
use clone_craft.Chunks.Group.{ChunkGroup, address_in, new_group, get_or_create_in, create_chunk}
use clone_craft.Chunks.Manager.{ChunkManager, get_or_create, emplaced, stored_in, index_or_throw}
use clone_craft.Chunks.Manager.Placement.{
  Holds, IsGroup, IsManager, chunk_of, in_group, put_chunk-IsGroup, put_group-IsManager,
  put_group-chunk_of,
}
use clone_craft.Chunks.Manager.Writes.{at_index}

module _ (a : ChunkAddress) (i : ℕ) (index : chunk_index a.chunk ≡ some i)
    (placed : canonical_chunk a ≡ true) where
  -- A chunk that is created is all air, and no other chunk appears, changes or goes.
  pub record Created (m : ChunkManager) (r : Result Chunk × ChunkManager) : Type 0 where
    pub returned : r.0 ≡ ok (fresh a)
    pub managed : IsManager r.1
    pub seen :
        (b : ChunkAddress) (j : ℕ)
        → chunk_index b.chunk ≡ some j
        → chunk_of b r.1 ≡ ite (same a b) (some (fresh a)) (chunk_of b m)
    pub quiet : (r.1.changes ≡ m.changes) × (r.1.observed ≡ m.observed)

  group_placed : canonical_group a.group ≡ true
  unfolding canonical_chunk
  group_placed = (and_split _ _ placed).0

  created_in :
      (g : ChunkGroup)
      → g.address ≡ a.group
      → find i g.chunks ≡ none
      → get_or_create_in i g ≡ ok (fresh a, record g { chunks = put i (fresh a) g.chunks })
  unfolding get_or_create_in new_chunk create_chunk
  created_in g e h =
      let here : address_in g.address i ≡ a =
        ap (λ (k : GroupAddress). address_in k i) e ∙ at_index a i index in
      ap (λ o. create_chunk i o g) h ∙ ground (arith, here, placed)

  created :
      (g : ChunkGroup) (m t : ChunkManager)
      → emplaced a.group (find a.group m.groups) m ≡ (ok g, t)
      → Holds a.group g
      → find i g.chunks ≡ none
      → get_or_create a m ≡ (
        ok (fresh a),
        record t { groups = put a.group (record g { chunks = put i (fresh a) g.chunks }) t.groups },
      )
  unfolding get_or_create stored_in
  created g m t emplace h free =
      >>=-ok _ _ m t g emplace
      ∙ >>=-ok _ _ t t i (ap (λ o. lift (index_or_throw o) t) index)
      ∙ ap (λ r. stored_in a.group r t) (created_in g h.placed free)

  fresh-placed : (fresh a).address ≡ address_in a.group i
  fresh-placed = address-fresh a ∙ sym (at_index a i index)

  into :
      (g : ChunkGroup) (m t : ChunkManager)
      → emplaced a.group (find a.group m.groups) m ≡ (ok g, t)
      → Holds a.group g
      → ((k : ℕ) → find k g.chunks ≡ in_group (some k) (find a.group t.groups))
      → ((b : GroupAddress) (k : ChunkGroup) → a.group ≢ b → find b t.groups ≡ some k → IsGroup b k)
      → ((b : ChunkAddress) → chunk_of b t ≡ chunk_of b m)
      → find i g.chunks ≡ none
      → (t.changes ≡ m.changes) × (t.observed ≡ m.observed)
      → i < 4096
      → Created m (get_or_create a m)
  into g m t emplace h before others unseen free quiet low =
      subst (Created m) (sym (created g m t emplace h free)) (record {
        returned = refl;
        managed =
            put_group-IsManager a.group (record g { chunks = put i (fresh a) g.chunks }) t others
              (put_chunk-IsGroup a.group g i (fresh a) h low (fresh-IsChunk a placed) fresh-placed);
        seen = λ b j hb.
            put_group-chunk_of a b i j (fresh a) g t index hb before
            ∙ ap (λ o. ite (same a b) (some (fresh a)) o) (unseen b);
        quiet = quiet;
      })

  abbrev blank : ChunkGroup
  blank = record { address = a.group; chunks = empty }

  abbrev with_blank : ChunkManager → ChunkManager
  with_blank m = record m { groups = put a.group blank m.groups }

  blank-emplaced : (m : ChunkManager) → emplaced a.group none m ≡ (ok blank, with_blank m)
  unfolding emplaced new_group
  blank-emplaced m = ground (arith, group_placed)

  blank-Holds : Holds a.group blank
  blank-Holds = record {
    placed = refl;
    canonical = group_placed;
    held = λ k c h. absurd (ground (arith, h, find-empty {V = Chunk} k));
  }

  blank-before :
      (m : ChunkManager) (k : ℕ)
      → find k blank.chunks ≡ in_group (some k) (find a.group (with_blank m).groups)
  blank-before m k = ground (arith, find-put a.group a.group blank m.groups)

  blank-others :
      (m : ChunkManager) (b : GroupAddress) (k : ChunkGroup)
      → IsManager m
      → a.group ≢ b
      → find b (with_blank m).groups ≡ some k
      → IsGroup b k
  blank-others m b k v n h = v.grouped b k (ground (arith, h, n, find-put a.group b blank m.groups))

  blank_unseen :
      (m : ChunkManager) (b : ChunkAddress)
      → find a.group m.groups ≡ none
      → chunk_of b (with_blank m) ≡ chunk_of b m
  unfolding chunk_of
  blank_unseen m b h = at (chunk_index b.chunk) (find b.group m.groups) refl
    where
      at :
          (o : Option ℕ) (old : Option ChunkGroup)
          → find b.group m.groups ≡ old
          → in_group o (find b.group (with_blank m).groups) ≡ in_group o old
      at none none e = ground (arith, h, e, find-put a.group b.group blank m.groups)
      at none (some g) e = ground (arith, h, e, find-put a.group b.group blank m.groups)
      at (some k) none e =
          ground (arith, h, e, find-put a.group b.group blank m.groups, find-empty {V = Chunk} k)
      at (some k) (some g) e =
          ground (arith, h, e, find-put a.group b.group blank m.groups, find-empty {V = Chunk} k)

  pub get_or_create-Created :
      (m : ChunkManager) → IsManager m → chunk_of a m ≡ none → Created m (get_or_create a m)
  unfolding chunk_of emplaced
  get_or_create-Created m v free =
      let (low, _) = chunk_index-coord_at a.chunk i index in
      elim (Option-cases (find a.group m.groups)) [
        | inl absent ↦
            into blank m (with_blank m) (ap (λ o. emplaced a.group o m) absent ∙ blank-emplaced m)
              blank-Holds (blank-before m) (λ b k n h. blank-others m b k v n h)
              (λ b. blank_unseen m b absent) (find-empty {V = Chunk} i) (refl, refl) low
        | inr (g, found) ↦
            into g m m (ap (λ o. emplaced a.group o m) found) (v.grouped a.group g found).holds
              (λ k. ap (λ o. in_group (some k) o) (sym found)) (λ b k _ h. v.grouped b k h)
              (λ b. refl) (ground (arith, free, index, found)) (refl, refl) low
      ]
