-- ===== src/Chunks/Manager/Placement.antt =====
-- Every chunk stands at the place of its address, and what a write to a chunk leaves.
use clone_craft.Base.{
  ℕ, ◌<◌, ◌≡◌, ◌≢◌, refl, sym, ap, ◌∙◌, subst, Bool, true, false, Option, none, some, ◌==◌, ite,
  same, if_pos, if_neg, nat_key, arith,
}
use clone_craft.Assoc.{find, put, size, find-put, find-empty, put_some}
use clone_craft.Exec.{ok}
use clone_craft.Coords.{Coord, GroupAddress, ChunkAddress, canonical_group}
use clone_craft.Coords.Index.{chunk_index, chunk_index-coord_at}
use clone_craft.State.Hierarchy.{group_key, chunk_key}
use clone_craft.Chunks.Chunk.{Chunk}
use clone_craft.Chunks.Chunk.Invariant.{IsChunk}
use clone_craft.Chunks.Group.{ChunkGroup, address_in}
use clone_craft.Chunks.Manager.{ChunkManager, new_manager, chunk_at, chunk_in}

-- A group whose chunks are in order and carry the address of their place.
pub record Holds (a : GroupAddress) (g : ChunkGroup) : Type 0 where
  pub placed : g.address ≡ a
  pub canonical : canonical_group a ≡ true
  pub held :
      (i : ℕ) (c : Chunk)
      → find i g.chunks ≡ some c
      → (i < 4096) × IsChunk c × (c.address ≡ address_in a i)

pub record IsGroup (a : GroupAddress) (g : ChunkGroup) : Type 0 where
  pub holds : Holds a g
  pub inhabited : (size g.chunks == 0) ≡ false

pub record IsManager (m : ChunkManager) : Type 0 where
  pub grouped : (a : GroupAddress) (g : ChunkGroup) → find a m.groups ≡ some g → IsGroup a g

-- The chunk at an address, where the address has an index.
abbrev pub in_group : Option ℕ → Option ChunkGroup → Option Chunk
in_group (some i) (some g) = find i g.chunks
in_group (some i) none = none
in_group none (some g) = none
in_group none none = none

unfoldable pub chunk_of : ChunkAddress → ChunkManager → Option Chunk
chunk_of a m = in_group (chunk_index a.chunk) (find a.group m.groups)

pub same_index : (x y : Coord) (i : ℕ) → chunk_index x ≡ some i → chunk_index y ≡ some i → x ≡ y
same_index x y i h k = sym (chunk_index-coord_at x i h).1 ∙ (chunk_index-coord_at y i k).1

pub put_chunk-IsGroup :
    (a : GroupAddress) (g : ChunkGroup) (i : ℕ) (c : Chunk)
    → Holds a g
    → i < 4096
    → IsChunk c
    → c.address ≡ address_in a i
    → IsGroup a (record g { chunks = put i c g.chunks })
put_chunk-IsGroup a g i c h low v at = record {
  holds = record {
    placed = h.placed;
    canonical = h.canonical;
    held = λ j d k. elim (same i j) [
      | yes p ↦
          let e : c ≡ d = ground (arith, k, p, find-put i j c g.chunks) in
          subst (λ (d : Chunk). (j < 4096) × IsChunk d × (d.address ≡ address_in a j)) e
            (subst (λ j. (j < 4096) × IsChunk c × (c.address ≡ address_in a j)) p (low, v, at))
      | no n ↦ h.held j d (ground (arith, k, n, find-put i j c g.chunks))
    ];
  };
  inhabited = put_some i c g.chunks;
}

pub put_group-IsManager :
    (a : GroupAddress) (g : ChunkGroup) (m : ChunkManager)
    → ((b : GroupAddress) (k : ChunkGroup) → a ≢ b → find b m.groups ≡ some k → IsGroup b k)
    → IsGroup a g
    → IsManager (record m { groups = put a g m.groups })
put_group-IsManager a g m others h = record {
  grouped = λ b k found. elim (same a b) [
    | yes p ↦
        let e : g ≡ k = ground (arith, found, p, find-put a b g m.groups) in
        subst (IsGroup b) e (subst (λ b. IsGroup b g) p h)
    | no n ↦ others b k n (ground (arith, found, n, find-put a b g m.groups))
  ];
}

-- What a group that is put at a place changes: one chunk.
pub put_group-chunk_of :
    (a b : ChunkAddress) (i j : ℕ) (c : Chunk) (g : ChunkGroup) (m : ChunkManager)
    → chunk_index a.chunk ≡ some i
    → chunk_index b.chunk ≡ some j
    → ((k : ℕ) → find k g.chunks ≡ in_group (some k) (find a.group m.groups))
    → chunk_of b
        (record m { groups = put a.group (record g { chunks = put i c g.chunks }) m.groups })
      ≡ ite (same a b) (some c) (chunk_of b m)
unfolding chunk_of
put_group-chunk_of a b i j c g m ha hb before = elim (same a.group b.group) [
  | yes p ↦ elim (same i j) [
    | yes q ↦
        let here : a ≡ b = λ t. record {
          group = p t;
          chunk = same_index a.chunk b.chunk i ha (hb ∙ ap (λ k. some k) (sym q)) t;
        } in
        rw (if_pos _ here) (
          ground (
            arith,
            hb,
            p,
            q,
            find-put a.group b.group (record g { chunks = put i c g.chunks }) m.groups,
            find-put i j c g.chunks,
          ))
    | no n ↦
        let other : a ≢ b =
          λ e. n (ground (arith, ha, hb, ap (λ (x : ChunkAddress). chunk_index x.chunk) e)) in
        rw (if_neg _ other) (
          ground (
            arith,
            hb,
            p,
            n,
            before j,
            find-put a.group b.group (record g { chunks = put i c g.chunks }) m.groups,
            find-put i j c g.chunks,
          ))
  ]
  | no n ↦
      let other : a ≢ b = λ e. n (ap (λ (x : ChunkAddress). x.group) e) in
      rw (if_neg _ other) (
        ground (
          arith,
          hb,
          n,
          find-put a.group b.group (record g { chunks = put i c g.chunks }) m.groups,
        ))
]

pub chunk_at-chunk_of :
    (a : ChunkAddress) (i : ℕ) (m : ChunkManager)
    → chunk_index a.chunk ≡ some i
    → chunk_at a m ≡ ok (chunk_of a m)
unfolding chunk_at chunk_of chunk_in
chunk_at-chunk_of a i m h = at (find a.group m.groups)
  where
    at : (o : Option ChunkGroup) → chunk_in a.chunk o ≡ ok (in_group (chunk_index a.chunk) o)
    at none = ground (arith, h)
    at (some g) = ground (arith, h)

-- A manager without chunks is in order.
pub new_manager-IsManager : (observed : Bool) → IsManager (new_manager observed)
new_manager-IsManager observed = record {
  grouped = λ a g found. absurd (ground (arith, found, find-empty {V = ChunkGroup} a));
}

pub new_manager-chunk_of :
    (observed : Bool) (a : ChunkAddress) → chunk_of a (new_manager observed) ≡ none
unfolding chunk_of
new_manager-chunk_of observed a =
    ap (λ g. in_group (chunk_index a.chunk) g) (find-empty {V = ChunkGroup} a.group)
    ∙ nothing (chunk_index a.chunk)
  where
    nothing : (o : Option ℕ) → in_group o none ≡ none
    nothing none = refl
    nothing (some i) = refl
