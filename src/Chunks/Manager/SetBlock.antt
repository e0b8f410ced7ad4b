-- ===== src/Chunks/Manager/SetBlock.antt =====
-- Every way out of `setBlock`.
use clone_craft.Base.{
  Bool-cases, ℕ, ◌≡◌, ◌≢◌, refl, sym, ap, ◌∙◌, subst, String, Bool, true, false, Option, none, some,
  ◌++◌, ◌==◌, ite, same, if_pos, if_neg, nat_key, arith, if◌then◌else◌, inl, inr,
}
use clone_craft.Exec.{Result, ok, >>=-ok, ◌>>=◌}
use clone_craft.Coords.{BlockAddress}
use clone_craft.Coords.Index.{block_index}
use clone_craft.State.Hierarchy.{group_key, chunk_key, block_key}
use clone_craft.Chunks.Chunk.{Chunk, cell, fresh}
use clone_craft.Chunks.Chunk.Invariant.{cell-fresh, get_property-fresh}
use clone_craft.Chunks.Group.Touched.{touched}
use clone_craft.Chunks.Manager.{
  ChunkManager, replace, set_block, set_block_in, get_or_create, or_air, chunk_at,
}
use clone_craft.Chunks.Manager.Placement.{IsManager, chunk_of, chunk_at-chunk_of}
use clone_craft.Chunks.Manager.Creation.{Created, get_or_create-Created}
use clone_craft.Chunks.Manager.View.{view-loaded, view-absent, view, override, Place, seen, held}
use clone_craft.Chunks.Manager.Blocks.{
  Wrote, after, replace-unchanged, replace-changed, after-Wrote,
}

pub data SetBlock (b : BlockAddress) (id : ℕ) (m : ChunkManager)
    : Result Bool × ChunkManager → Type 0 where
  same_block : or_air (view b m) ≡ id → SetBlock b id m (ok false, m)
  wrote :
      (m' : ChunkManager) → or_air (view b m) ≢ id → Wrote b id m m' → SetBlock b id m (ok true, m')

module _ (b : BlockAddress) (id : ℕ) (p : Place b) (m : ChunkManager) (v : IsManager m) where
  into_loaded : (c : Chunk) → chunk_of b.chunk m ≡ some c → SetBlock b id m (replace b id c m)
  into_loaded c found = elim (Bool-cases (cell c.blocks p.k == id)) [
    | inl h ↦
        subst (SetBlock b id m) (sym (replace-unchanged b id p c m h))
          (same_block (ground (arith, h, view-loaded b p c m found)))
    | inr h ↦ subst (SetBlock b id m) (sym (replace-changed b id p c m h)) (
        wrote (after b id p c m) (λ e. ground (arith, h, e, view-loaded b p c m found))
          (after-Wrote b id p m v c found h))
  ]

  module _ (absent : chunk_of b.chunk m ≡ none) where
    absent_at : (d : BlockAddress) → b.chunk ≡ d.chunk → chunk_of d.chunk m ≡ none
    absent_at d e = ap (λ a. chunk_of a m) (sym e) ∙ absent

    absent-override :
        (d : BlockAddress) (name : String) → Place d → b.chunk ≡ d.chunk → override d name m ≡ none
    unfolding override
    absent-override d name q e = ground (arith, q.block_at_k, absent_at d e)

    module _ (t : ChunkManager)
        (made : Created b.chunk p.i p.chunk_at_i p.canonical m (ok (fresh b.chunk), t)) where
      created-view :
          (d : BlockAddress) → Place d → view d t ≡ ite (same b.chunk d.chunk) (some 0) (view d m)
      unfolding view
      created-view d q =
          ap (λ o. seen (block_index d.block) o) (made.seen d.chunk q.i q.chunk_at_i)
          ∙ elim (same b.chunk d.chunk) [
            | yes e ↦
                rw (if_pos _ e, if_pos _ e, q.block_at_k)
                  (ap (λ n. some n) (cell-fresh b.chunk q.k))
            | no n ↦ rw (if_neg _ n, if_neg _ n) refl
          ]

      created-override :
          (d : BlockAddress) (name : String) → Place d → override d name t ≡ override d name m
      unfolding override
      created-override d name q =
          ap (λ o. held (block_index d.block) name o) (made.seen d.chunk q.i q.chunk_at_i)
          ∙ elim (same b.chunk d.chunk) [
            | yes e ↦ rw (if_pos _ e) (
                ground (
                  arith,
                  q.block_at_k,
                  get_property-fresh b.chunk q.k name,
                  absent-override d name q e,
                ))
            | no n ↦ rw (if_neg _ n) refl
          ]

      there : chunk_of b.chunk t ≡ some (fresh b.chunk)
      there = made.seen b.chunk p.i p.chunk_at_i ∙ if_pos (same b.chunk b.chunk) refl _ _

      fresh-Wrote : (w : ChunkManager) → Wrote b id t w → Wrote b id m w
      fresh-Wrote w h = record {
        managed = h.managed;
        blocks = λ d q. elim (same b.chunk d.chunk) [
          | yes e ↦
              ground (arith, e, h.blocks d q, created-view d q, view-absent d m q (absent_at d e))
          | no n ↦ ground (arith, n, h.blocks d q, created-view d q)
        ];
        overrides = λ d name q.
            h.overrides d name q ∙ ap (λ o. ite (same b d) none o) (created-override d name q);
        heard =
            h.heard ∙ (λ x. if made.quiet.1 x then made.quiet.0 x ++ touched b else made.quiet.0 x);
      }

      into_created : id ≢ 0 → SetBlock b id m (replace b id (fresh b.chunk) t)
      into_created solid =
          let differs : (cell (fresh b.chunk).blocks p.k == id) ≡ false =
            ground (arith, solid, cell-fresh b.chunk p.k) in
          subst (SetBlock b id m) (sym (replace-changed b id p (fresh b.chunk) t differs)) (
            wrote (after b id p (fresh b.chunk) t)
              (λ e. solid (ground (arith, e, view-absent b m p absent)))
              (fresh-Wrote (after b id p (fresh b.chunk) t)
                (after-Wrote b id p t made.managed (fresh b.chunk) there differs)))

    into_absent :
        (r : Result Chunk × ChunkManager)
        → Created b.chunk p.i p.chunk_at_i p.canonical m r
        → get_or_create b.chunk m ≡ r
        → id ≢ 0
        → SetBlock b id m ((get_or_create b.chunk >>= replace b id) m)
    into_absent (r, t) made h solid =
        let e : (get_or_create b.chunk m) ≡ (ok (fresh b.chunk), t) =
          h ∙ ap (λ o. (o, t)) made.returned in
        subst (SetBlock b id m) (sym (>>=-ok _ (replace b id) m t (fresh b.chunk) e)) (
          into_created t
            (subst (λ o. Created b.chunk p.i p.chunk_at_i p.canonical m (o, t)) made.returned made)
            solid)

  into : (o : Option Chunk) → chunk_of b.chunk m ≡ o → SetBlock b id m (set_block_in b id o m)
  unfolding set_block_in
  into (some c) h = into_loaded c h
  into none h = elim (Bool-cases (id == 0)) [
    | inl e ↦ rw e (same_block (ground (arith, e, view-absent b m p h)))
    | inr n ↦ rw n (
        into_absent h _ (get_or_create-Created b.chunk p.i p.chunk_at_i p.canonical m v h) refl
          (λ e. ground (arith, e, n)))
  ]

-- Every way out of a write of a block to a canonical place: it does not throw; where the block is
-- already there, an unloaded chunk counting as air, nothing changes, and no chunk is created;
-- otherwise the block is new and has no overrides, no other block or override changes, and the
-- observers hear of the chunk of the block and then of those of its six neighbours, in the order of
-- the axes and down before up, that are in another chunk.
pub set_block-SetBlock :
    (b : BlockAddress) (id : ℕ) (m : ChunkManager)
    → Place b
    → IsManager m
    → SetBlock b id m (set_block b id m)
unfolding set_block
set_block-SetBlock b id m p v =
    let found : (chunk_at b.chunk m, m) ≡ (ok (chunk_of b.chunk m), m) =
      ap (λ r. (r, m)) (chunk_at-chunk_of b.chunk p.i m p.chunk_at_i) in
    subst (SetBlock b id m)
      (sym
        (>>=-ok (λ m. (chunk_at b.chunk m, m)) (set_block_in b id) m m (chunk_of b.chunk m) found))
      (into b id p m v (chunk_of b.chunk m) refl)

pub set_block-IsManager :
    (b : BlockAddress) (id : ℕ) (m : ChunkManager)
    → Place b
    → IsManager m
    → IsManager (set_block b id m).1
set_block-IsManager b id m p v = at (set_block-SetBlock b id m p v)
  where
    at : {r : Result Bool × ChunkManager} → SetBlock b id m r → IsManager r.1
    at (same_block h) = v
    at (wrote m' n done) = done.managed

-- The block that was written is the one that is there.
pub set_block-view :
    (b : BlockAddress) (id : ℕ) (m : ChunkManager)
    → Place b
    → IsManager m
    → or_air (view b (set_block b id m).1) ≡ id
set_block-view b id m p v = at (set_block-SetBlock b id m p v)
  where
    at : {r : Result Bool × ChunkManager} → SetBlock b id m r → or_air (view b r.1) ≡ id
    at (same_block h) = h
    at (wrote m' n done) = ap (λ o. or_air o) (done.blocks b p ∙ if_pos (same b b) refl _ _)
