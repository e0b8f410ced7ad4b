-- ===== src/Chunks/Manager/SetProperty.antt =====
-- Every way out of `setBlockProperty`.
use clone_craft.Base.{
  ℕ, ◌≡◌, refl, sym, ap, ◌∙◌, subst, String, Bool, true, false, not, ◌&&◌, Option, none, some, ◌++◌,
  ◌==◌, same, if_pos, if_neg, nat_key, string_key, arith, if◌then◌else◌, inl, inr,
}
use clone_craft.Values.{PropertyValue}
use clone_craft.Exec.{ok, >>=-ok}
use clone_craft.Coords.{BlockAddress}
use clone_craft.State.Hierarchy.{group_key, chunk_key, block_key}
use clone_craft.Chunks.Chunk
use clone_craft.Chunks.Chunk.{Chunk, cell, get_property, volume}
use clone_craft.Chunks.Chunk.Invariant.{IsChunk}
use clone_craft.Chunks.Chunk.Access.{Stored}
use clone_craft.Chunks.Chunk.Property.{PropertyWrite, refused, stored, set_property-PropertyWrite}
use clone_craft.Chunks.Group.Touched.{touched}
use clone_craft.Chunks.Manager.{
  ChunkManager, set_block_property, set_property_in, put_property, chunk_at,
}
use clone_craft.Chunks.Manager.Placement.{IsManager, chunk_of, chunk_at-chunk_of}
use clone_craft.Chunks.Manager.View.{override, Place, related, equal, beside, apart, view-loaded}
use clone_craft.Chunks.Manager.Properties.{
  PropertySet, takes, reports, absent-PropertySet, result, chunk_ordered, override-here,
  heard_after, managed_after, view_after, override_after, override-at,
}

module _ (b : BlockAddress) (name : String) (v d : PropertyValue) (p : Place b) (m : ChunkManager)
    (ordered : IsManager m) where
  module _ (c : Chunk) (found : chunk_of b.chunk m ≡ some c) where
    takes-here : takes b m ≡ not (cell c.blocks p.k == 0)
    takes-here = ground (arith, view-loaded b p c m found)

    air-PropertySet :
        cell c.blocks p.k ≡ 0
        → PropertySet b name v d m (result b name v d p m ordered c found (false, c))
    air-PropertySet is_air =
        let none_taken : takes b m ≡ false = ground (arith, takes-here, is_air) in
        record {
          returned = ground (arith, none_taken);
          managed =
              managed_after b name v d p m ordered c found (false, c)
                (chunk_ordered b name v d p m ordered c found) refl;
          blocks = λ e q. view_after b name v d p m ordered c found (false, c) e refl q;
          overrides = λ e n q.
              override_after b name v d p m ordered c found (false, c) e n q
              ∙ elim (same b.chunk e.chunk) [
                | yes h ↦
                    rw (if_pos _ h, none_taken, q.block_at_k)
                      (sym (override-at b name v d p m ordered c found e n q h))
                | no k ↦ rw (if_neg _ k, none_taken) refl
              ];
          heard =
              heard_after b name v d p m ordered c found (false, c) ∙ ground (arith, none_taken);
        }

    solid-PropertySet :
        (r : Bool × Chunk)
        → (cell c.blocks p.k == 0) ≡ false
        → ((j : ℕ) (q : String) → Stored p.k j name q v d c r)
        → IsChunk r.1
        → r.1.address ≡ c.address
        → PropertySet b name v d m (result b name v d p m ordered c found r)
    solid-PropertySet r solid got w a =
        let taken : takes b m ≡ true = ground (arith, takes-here, solid) in
        let old = override-here b name v d p m ordered c found in
        let changed : r.0 ≡ (takes b m && reports v d (override b name m)) =
          (got p.k name).0 ∙ ground (arith, taken, old) in
        record {
          returned = ap (λ t. ok t) changed;
          managed = managed_after b name v d p m ordered c found r w a;
          blocks = λ e q. view_after b name v d p m ordered c found r e (got p.k name).2 q;
          overrides = λ e n q.
              override_after b name v d p m ordered c found r e n q ∙ elim (related b e p q) [
                | equal f k h ↦
                    rw (if_pos _ h, taken, if_pos _ f, q.block_at_k)
                      ((got q.k n).1
                        ∙ ground
                            (arith, k, old, override-at b name v d p m ordered c found e n q h))
                | beside f _ k h ↦
                    rw (if_pos _ h, taken, if_neg _ f, q.block_at_k)
                      ((got q.k n).1
                        ∙ ground (arith, k, override-at b name v d p m ordered c found e n q h))
                | apart f h ↦ rw (if_neg _ h, taken, if_neg _ f) refl
              ];
          heard =
              heard_after b name v d p m ordered c found r
              ∙ ap
                  (λ t.
                    if t
                    then if m.observed then m.changes ++ touched b else m.changes
                    else m.changes)
                  changed;
        }

    written-PropertySet :
        (r : Bool × Chunk)
        → PropertyWrite p.k name v d c r
        → PropertySet b name v d m (result b name v d p m ordered c found r)
    written-PropertySet r (refused (inl far)) = absurd (omega (arith, far, p.low))
    written-PropertySet r (refused (inr is_air)) = air-PropertySet is_air
    written-PropertySet r (stored r' low solid got w a) = solid-PropertySet r' solid got w a

  into :
      (o : Option Chunk)
      → chunk_of b.chunk m ≡ o
      → PropertySet b name v d m (set_property_in b name v d o m)
  unfolding set_property_in put_property
  into none h = absent-PropertySet b name v d p m ordered h
  into (some c) h =
      subst (PropertySet b name v d m) (sym (>>=-ok _ _ m m p.k (ground (arith, p.block_at_k)))) (
        written-PropertySet c h (Chunk.set_property p.k name v d c)
          (set_property-PropertyWrite p.k name v d c (chunk_ordered b name v d p m ordered c h)))

-- Every way out of a write of a block property at a canonical place: it does not throw; an unloaded
-- chunk and an air block take nothing; elsewhere the default removes the override, what is stored
-- stays and any other value is what is read afterwards; the result says whether the override
-- changed, and only then the observers hear of it; no block, no other property and no property of
-- another block changes.
pub set_block_property-PropertySet :
    (b : BlockAddress) (name : String) (v d : PropertyValue) (m : ChunkManager)
    → Place b
    → IsManager m
    → PropertySet b name v d m (set_block_property b name v d m)
unfolding set_block_property
set_block_property-PropertySet b name v d m p ordered =
    let found : (chunk_at b.chunk m, m) ≡ (ok (chunk_of b.chunk m), m) =
      ap (λ r. (r, m)) (chunk_at-chunk_of b.chunk p.i m p.chunk_at_i) in
    subst (PropertySet b name v d m)
      (sym (
        >>=-ok (λ m. (chunk_at b.chunk m, m)) (set_property_in b name v d) m m (chunk_of b.chunk m)
          found))
      (into b name v d p m ordered (chunk_of b.chunk m) refl)
