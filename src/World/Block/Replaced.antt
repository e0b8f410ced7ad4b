-- ===== src/World/Block/Replaced.antt =====
-- Every way out of a replacement of a block.
use clone_craft.Base.{
  ℕ, ◌<◌, ◌≡◌, refl, sym, ap, ◌∙◌, subst, Bool, true, false, none, some, [], ◌++◌, leb, if_both,
  if◌then◌else◌, arith,
}
use clone_craft.Exec.{Result, ok, lift, >>=-ok, ◌>>=◌}
use clone_craft.Coords.{BlockAddress, canonical_block}
use clone_craft.State.Hierarchy.{block_key, chunk_key}
use clone_craft.State.Target.{block, make, canonical}
use clone_craft.Registry.BlockIds.{table_size}
use clone_craft.Chunks.Manager
use clone_craft.Chunks.Manager.{ChunkManager, or_air}
use clone_craft.Chunks.Manager.View.{view, place_of, try_block_at-view}
use clone_craft.Chunks.Manager.SetBlock.{SetBlock, same_block, wrote, set_block-SetBlock}
use clone_craft.World.{WorldState, reading, on_chunks}
use clone_craft.World.Order.{IsWorld}
use clone_craft.World.Property.Announced.{with_events}
use clone_craft.World.Block.{
  set_block, place_block, block_placed, removed_properties, target_or_throw,
}
use clone_craft.World.Block.Calls.{lost, block_calls, removed_properties-lost, announce_block-calls}
use clone_craft.World.Block.Outcome.{
  block_target, BlockReplaced, refused, already, replaced, w₁, new_block-Replaced,
}

module _ (b : BlockAddress) (canon : canonical_block b ≡ true) (id : ℕ) (w : WorldState)
    (v : IsWorld w) (low : id < table_size w.ids) where
  made : make (block b) ≡ some (block_target b)
  unfolding make canonical
  made = ap (λ z. if z then some (block_target b) else none) canon

  placed :
      (m : ChunkManager)
      → block_placed true b
          (if w.sink then lost b w else [])
          (or_air (view b w.chunks))
          id
          (record w { chunks = m })
        ≡ (
          ok true,
          with_events
              (block_calls (block_target b) b (or_air (view b w.chunks)) id w)
              (record w { chunks = m }),
        )
  unfolding block_placed
  placed m =
      >>=-ok (lift (target_or_throw (make (block b)))) _ (record w { chunks = m })
        (record w { chunks = m }) (block_target b)
        (ap (λ o. (target_or_throw o, record w { chunks = m })) made)
      ∙ ap (λ x. (ok true, x))
          (announce_block-calls (block_target b) b (or_air (view b w.chunks)) id w m)

  after :
      (x : Result Bool × ChunkManager)
      → Manager.set_block b id w.chunks ≡ x
      → SetBlock b id w.chunks x
      → BlockReplaced b id w (
          (on_chunks (Manager.set_block b id) >>= λ changed.
          block_placed changed b (if w.sink then lost b w else []) (or_air (view b w.chunks)) id)
            w)
  unfolding on_chunks block_placed
  after x h (same_block e) =
      subst (BlockReplaced b id w)
        (sym (>>=-ok _ _ w w false (λ i. ((h i).0, record w { chunks = (h i).1 })))) (already e)
  after x h (wrote m n done) =
      subst (BlockReplaced b id w)
        (sym (
          >>=-ok _ _ w (record w { chunks = m }) true
            (λ i. ((h i).0, record w { chunks = (h i).1 }))
          ∙ placed m))
        (replaced
          (w₁ b canon id w v low m done
            (w.events ++ block_calls (block_target b) b (or_air (view b w.chunks)) id w))
          low n (new_block-Replaced b canon id w v low m done _ refl))

  place_block-BlockReplaced : BlockReplaced b id w (place_block b id w)
  unfolding place_block
  place_block-BlockReplaced =
      subst (BlockReplaced b id w)
        (sym (
          >>=-ok (reading (removed_properties b)) _ w w (if w.sink then lost b w else [])
            (ap (λ r. (r, w)) (removed_properties-lost w b (place_of b canon)))
          ∙ >>=-ok (reading (λ w. Manager.try_block_at b w.chunks)) _ w w (view b w.chunks)
              (ap (λ r. (r, w)) (try_block_at-view b w.chunks (place_of b canon)))))
        (after (Manager.set_block b id w.chunks) refl
          (set_block-SetBlock b id w.chunks (place_of b canon) v.chunks))

-- Every way out of a replacement of a block at a canonical address, in a world that is in order: it
-- does not throw; an id outside the table, and the block that is already there, an unloaded chunk
-- counting as air, change nothing; any other block is what is read afterwards, without overrides,
-- no other block changes, no other target shows a property otherwise, and the world stays in order.
-- Only then are called, in this order, the target hook, the block hook, and the sink: for every kept
-- property that was overridden, with nothing, and for the block, with the previous id and the new one.
pub set_block-BlockReplaced :
    (b : BlockAddress) (id : ℕ) (w : WorldState)
    → canonical_block b ≡ true
    → IsWorld w
    → BlockReplaced b id w (set_block b id w)
unfolding set_block
set_block-BlockReplaced b id w canon v =
    if_both (BlockReplaced b id w) (leb (table_size w.ids) id) _ _
      (λ high. refused (ground (arith, high)))
      (λ low. place_block-BlockReplaced b canon id w v (ground (arith, low)))

pub set_block-IsWorld :
    (b : BlockAddress) (id : ℕ) (w : WorldState)
    → canonical_block b ≡ true
    → IsWorld w
    → IsWorld (set_block b id w).1
set_block-IsWorld b id w canon v = at (set_block-BlockReplaced b id w canon v)
  where
    at : {r : Result Bool × WorldState} → BlockReplaced b id w r → IsWorld r.1
    at (refused high) = v
    at (already there) = v
    at (replaced w' low n done) = done.world
