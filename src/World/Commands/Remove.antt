-- ===== src/World/Commands/Remove.antt =====
-- The command to remove a block.
use clone_craft.Base.{
  some_injective, ℕ, ◌≡◌, ◌≢◌, refl, sym, ap, ◌∙◌, subst, String, Bool, true, false, Option, none,
  some, arith,
}
use clone_craft.Exec.{Result, ok, pure, >>=-ok, ◌>>=◌}
use clone_craft.Coords.{BlockAddress}
use clone_craft.State.Target.{WorldStateTarget}
use clone_craft.Chunks.Manager.View.{view, place_of, try_block_at-view}
use clone_craft.Comm.Envelope.{
  CommandResultPayload, Payload, monostate, block_place_payload, block_target_payload,
  property_set_payload, command_result_payload, query_payload, event_value_payload,
}
use clone_craft.World.{WorldState, reading}
use clone_craft.World.Order.{IsWorld}
use clone_craft.World.Block.{set_block, block_at}
use clone_craft.World.Block.Outcome as BlockOutcome
use clone_craft.World.Block.Outcome.{BlockReplaced, already, replaced}
use clone_craft.World.Block.Replaced.{set_block-BlockReplaced}
use clone_craft.World.Commands
use clone_craft.World.Commands.{
  reject, accept, answer, block_in, place, place_over, remove, remove_found, write, BlockCommand,
  block_place, block_remove, property_set,
}
use clone_craft.World.Commands.Outcome.{
  Placeable, Removable, Placed, Removed, AreTargets, canonical_in, payload_id,
}
use clone_craft.World.Commands.Outcome

module _ (w : WorldState) (v : IsWorld w) (t : Option WorldStateTarget)
    (targets : AreTargets t) where
  abbrev RemovedAs : Result CommandResultPayload × WorldState → Type 0
  RemovedAs = Removed monostate t w

  module _ (b : BlockAddress) (at_b : block_in t ≡ some b) where
    removed_after :
        (k : ℕ)
        → view b w.chunks ≡ some k
        → (r : Result Bool × WorldState) → set_block b 0 w ≡ r
        → BlockReplaced b 0 w r
        → RemovedAs ((set_block b 0 >>= λ changed. pure (answer changed "removal rejected")) w)
    unfolding answer
    removed_after k there r h (BlockOutcome.refused high) =
        absurd
          (omega (arith, high, v.known b k (place_of b (canonical_in w v t targets b at_b)) there))
    removed_after k there r h (already same) = subst RemovedAs (sym (>>=-ok _ _ w w false h)) (
        Outcome.turned_down "removal rejected" (λ c e f ready. ready.solid (
          ground
            (arith, same, ready.there, ap (λ a. view a w.chunks) (some_injective (sym f ∙ at_b))))))
    removed_after k there r h (replaced w' low new done) =
        subst RemovedAs (sym (>>=-ok _ _ w w' true h)) (
          Outcome.removed b w' refl at_b
            (record { k = k; there = there; solid = λ e. new (ground (arith, there, e)) }) done)

    removed_found : (o : Option ℕ) → view b w.chunks ≡ o → RemovedAs (remove_found b o w)
    unfolding remove_found
    removed_found none h = Outcome.turned_down _ (λ c e f ready.
        ground (arith, h, ready.there, ap (λ a. view a w.chunks) (some_injective (sym f ∙ at_b))))
    removed_found (some k) h =
        removed_after k h (set_block b 0 w) refl
          (set_block-BlockReplaced b 0 w (canonical_in w v t targets b at_b) v)

  removed_at : (o : Option BlockAddress) → block_in t ≡ o → RemovedAs (Commands.remove_at o w)
  unfolding Commands.remove_at block_at
  removed_at none h = Outcome.turned_down _ (λ c e f ready. ground (arith, h, f))
  removed_at (some b) h =
      subst RemovedAs
        (sym (
          >>=-ok (reading (block_at b)) (remove_found b) w w (view b w.chunks) (
            ap (λ r. (r, w))
              (try_block_at-view b w.chunks (place_of b (canonical_in w v t targets b h))))))
        (removed_found b h (view b w.chunks) refl)

  no_removal : (x : Payload) (why : String) → x ≢ monostate → Removed x t w (ok (reject why), w)
  no_removal x why other = Outcome.turned_down why (λ c e f ready. other e)

  -- Every way out of the command to remove a block.
  pub remove-Removed : (x : Payload) → Removed x t w (remove x t w)
  unfolding remove
  remove-Removed monostate = removed_at (block_in t) refl
  remove-Removed (block_place_payload id) =
      no_removal (block_place_payload id) _ (λ e. ground (arith, e))
  remove-Removed (block_target_payload a) =
      no_removal (block_target_payload a) _ (λ e. ground (arith, e))
  remove-Removed (property_set_payload p y) =
      no_removal (property_set_payload p y) _ (λ e. ground (arith, e))
  remove-Removed (command_result_payload r) =
      no_removal (command_result_payload r) _ (λ e. ground (arith, e))
  remove-Removed (query_payload q) = no_removal (query_payload q) _ (λ e. ground (arith, e))
  remove-Removed (event_value_payload y) =
      no_removal (event_value_payload y) _ (λ e. ground (arith, e))
