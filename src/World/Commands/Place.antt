-- ===== src/World/Commands/Place.antt =====
-- The command to place a block.
use clone_craft.Base.{
  some_injective, ℕ, ◌≡◌, ◌≢◌, refl, sym, ap, ◌∙◌, subst, String, Bool, true, false, Option, none,
  some, ◌==◌, if_both, arith,
}
use clone_craft.Exec.{Result, ok, pure, >>=-ok, ◌>>=◌}
use clone_craft.Coords.{BlockAddress}
use clone_craft.State.Target.{WorldStateTarget}
use clone_craft.Chunks.Manager.View.{view, place_of, try_block_at-view}
use clone_craft.Comm.Envelope.{
  CommandResultPayload, Payload, monostate, block_place_payload, block_target_payload,
  property_set_payload, command_result_payload, query_payload, event_value_payload,
}
use clone_craft.World.{WorldState, W, reading}
use clone_craft.World.Order.{IsWorld}
use clone_craft.World.Block.{set_block, block_at}
use clone_craft.World.Block.Outcome as BlockOutcome
use clone_craft.World.Block.Outcome.{BlockReplaced, already, replaced}
use clone_craft.World.Block.Replaced.{set_block-BlockReplaced}
use clone_craft.World.Commands
use clone_craft.World.Commands.{
  reject, accept, answer, block_in, place, place_over, remove, remove_found, write, BlockCommand,
  block_place, block_remove, property_set,
}
use clone_craft.World.Commands.Outcome.{
  Placeable, Removable, Placed, Removed, AreTargets, canonical_in, payload_id,
}
use clone_craft.World.Commands.Outcome

module _ (w : WorldState) (v : IsWorld w) (t : Option WorldStateTarget)
    (targets : AreTargets t) where
  abbrev PlacedAs : ℕ → Result CommandResultPayload × WorldState → Type 0
  PlacedAs id = Placed (block_place_payload id) t w

  module _ (id : ℕ) (solid : id ≢ 0) (b : BlockAddress) (at_b : block_in t ≡ some b) where
    placed_after :
        view b w.chunks ≡ some 0
        → (r : Result Bool × WorldState) → set_block b id w ≡ r
        → BlockReplaced b id w r
        → PlacedAs id ((set_block b id >>= λ changed. pure (answer changed "placement rejected")) w)
    unfolding answer
    placed_after air r h (BlockOutcome.refused high) =
        subst (PlacedAs id) (sym (>>=-ok _ _ w w false h)) (
          Outcome.turned_down "placement rejected"
            (λ c j e f ready. omega (arith, high, ready.known, ap payload_id e)))
    placed_after air r h (already same) = absurd (ground (arith, same, air, solid))
    placed_after air r h (replaced w' low new done) =
        subst (PlacedAs id) (sym (>>=-ok _ _ w w' true h)) (
          Outcome.placed b id w' refl at_b (record { over_air = air; solid = solid; known = low })
            done)

    elsewhere : (why : String) → view b w.chunks ≢ some 0 → PlacedAs id (ok (reject why), w)
    elsewhere why occupied = Outcome.turned_down why (λ c j e f ready.
        occupied
          (subst (λ a. view a w.chunks ≡ some 0) (some_injective (sym f ∙ at_b)) ready.over_air))

    placed_over : (o : Option ℕ) → view b w.chunks ≡ o → PlacedAs id (place_over b id o w)
    unfolding place_over
    placed_over none h = elsewhere _ (λ e. ground (arith, h, e))
    placed_over (some k) h =
        if_both (λ (m : W CommandResultPayload). PlacedAs id (m w)) (k == 0) _ _
          (λ zero.
            placed_after (ground (arith, h, zero)) (set_block b id w) refl
              (set_block-BlockReplaced b id w (canonical_in w v t targets b at_b) v))
          (λ other. elsewhere _ (λ e. ground (arith, h, other, e)))

  placed_at :
      (id : ℕ)
      → id ≢ 0
      → (o : Option BlockAddress) → block_in t ≡ o
      → PlacedAs id (Commands.place_at id o w)
  unfolding Commands.place_at block_at
  placed_at id solid none h = Outcome.turned_down _ (λ c j e f ready. ground (arith, h, f))
  placed_at id solid (some b) h =
      subst (PlacedAs id)
        (sym (
          >>=-ok (reading (block_at b)) (place_over b id) w w (view b w.chunks) (
            ap (λ r. (r, w))
              (try_block_at-view b w.chunks (place_of b (canonical_in w v t targets b h))))))
        (placed_over id solid b h (view b w.chunks) refl)

  no_place :
      (x : Payload) (why : String)
      → ((id : ℕ) → x ≢ block_place_payload id)
      → Placed x t w (ok (reject why), w)
  no_place x why other = Outcome.turned_down why (λ c j e f ready. other j e)

  -- Every way out of the command to place a block.
  pub place-Placed : (x : Payload) → Placed x t w (place x t w)
  unfolding place
  place-Placed (block_place_payload id) =
      if_both (λ (m : W CommandResultPayload). PlacedAs id (m w)) (id == 0) _ _
        (λ air.
          Outcome.turned_down _
            (λ c j e f ready. ready.solid (ground (arith, air, ap payload_id e))))
        (λ solid. placed_at id (λ e. ground (arith, e, solid)) (block_in t) refl)
  place-Placed monostate = no_place monostate _ (λ id e. ground (arith, e))
  place-Placed (block_target_payload a) =
      no_place (block_target_payload a) _ (λ id e. ground (arith, e))
  place-Placed (property_set_payload p y) =
      no_place (property_set_payload p y) _ (λ id e. ground (arith, e))
  place-Placed (command_result_payload r) =
      no_place (command_result_payload r) _ (λ id e. ground (arith, e))
  place-Placed (query_payload q) = no_place (query_payload q) _ (λ id e. ground (arith, e))
  place-Placed (event_value_payload y) =
      no_place (event_value_payload y) _ (λ id e. ground (arith, e))
