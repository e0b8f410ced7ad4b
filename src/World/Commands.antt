-- ===== src/World/Commands.antt =====
-- world/communication/BlockCommandHandlers.h, BlockCommandHandlers.cpp: the handlers that change the
-- world. Each decides on a result, which may change the world, and then makes its one reply.
pub mod Register
pub mod Outcome
pub mod Place
pub mod Remove
pub mod Answer
use clone_craft.Base.{
  ℕ, String, Bool, true, false, Option, none, some, List, [], ◌∷◌, ◌==◌, if◌then◌else◌,
}
use clone_craft.Values.{PropertyValue}
use clone_craft.Exec.{ok, err, Exec, pure, ◌>>=◌, ◌>>◌}
use clone_craft.Coords.{BlockAddress}
use clone_craft.State.Target.{WorldStateTarget, as_block}
use clone_craft.Comm.Envelope.{
  CommunicationEnvelope, CommandResultPayload, Payload, monostate, block_place_payload,
  property_set_payload, make_reply,
}
use clone_craft.Comm.Runtime.{System}
use clone_craft.Comm.Runtime.Register.{make_bus_reply}
use clone_craft.World.{WorldState, W, reading}
use clone_craft.World.Property.{set}
use clone_craft.World.Block.{set_block, block_at}

abbrev pub reject : String → CommandResultPayload
reject reason = record { ok = false; error = reason; value = none }

abbrev pub accept : CommandResultPayload
accept = record { ok = true; error = ""; value = none }

-- `envelope.target.has_value() && envelope.target->isBlock()`
abbrev pub block_in : Option WorldStateTarget → Option BlockAddress
block_in none = none
block_in (some t) = as_block t

pub answer : Bool → String → CommandResultPayload
answer true why = accept
answer false why = reject why

place_over : BlockAddress → ℕ → Option ℕ → W CommandResultPayload
unfolding answer
place_over b id none = pure (reject "target chunk is not loaded")
place_over b id (some k) =
    if k == 0
    then (do changed ← set_block b id; pure (answer changed "placement rejected"))
    else pure (reject "target cell is occupied")

place_at : ℕ → Option BlockAddress → W CommandResultPayload
unfolding place_over
place_at id none = pure (reject "placement target must be a block address")
place_at id (some b) = do existing ← reading (block_at b); place_over b id existing

-- `core:block.place`: air is no block to place, and only air is built over.
pub place : Payload → Option WorldStateTarget → W CommandResultPayload
unfolding place_at
place (block_place_payload id) t =
    if id == 0
    then pure (reject "placing AIR is a removal, use 'core:block.remove'")
    else place_at id (block_in t)
place _ t = pure (reject "payload must be a block place payload")

remove_found : BlockAddress → Option ℕ → W CommandResultPayload
unfolding answer
remove_found b none = pure (reject "target chunk is not loaded")
remove_found b (some k) = do changed ← set_block b 0; pure (answer changed "removal rejected")

remove_at : Option BlockAddress → W CommandResultPayload
unfolding remove_found
remove_at none = pure (reject "remove target must be a block address")
remove_at (some b) = do existing ← reading (block_at b); remove_found b existing

-- `core:block.remove`
pub remove : Payload → Option WorldStateTarget → W CommandResultPayload
unfolding remove_at
remove monostate t = remove_at (block_in t)
remove _ t = pure (reject "remove requires an empty payload")

write_at : String → PropertyValue → Option WorldStateTarget → W CommandResultPayload
unfolding answer
write_at id v none = pure (reject "property target must be present")
write_at id v (some t) = do changed ← set t id v; pure (answer changed "property write rejected")

-- `core:property.set`
pub write : Payload → Option WorldStateTarget → W CommandResultPayload
unfolding write_at
write (property_set_payload id v) t = write_at id v t
write _ t = pure (reject "payload must be a property set payload")

pub data BlockCommand : Type 0 where
  block_place block_remove property_set : BlockCommand

unfoldable pub decide : BlockCommand → CommunicationEnvelope → W CommandResultPayload
unfolding place remove write
decide block_place e = place e.payload e.target
decide block_remove e = remove e.payload e.target
decide property_set e = write e.payload e.target

-- The handlers of the router, whose message ids come from a source of their own.
pub record RouterState : Type 0 where
  pub ids : ℕ
  pub world : WorldState

reply_from_source :
    CommunicationEnvelope → CommandResultPayload → Exec RouterState (List CommunicationEnvelope)
reply_from_source e result s = elim (make_reply e result s.ids) [
  | err x ↦ (err x, s)
  | ok (reply, ids) ↦ (ok (reply ∷ []), record s { ids = ids })
]

unfoldable pub run_on_router :
    BlockCommand → CommunicationEnvelope → Exec RouterState (List CommunicationEnvelope)
unfolding reply_from_source
run_on_router h e = do
  result ← λ s. let (r, w) = decide h e s.world in (r, record s { world = w })
  reply_from_source e result

-- The handlers of the bus, which reply through the bus.
module _ {H T : Type 0} where
  reply_from_bus :
      CommunicationEnvelope
      → CommandResultPayload
      → Exec (System H T WorldState) (List CommunicationEnvelope)
  reply_from_bus e result s =
      let (r, b) = make_bus_reply e result s.bus in
      elim r [
        | err x ↦ (err x, record s { bus = b })
        | ok reply ↦ (ok (reply ∷ []), record s { bus = b })
      ]

  unfoldable pub run_on_bus :
      BlockCommand
      → CommunicationEnvelope
      → Exec (System H T WorldState) (List CommunicationEnvelope)
  unfolding reply_from_bus
  run_on_bus h e = do
    result ← λ s. let (r, w) = decide h e s.world in (r, record s { world = w })
    reply_from_bus e result
