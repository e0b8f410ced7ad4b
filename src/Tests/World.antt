-- ===== src/Tests/World.antt =====
-- Each theorem on the world state at a small world.
use clone_craft.Base.{
  some_injective, ℕ, ◌+◌, ◌≡◌, ◌≢◌, refl, subst, List, true, false, none, some, [], ◌∷◌, string_key,
  arith,
}
use clone_craft.Assoc.{find, put, empty, is_some}
use clone_craft.Exec.{ok}
use clone_craft.Text.{is_namespaced_id}
use clone_craft.Values
use clone_craft.Values.{PropertyValue, SidecarDef, uint32, uint8_type, value_fits_sidecar_def}
use clone_craft.Coords.{BlockAddress, ChunkAddress, origin_block_address, canonical_block}
use clone_craft.State.Target.{WorldStateTarget, block, canonical}
use clone_craft.Registry.{SidecarRegistry, new, insert, insert_sidecar, validate_sidecar_def}
use clone_craft.Registry.Sidecars.{IsChecked, new-IsChecked, insert_sidecar-IsChecked}
use clone_craft.Chunks.Manager.{new_manager}
use clone_craft.Comm.Envelope.{
  CommunicationEnvelope, CommandResultPayload, command, block_place_payload, reply_for, uint64_max,
}
use clone_craft.Comm.Runtime.{System, new_bus}
use clone_craft.World.{WorldState, Event, new_world, property_changed, block_changed}
use clone_craft.World.Order.{Fits, IsWorld, new_world-IsWorld}
use clone_craft.World.Property.{set, get, has}
use clone_craft.World.Property.Effective.{IsTarget, effective}
use clone_craft.World.Property.Reads.{Reads}
use clone_craft.World.Property.Typed.{get-typed}
use clone_craft.World.Property.Shows.{PropertyWritten}
use clone_craft.World.Property.Written.{set-PropertyWritten}
use clone_craft.World.Block.{set_block}
use clone_craft.World.Block.Outcome.{BlockReplaced}
use clone_craft.World.Block.Replaced.{set_block-BlockReplaced, set_block-IsWorld}
use clone_craft.World.Sink
use clone_craft.World.Sink.{DeltaKey, delta_key, flush, is_dirty}
use clone_craft.State.Hierarchy.{block_key, chunk_key}
use clone_craft.Base.Int.{pos}
use clone_craft.World.Sink.Replay.{replay, replay-last, last_block, last_property, touched}
use clone_craft.World.Commands.{BlockCommand, block_place, run_on_bus}
use clone_craft.World.Commands.Outcome.{AreTargets}
use clone_craft.World.Commands.Answer.{Handled, answered, run_on_bus-answered}
use clone_craft.Tests.Registries.{table, prototypes, prototypes-IsClaimed}
use clone_craft.Tests.Chunks.{origin_canonical}

abbrev damage : SidecarDef
damage = record {
  id = "core:damage";
  display_name = "Damage";
  value_type = uint8_type;
  scope = Values.block;
  default_value = uint32 0;
  bit_width = 4;
  storage = Values.sparse;
  persist = true;
  serialization_version = 1;
}

abbrev sidecars : SidecarRegistry
sidecars = record { entries = put "core:damage" damage empty; order = "core:damage" ∷ [] }

sidecars-IsChecked : IsChecked sidecars
unfolding insert_sidecar insert validate_sidecar_def value_fits_sidecar_def is_namespaced_id find
    empty
sidecars-IsChecked = insert_sidecar-IsChecked damage new sidecars new-IsChecked refl

abbrev bare : WorldState
bare = new_world (new_manager true) table sidecars prototypes

bare-IsWorld : IsWorld bare
bare-IsWorld =
    new_world-IsWorld true table sidecars prototypes sidecars-IsChecked prototypes-IsClaimed

-- A world with a stone at the origin, whose changes are heard.
abbrev built : WorldState
built = (set_block origin_block_address 1 bare).1

built-IsWorld : IsWorld built
built-IsWorld = set_block-IsWorld origin_block_address 1 bare origin_canonical bare-IsWorld

set_block-BlockReplaced_example :
    BlockReplaced origin_block_address 1 bare (set_block origin_block_address 1 bare)
set_block-BlockReplaced_example =
    set_block-BlockReplaced origin_block_address 1 bare origin_canonical bare-IsWorld

abbrev at_origin : WorldStateTarget
at_origin = record { value = block origin_block_address }

at_origin-IsTarget : IsTarget at_origin
unfolding canonical
at_origin-IsTarget = record { valid = origin_canonical }

set-PropertyWritten_example :
    PropertyWritten at_origin "core:damage"
      (uint32 7)
      built
      (set at_origin "core:damage" (uint32 7) built)
set-PropertyWritten_example =
    set-PropertyWritten built at_origin "core:damage" (uint32 7) built-IsWorld at_origin-IsTarget

get-typed_example :
    (get at_origin "core:damage" built ≡ ok (effective at_origin "core:damage" built))
    × (has at_origin "core:damage" built ≡ ok (is_some (effective at_origin "core:damage" built)))
    × Reads at_origin "core:damage" built (effective at_origin "core:damage" built)
    × ((x : PropertyValue)
        → effective at_origin "core:damage" built ≡ some x
        → Fits built.sidecars "core:damage" x)
get-typed_example = get-typed built at_origin "core:damage" built-IsWorld at_origin-IsTarget

-- A stone is placed beside the origin by a command.
abbrev beside : BlockAddress
beside = record origin_block_address { block = record { x = pos 1; y = pos 0; z = pos 0 } }

abbrev beside_target : WorldStateTarget
beside_target = record { value = block beside }

abbrev place_stone : CommunicationEnvelope
place_stone = record {
  message_id = 7;
  kind = command;
  sender = "player:local";
  receiver = "world:state";
  context = "core:world";
  action = "core:block.place";
  capability = none;
  target = some beside_target;
  payload = block_place_payload 1;
  reply_to = none;
  correlation_id = none;
}

place_stone-AreTargets : AreTargets place_stone.target
unfolding AreTargets canonical canonical_block
place_stone-AreTargets u e = subst IsTarget (some_injective e) (record { valid = refl })

abbrev commanded : System BlockCommand ℕ WorldState
commanded = record { bus = new_bus 4 4; world = built }

commanded-idle : commanded.bus.trace_active ≡ false
unfolding new_bus
commanded-idle = refl

commanded-free : commanded.bus.ids ≢ uint64_max
unfolding new_bus
commanded-free e = absurd (ground (arith, e))

run_on_bus-answered_example :
    (result : CommandResultPayload) × (w' : WorldState) × Handled block_place place_stone built
      (ok result, w')
    × IsWorld w'
    × (run_on_bus block_place place_stone commanded ≡ (
      ok (reply_for place_stone result (commanded.bus.ids + 1) ∷ []),
      answered (commanded.bus.ids + 1) w' commanded,
    ))
run_on_bus-answered_example =
    run_on_bus-answered block_place place_stone commanded built-IsWorld place_stone-AreTargets
      commanded-idle commanded-free

-- The sink hears of a change at the origin twice.
abbrev heard : List Event
heard =
    property_changed at_origin "core:damage" (some (uint32 7))
    ∷ property_changed at_origin "core:damage" none
    ∷ block_changed origin_block_address 1 0
    ∷ []

replay-last_example :
    ((b : BlockAddress) → find b (replay heard (flush Sink.new)).block_deltas ≡ last_block b heard)
    × ((k : DeltaKey)
        → find k (replay heard (flush Sink.new)).property_deltas ≡ last_property k heard)
    × ((c : ChunkAddress) → is_dirty c (replay heard (flush Sink.new)) ≡ touched c heard)
replay-last_example = replay-last heard Sink.new
