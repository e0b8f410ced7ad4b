-- ===== src/World/Block.antt =====
-- `setBlock` and `blockAt`.
pub mod Calls
pub mod Outcome
pub mod Replaced
use clone_craft.Base.{
  ℕ, String, Bool, true, false, Option, none, some, List, [], ◌∷◌, leb, if◌then◌else◌, string_key,
}
use clone_craft.Assoc.{find, is_some}
use clone_craft.Values.{SidecarDef}
use clone_craft.Exec.{Result, ok, err, pure, lift, ◌>>=◌, ◌>>◌, and_then}
use clone_craft.Comm.Error.{bad_address}
use clone_craft.Coords.{BlockAddress}
use clone_craft.State.Target.{WorldStateTarget, block, make}
use clone_craft.State.Hierarchy
use clone_craft.Registry.BlockIds.{table_size}
use clone_craft.Chunks.Manager
use clone_craft.Chunks.Manager.{or_air}
use clone_craft.World.{
  WorldState, W, reading, on_chunks, emit, emit_any_change, property_changed, block_changed,
}

-- `WorldStateTarget{ address }`, which throws at an address that is not canonical.
abbrev pub target_or_throw : Option WorldStateTarget → Result WorldStateTarget
target_or_throw none = err bad_address
target_or_throw (some t) = ok t

-- `def && def->persist && blockProperty( address, id )`
is_stored : Option SidecarDef → BlockAddress → String → WorldState → Result Bool
is_stored none b id w = ok false
is_stored (some def) b id w =
    if def.persist
    then (and_then (Manager.block_property b id w.chunks) λ v. ok (is_some v))
    else ok false

-- The overrides at the block that the sink will hear of.
removed_among : List String → BlockAddress → WorldState → Result (List String)
unfolding is_stored
removed_among [] b w = ok []
removed_among (id ∷ rest) b w =
    let others = removed_among rest b w in
    and_then (is_stored (find id w.sidecars.entries) b id w)
      λ here. and_then others λ ids. ok (if here then id ∷ ids else ids)

pub removed_properties : BlockAddress → WorldState → Result (List String)
unfolding removed_among
removed_properties b w = if w.sink then removed_among w.sidecars.order b w else ok []

emit_removed : WorldStateTarget → List String → WorldState → WorldState
emit_removed t [] w = w
emit_removed t (id ∷ rest) w = emit_removed t rest (emit true (property_changed t id none) w)

-- The hooks hear of the block; the sink hears of each override that went and then of the block.
pub announce_block : WorldStateTarget → BlockAddress → List String → ℕ → ℕ → WorldState → WorldState
unfolding emit_removed emit_any_change
announce_block t b removed previous id w =
    let told = emit_any_change t "block" w in
    if told.sink
    then emit true (block_changed b previous id) (emit_removed t removed told)
    else told

block_placed : Bool → BlockAddress → List String → ℕ → ℕ → W Bool
unfolding announce_block
block_placed false b removed previous id = pure false
block_placed true b removed previous id = do
  t ← lift (target_or_throw (make (block b)))
  λ w. (ok true, announce_block t b removed previous id w)

place_block : BlockAddress → ℕ → W Bool
unfolding block_placed removed_properties on_chunks
place_block b id = do
  removed ← reading (removed_properties b)
  previous ← reading (λ w. Manager.try_block_at b w.chunks)
  changed ← on_chunks (Manager.set_block b id)
  block_placed changed b removed (or_air previous) id

unfoldable pub set_block : BlockAddress → ℕ → W Bool
unfolding place_block
set_block b id w = if leb (table_size w.ids) id then (ok false, w) else place_block b id w

unfoldable pub block_at : BlockAddress → WorldState → Result (Option ℕ)
block_at b w = Manager.try_block_at b w.chunks
