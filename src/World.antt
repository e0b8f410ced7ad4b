-- ===== src/World.antt =====
-- world/state/WorldState.h, WorldState.cpp: the one entry to the state of blocks and properties.
-- Hooks and the persistence sink are foreign: which of them are set is part of the state, their calls
-- are kept in order in `events`, and they are taken neither to throw nor to call the world state.
pub mod Order
pub mod Property
pub mod Block
pub mod Sink
pub mod Commands
use clone_craft.Base.{
  ℕ, String, Bool, false, Option, none, some, List, [], ◌∷◌, ◌++◌, ◌==◌, if◌then◌else◌, ite, same,
  string_key,
}
use clone_craft.Assoc.{find}
use clone_craft.Values.{PropertyValue, SidecarDef, SidecarScope-discrete, value_fits_sidecar_def}
use clone_craft.Exec.{Result, ok, Exec, and_then}
use clone_craft.Coords.{BlockAddress}
use clone_craft.State.Target.{WorldStateTarget, scope, as_block}
use clone_craft.State.Hierarchy
use clone_craft.State.Hierarchy.{HierarchySidecarStore, new_store}
use clone_craft.Registry.{
  SidecarRegistry, PrototypeRegistry, PrototypeDef, PrototypePropertyDef, prototype_for_block,
}
use clone_craft.Registry.BlockIds.{BlockIdTable, id_of}
use clone_craft.Chunks.Manager
use clone_craft.Chunks.Manager.{ChunkManager}

-- The calls of the hooks and of the sink, with their arguments.
pub data Event : Type 0 where
  block_hook : BlockAddress → String → Event
  target_hook : WorldStateTarget → String → Event
  property_changed : WorldStateTarget → String → Option PropertyValue → Event
  block_changed : BlockAddress → ℕ → ℕ → Event

pub record WorldState : Type 0 where
  pub chunks : ChunkManager
  pub ids : BlockIdTable
  pub sidecars : SidecarRegistry
  pub prototypes : PrototypeRegistry
  pub hierarchy : HierarchySidecarStore
  pub on_change : Bool
  pub on_target_change : Bool
  pub sink : Bool
  pub events : List Event

-- The constructor: no hook and no sink is set.
abbrev pub new_world :
    ChunkManager → BlockIdTable → SidecarRegistry → PrototypeRegistry → WorldState
new_world chunks ids sidecars prototypes = record {
  chunks = chunks;
  ids = ids;
  sidecars = sidecars;
  prototypes = prototypes;
  hierarchy = new_store;
  on_change = false;
  on_target_change = false;
  sink = false;
  events = [];
}

abbrev pub W : Type 0 → Type 0
W A = Exec WorldState A

-- A computation that reads.
abbrev pub reading : {A : Type 0} → (WorldState → Result A) → W A
reading f w = (f w, w)

unfoldable pub on_chunks : {A : Type 0} → Exec ChunkManager A → W A
on_chunks f w = let (r, m) = f w.chunks in (r, record w { chunks = m })

unfoldable pub emit : Bool → Event → WorldState → WorldState
emit heard e w = if heard then record w { events = w.events ++ e ∷ [] } else w

-- The target hook, and the block hook where the target is a block.
unfoldable pub emit_any_change : WorldStateTarget → String → WorldState → WorldState
unfolding emit
emit_any_change t what w =
    let told = emit w.on_target_change (target_hook t what) w in
    elim (as_block t) [ none ↦ told | some b ↦ emit told.on_change (block_hook b what) told ]

prototype_of : Option ℕ → WorldState → Result (Option PrototypeDef)
prototype_of none w = ok none
prototype_of (some id) w =
    if id == 0
    then ok none
    else and_then (id_of id w.ids) λ name. prototype_for_block name w.prototypes

unfoldable pub prototype_at : BlockAddress → WorldState → Result (Option PrototypeDef)
unfolding prototype_of
prototype_at b w = and_then (Manager.try_block_at b w.chunks) λ id. prototype_of id w

pub property_decl : String → List PrototypePropertyDef → Option PrototypePropertyDef
property_decl id [] = none
property_decl id (p ∷ rest) = ite (same p.id id) (some p) (property_decl id rest)

-- What the object declares of the property; `none` where there is no object.
pub declared_by : String → Option PrototypeDef → Option PrototypePropertyDef
unfolding property_decl
declared_by id none = none
declared_by id (some p) = property_decl id p.properties

unfoldable pub declared : BlockAddress → String → WorldState → Result (Option PrototypePropertyDef)
unfolding declared_by
declared b id w = and_then (prototype_at b w) λ p. ok (declared_by id p)

unfoldable pub logical_default_for : SidecarDef → PrototypePropertyDef → PropertyValue
logical_default_for def decl =
    if value_fits_sidecar_def def decl.default_value then decl.default_value else def.default_value

-- `!def || def->scope != target.scope( )`, turned round.
abbrev pub in_scope : WorldStateTarget → Option SidecarDef → Option SidecarDef
in_scope t none = none
in_scope t (some def) = ite (SidecarScope-discrete def.scope (scope t)) (some def) none

abbrev pub resolved : WorldStateTarget → String → WorldState → Option SidecarDef
resolved t id w = in_scope t (find id w.sidecars.entries)
