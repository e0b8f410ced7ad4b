-- ===== src/World/Property.antt =====
-- `has`, `get` and `set` of a property at a target.
pub mod Effective
pub mod Reads
pub mod Typed
pub mod Shows
pub mod AtBlock
pub mod Above
pub mod Stored
pub mod Announced
pub mod Written
use clone_craft.Base.{
  String, Bool, true, false, ◌&&◌, Option, none, some, if◌then◌else◌, string_key,
}
use clone_craft.Assoc.{is_some}
use clone_craft.Values.{PropertyValue, SidecarDef, value_eq, value_fits_sidecar_def}
use clone_craft.Exec.{Result, ok, pure, ◌>>=◌, ◌>>◌, and_then}
use clone_craft.Coords.{BlockAddress}
use clone_craft.State.Target.{WorldStateTarget, as_block}
use clone_craft.State.Hierarchy
use clone_craft.Registry.{PrototypePropertyDef}
use clone_craft.Chunks.Manager
use clone_craft.World.{
  WorldState, W, reading, on_chunks, emit, emit_any_change, declared, logical_default_for, resolved,
  property_changed,
}

has_at : Option BlockAddress → String → WorldState → Result Bool
has_at none id w = ok true
has_at (some b) id w = and_then (declared b id w) λ decl. ok (is_some decl)

has_def : WorldStateTarget → String → Option SidecarDef → WorldState → Result Bool
unfolding has_at
has_def t id none w = ok false
has_def t id (some def) w = has_at (as_block t) id w

unfoldable pub has : WorldStateTarget → String → WorldState → Result Bool
unfolding has_def
has t id w = has_def t id (resolved t id w) w

abbrev pub or_default : Option PropertyValue → PropertyValue → PropertyValue
or_default none d = d
or_default (some v) d = v

get_declared :
    BlockAddress
    → String
    → SidecarDef
    → Option PrototypePropertyDef
    → WorldState
    → Result (Option PropertyValue)
get_declared b id def none w = ok none
get_declared b id def (some decl) w =
    and_then (Manager.block_property b id w.chunks)
      λ stored. ok (some (or_default stored (logical_default_for def decl)))

get_at :
    WorldStateTarget
    → Option BlockAddress
    → String
    → SidecarDef
    → WorldState
    → Result (Option PropertyValue)
unfolding get_declared
get_at t (some b) id def w = and_then (declared b id w) λ decl. get_declared b id def decl w
get_at t none id def w = ok (some (or_default (Hierarchy.get t id w.hierarchy) def.default_value))

get_def : WorldStateTarget → String → Option SidecarDef → WorldState → Result (Option PropertyValue)
unfolding get_at
get_def t id none w = ok none
get_def t id (some def) w = get_at t (as_block t) id def w

unfoldable pub get : WorldStateTarget → String → WorldState → Result (Option PropertyValue)
unfolding get_def
get t id w = get_def t id (resolved t id w) w

-- `value == default ? std::nullopt : value`
abbrev pub delta : PropertyValue → PropertyValue → Option PropertyValue
delta v d = if value_eq v d then none else some v

-- What follows a write that changed a property.
pub announce :
    WorldStateTarget → String → SidecarDef → Option PropertyValue → WorldState → WorldState
unfolding emit_any_change
announce t id def v w =
    let told = emit_any_change t id w in
    emit (told.sink && def.persist) (property_changed t id v) told

pub announce_if : Bool → WorldStateTarget → String → SidecarDef → Option PropertyValue → W Bool
unfolding announce
announce_if true t id def v w = (ok true, announce t id def v w)
announce_if false t id def v w = (ok false, w)

set_declared :
    WorldStateTarget
    → BlockAddress
    → String
    → SidecarDef
    → PropertyValue
    → Option PrototypePropertyDef
    → W Bool
unfolding announce_if on_chunks
set_declared t b id def value none = pure false
set_declared t b id def value (some decl) = do
  let default = logical_default_for def decl
  changed ← on_chunks (Manager.set_block_property b id value default)
  announce_if changed t id def (delta value default)

pub set_at : WorldStateTarget → Option BlockAddress → String → SidecarDef → PropertyValue → W Bool
unfolding set_declared
set_at t (some b) id def value w =
    (do decl ← reading (declared b id); set_declared t b id def value decl) w
set_at t none id def value w =
    let (changed, h) = Hierarchy.set t id value def.default_value w.hierarchy in
    announce_if changed t id def (delta value def.default_value) (record w { hierarchy = h })

set_def : WorldStateTarget → String → Option SidecarDef → PropertyValue → W Bool
unfolding set_at
set_def t id none value w = (ok false, w)
set_def t id (some def) value w =
    if value_fits_sidecar_def def value then set_at t (as_block t) id def value w else (ok false, w)

unfoldable pub set : WorldStateTarget → String → PropertyValue → W Bool
unfolding set_def
set t id value w = set_def t id (resolved t id w) value w
