-- ===== src/Registry.antt =====
-- world/registry/Registry.h: the registry of definitions by their id, the validation of a sidecar
-- type, and the registries of prototypes and of sidecar types. An insertion that throws changes
-- nothing.
pub mod Order
pub mod Sidecars
pub mod Claims
pub mod BlockIds
use clone_craft.Base.{
  ℕ, ◌+◌, String, Bool, true, false, not, ◌&&◌, Option, none, some, List, [], ◌∷◌, ◌++◌, leb, ◌==◌,
  string_key, same, ite,
}
use clone_craft.Assoc.{Map, find, put, contains, size, empty}
use clone_craft.Text.{is_namespaced_id}
use clone_craft.Values
use clone_craft.Values.{
  PropertyValue, SidecarValueType, SidecarScope, SidecarStorageStrategy, SidecarDef,
  value_fits_sidecar_def,
}
use clone_craft.Exec.{Result, ok, err, require, and_then}
use clone_craft.Comm.Error.{
  unknown_id, duplicate_id, block_claimed, bad_scope, bad_value_type, bad_storage, bad_sidecar_id,
  bad_bit_width, float_bit_width, bad_default, dense_hierarchy, no_version,
}

pub record Registry (D : Type 0) : Type 0 where
  pub entries : Map String D
  pub order : List String

module _ {D : Type 0} where
  abbrev pub new : Registry D
  new = record { entries = empty; order = [] }

  abbrev pub find_def : String → Registry D → Option D
  find_def id r = find id r.entries

  some_or_throw : Option D → Result D
  some_or_throw none = err unknown_id
  some_or_throw (some d) = ok d

  unfoldable pub get : String → Registry D → Result D
  unfolding some_or_throw
  get id r = some_or_throw (find id r.entries)

  abbrev pub has : String → Registry D → Bool
  has id r = contains id r.entries

  abbrev pub count : Registry D → ℕ
  count r = size r.entries

  -- The insertion of an entry with its id.
  unfoldable pub insert : String → D → Registry D → Result (Registry D)
  insert id d r =
      require (not (contains id r.entries)) duplicate_id
        (ok (record { entries = put id d r.entries; order = r.order ++ id ∷ [] }))

abbrev declared_scope : SidecarScope → Bool
declared_scope Values.block = true
declared_scope Values.chunk = true
declared_scope Values.chunk_group = true
declared_scope Values.section = true
declared_scope Values.region = true
declared_scope Values.sector = true
declared_scope (Values.forged_scope n) = false

abbrev declared_type : SidecarValueType → Bool
declared_type Values.uint8_type = true
declared_type Values.uint16_type = true
declared_type Values.uint32_type = true
declared_type Values.float_type = true
declared_type (Values.forged_type n) = false

abbrev declared_storage : SidecarStorageStrategy → Bool
declared_storage Values.sparse = true
declared_storage Values.dense = true
declared_storage (Values.forged_storage n) = false

abbrev pub is_float : SidecarValueType → Bool
is_float Values.float_type = true
is_float Values.uint8_type = false
is_float Values.uint16_type = false
is_float Values.uint32_type = false
is_float (Values.forged_type n) = false

abbrev pub is_block_scope : SidecarScope → Bool
is_block_scope Values.block = true
is_block_scope Values.chunk = false
is_block_scope Values.chunk_group = false
is_block_scope Values.section = false
is_block_scope Values.region = false
is_block_scope Values.sector = false
is_block_scope (Values.forged_scope n) = false

abbrev pub is_dense : SidecarStorageStrategy → Bool
is_dense Values.dense = true
is_dense Values.sparse = false
is_dense (Values.forged_storage n) = false

unfoldable pub validate_sidecar_def : SidecarDef → Result (Unit {0})
validate_sidecar_def def = require (declared_scope def.scope) bad_scope (
    require (declared_type def.value_type) bad_value_type (
      require (declared_storage def.storage) bad_storage (
        require (is_namespaced_id def.id) bad_sidecar_id (
          require (leb def.bit_width 32) bad_bit_width (
            require (not (is_float def.value_type && not (def.bit_width == 0))) float_bit_width (
              require (value_fits_sidecar_def def def.default_value) bad_default (
                require (not (not (is_block_scope def.scope) && is_dense def.storage))
                  dense_hierarchy
                  (require (not (def.serialization_version == 0)) no_version (ok tt)))))))))

abbrev pub SidecarRegistry : Type 0
SidecarRegistry = Registry SidecarDef

unfoldable pub insert_sidecar : SidecarDef → SidecarRegistry → Result SidecarRegistry
insert_sidecar def r = and_then (validate_sidecar_def def) λ _. insert def.id def r

pub record PrototypePropertyDef : Type 0 where
  pub id : String
  pub default_value : PropertyValue

pub record PrototypeDef : Type 0 where
  pub id : String
  pub display_name : String
  pub block_id : String
  pub capabilities : List String
  pub properties : List PrototypePropertyDef

pub record PrototypeRegistry : Type 0 where
  pub base : Registry PrototypeDef
  pub block_claims : Map String String

abbrev pub claimed_by : String → PrototypeRegistry → Option String
claimed_by block_id r = find block_id r.block_claims

unfoldable pub insert_prototype : PrototypeDef → PrototypeRegistry → Result PrototypeRegistry
insert_prototype p r = require (not (contains p.block_id r.block_claims)) block_claimed (
    and_then (insert p.id p r.base)
      λ base. ok (record { base = base; block_claims = put p.block_id p.id r.block_claims }))

-- world/registry/ObjectRef.h: `prototypeForBlock`, in the order of the ids.
prototype_among : List String → String → Registry PrototypeDef → Result (Option PrototypeDef)
prototype_among [] block_id r = ok none
prototype_among (id ∷ rest) block_id r =
    let later = prototype_among rest block_id r in
    and_then (get id r) λ def. ite (same def.block_id block_id) (ok (some def)) later

unfoldable pub prototype_for_block : String → PrototypeRegistry → Result (Option PrototypeDef)
unfolding prototype_among
prototype_for_block block_id r = prototype_among r.base.order block_id r.base
