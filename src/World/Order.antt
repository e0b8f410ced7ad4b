-- ===== src/World/Order.antt =====
-- What a world state that is in order satisfies, and what an object declares.
use clone_craft.Base.{
  ℕ, ◌<◌, ◌≡◌, refl, ap, ◌∙◌, String, Bool, true, Option, none, some, ◌==◌, length, get_elem?,
  get_elem?_in, if◌then◌else◌, arith, Bool-cases, inl, inr, string_key,
}
use clone_craft.Assoc.{find}
use clone_craft.Values.{PropertyValue, SidecarDef, value_fits_sidecar_def}
use clone_craft.Exec.{ok, and_then}
use clone_craft.Coords.{BlockAddress}
use clone_craft.State.Target.{WorldStateTarget}
use clone_craft.State.Hierarchy
use clone_craft.State.Hierarchy.Separate.{new_store-get}
use clone_craft.Registry.{SidecarRegistry, PrototypeRegistry, PrototypeDef, PrototypePropertyDef}
use clone_craft.Registry.Claims.{IsClaimed, owner_of, prototype_for_block-owner_of}
use clone_craft.Registry.Sidecars.{IsChecked}
use clone_craft.Registry.BlockIds.{BlockIdTable, id_of}
use clone_craft.Chunks.Manager.{new_manager, or_air}
use clone_craft.Chunks.Manager.Properties.{takes}
use clone_craft.Chunks.Manager.Placement.{IsManager, new_manager-IsManager, new_manager-chunk_of}
use clone_craft.Chunks.Manager.View.{
  view, override, Place, try_block_at-view, view-absent, override-absent,
}
use clone_craft.World.{WorldState, new_world, declared, declared_by, prototype_at, prototype_of}

-- A value of a registered property, within its type and width.
abbrev pub Fits : SidecarRegistry → String → PropertyValue → Type 0
Fits r id v =
    (def : SidecarDef) × (find id r.entries ≡ some def) × (value_fits_sidecar_def def v ≡ true)

pub record IsWorld (w : WorldState) : Type 0 where
  pub chunks : IsManager w.chunks
  pub claimed : IsClaimed w.prototypes
  pub checked : IsChecked w.sidecars
  pub known :
      (b : BlockAddress) (id : ℕ) → Place b → view b w.chunks ≡ some id → id < length w.ids.ids
  pub typed :
      (b : BlockAddress) (id : String) (v : PropertyValue)
      → Place b
      → override b id w.chunks ≡ some v
      → Fits w.sidecars id v
  pub typed_above :
      (t : WorldStateTarget) (id : String) (v : PropertyValue)
      → Hierarchy.get t id w.hierarchy ≡ some v
      → Fits w.sidecars id v

named : Option String → PrototypeRegistry → Option PrototypeDef
named none r = none
named (some name) r = owner_of name r

-- The prototype of a runtime id: that which claims the block of the id.
unfoldable pub owner : Option ℕ → BlockIdTable → PrototypeRegistry → Option PrototypeDef
unfolding named
owner none ids r = none
owner (some id) ids r = if id == 0 then none else named (get_elem? ids.ids id) r

-- What the object at an address declares of a property, read off the world of blocks.
unfoldable pub decl_at : BlockAddress → String → WorldState → Option PrototypePropertyDef
unfolding owner
decl_at b id w = declared_by id (owner (view b w.chunks) w.ids w.prototypes)

module _ (w : WorldState) (v : IsWorld w) where
  prototype_of-owner :
      (o : Option ℕ)
      → ((id : ℕ) → o ≡ some id → id < length w.ids.ids)
      → prototype_of o w ≡ ok (owner o w.ids w.prototypes)
  unfolding prototype_of owner named id_of
  prototype_of-owner none h = refl
  prototype_of-owner (some id) h =
      let (name, e) = get_elem?_in w.ids.ids id (h id refl) in
      ground (arith, e, prototype_for_block-owner_of name w.prototypes v.claimed)

  -- A lookup of what an object declares does not throw.
  pub declared-decl_at :
      (b : BlockAddress) (id : String) → Place b → declared b id w ≡ ok (decl_at b id w)
  unfolding declared decl_at prototype_at
  declared-decl_at b id p =
      ap (λ r. and_then (and_then r λ o. prototype_of o w) λ o. ok (declared_by id o))
        (try_block_at-view b w.chunks p)
      ∙ ap (λ r. and_then r λ o. ok (declared_by id o))
          (prototype_of-owner (view b w.chunks) (λ i h. v.known b i p h))

owner-air :
    (o : Option ℕ) (ids : BlockIdTable) (r : PrototypeRegistry)
    → (or_air o == 0) ≡ true
    → owner o ids r ≡ none
unfolding owner
owner-air none ids r h = refl
owner-air (some id) ids r h = ground (arith, h)

-- An object that declares a property is a block that is loaded and not air.
pub decl_at-takes :
    (b : BlockAddress) (id : String) (w : WorldState) (decl : PrototypePropertyDef)
    → decl_at b id w ≡ some decl
    → takes b w.chunks ≡ true
unfolding decl_at declared_by
decl_at-takes b id w decl h = elim (Bool-cases (or_air (view b w.chunks) == 0)) [
  | inl e ↦ absurd (ground (arith, h, owner-air (view b w.chunks) w.ids w.prototypes e))
  | inr n ↦ ground (arith, n)
]

-- A world without chunks is in order if its registries are.
pub new_world-IsWorld :
    (observed : Bool) (ids : BlockIdTable) (sidecars : SidecarRegistry)
    (prototypes : PrototypeRegistry)
    → IsChecked sidecars
    → IsClaimed prototypes
    → IsWorld (new_world (new_manager observed) ids sidecars prototypes)
new_world-IsWorld observed ids sidecars prototypes checked claimed =
    let absent = λ (b : BlockAddress). new_manager-chunk_of observed b.chunk in
    record {
      chunks = new_manager-IsManager observed;
      claimed = claimed;
      checked = checked;
      known =
          λ b id p h. absurd (ground (arith, h, view-absent b (new_manager observed) p (absent b)));
      typed = λ b id v p h.
          absurd (ground (arith, h, override-absent b id (new_manager observed) p (absent b)));
      typed_above = λ t id v h. absurd (ground (arith, h, new_store-get t id));
    }
