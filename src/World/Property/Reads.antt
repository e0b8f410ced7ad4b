-- ===== src/World/Property/Reads.antt =====
-- What a target should show of a property, told apart from the way it is computed.
use clone_craft.Base.{
  ◌≡◌, ◌≢◌, refl, sym, ◌∙◌, subst, String, true, false, Option, none, some, List, [], ◌∷◌, same,
  if_pos, if_neg, string_key, if_both, some_injective, arith,
}
use clone_craft.Assoc.{find}
use clone_craft.Values.{PropertyValue, SidecarDef, SidecarScope-discrete, value_fits_sidecar_def}
use clone_craft.Coords.{BlockAddress}
use clone_craft.State.Target.{WorldStateTarget, as_block, block, scope}
use clone_craft.State.Hierarchy
use clone_craft.Registry.{PrototypeDef, PrototypePropertyDef}
use clone_craft.Chunks.Manager.View.{view, override}
use clone_craft.World.{
  WorldState, in_scope, resolved, property_decl, declared_by, logical_default_for,
}
use clone_craft.World.Order.{owner, decl_at}
use clone_craft.World.Property.{or_default}
use clone_craft.World.Property.Effective.{
  effective, shown_in, shown_at, shown_by, not-a-block, as_block-block,
}

-- The first of the declared properties with the id.
pub data First (id : String) (decl : PrototypePropertyDef)
    : List PrototypePropertyDef → Type 0 where
  head : (rest : List PrototypePropertyDef) → decl.id ≡ id → First id decl (decl ∷ rest)
  later :
      (p : PrototypePropertyDef) (rest : List PrototypePropertyDef)
      → p.id ≢ id
      → First id decl rest
      → First id decl (p ∷ rest)

pub data Lacks (id : String) : List PrototypePropertyDef → Type 0 where
  nothing : Lacks id []
  another :
      (p : PrototypePropertyDef) (rest : List PrototypePropertyDef)
      → p.id ≢ id
      → Lacks id rest
      → Lacks id (p ∷ rest)

-- No object is there, or one that does not declare the property.
pub data Undeclared (id : String) : Option PrototypeDef → Type 0 where
  no_object : Undeclared id none
  lacking : (p : PrototypeDef) → Lacks id p.properties → Undeclared id (some p)

-- The default of the declaration, unless it does not fit the type.
pub data Defaults (def : SidecarDef) (decl : PrototypePropertyDef) : PropertyValue → Type 0 where
  own : value_fits_sidecar_def def decl.default_value ≡ true → Defaults def decl decl.default_value
  of_type :
      value_fits_sidecar_def def decl.default_value ≡ false → Defaults def decl def.default_value

-- An override goes before the default.
pub data Falls (d : PropertyValue) : Option PropertyValue → PropertyValue → Type 0 where
  overridden : (v : PropertyValue) → Falls d (some v) v
  default : Falls d none d

-- The type of a property that is registered for the scope of the target.
pub record Registered (t : WorldStateTarget) (id : String) (w : WorldState) (def : SidecarDef)
    : Type 0 where
  pub found : find id w.sidecars.entries ≡ some def
  pub scoped : def.scope ≡ scope t

pub data Reads (t : WorldStateTarget) (id : String) (w : WorldState)
    : Option PropertyValue → Type 0 where
  unknown : find id w.sidecars.entries ≡ none → Reads t id w none
  elsewhere :
      (def : SidecarDef)
      → find id w.sidecars.entries ≡ some def
      → def.scope ≢ scope t
      → Reads t id w none
  undeclared :
      (def : SidecarDef) (b : BlockAddress)
      → Registered t id w def
      → t.value ≡ block b
      → Undeclared id (owner (view b w.chunks) w.ids w.prototypes)
      → Reads t id w none
  at_block :
      (def : SidecarDef) (b : BlockAddress) (p : PrototypeDef) (decl : PrototypePropertyDef)
      (d x : PropertyValue)
      → Registered t id w def
      → t.value ≡ block b
      → owner (view b w.chunks) w.ids w.prototypes ≡ some p
      → First id decl p.properties
      → Defaults def decl d
      → Falls d (override b id w.chunks) x
      → Reads t id w (some x)
  above_block :
      (def : SidecarDef) (x : PropertyValue)
      → Registered t id w def
      → ((b : BlockAddress) → t.value ≢ block b)
      → Falls def.default_value (Hierarchy.get t id w.hierarchy) x
      → Reads t id w (some x)

pub resolved-Registered :
    (t : WorldStateTarget) (id : String) (w : WorldState) (def : SidecarDef)
    → resolved t id w ≡ some def
    → Registered t id w def
resolved-Registered t id w def h = at (find id w.sidecars.entries) refl h
  where
    at :
        (o : Option SidecarDef)
        → find id w.sidecars.entries ≡ o
        → in_scope t o ≡ some def
        → Registered t id w def
    at none e h = absurd (ground (arith, h))
    at (some d) e h = elim (SidecarScope-discrete d.scope (scope t)) [
      | yes s ↦
          subst (λ x. Registered t id w x)
            (some_injective (sym (if_pos (SidecarScope-discrete d.scope (scope t)) s _ _) ∙ h))
            (record { found = e; scoped = s })
      | no n ↦
          absurd (ground (arith, sym (if_neg (SidecarScope-discrete d.scope (scope t)) n _ _) ∙ h))
    ]

property_decl-First :
    (id : String) (ps : List PrototypePropertyDef) (decl : PrototypePropertyDef)
    → property_decl id ps ≡ some decl
    → First id decl ps
unfolding property_decl
property_decl-First id [] decl h = absurd (ground (arith, h))
property_decl-First id (p ∷ rest) decl h = elim (same p.id id) [
  | yes e ↦
      subst (λ q. First id q (p ∷ rest)) (ground (arith, sym (if_pos (same p.id id) e _ _) ∙ h))
        (head rest e)
  | no n ↦ later p rest n (property_decl-First id rest decl (sym (if_neg (same p.id id) n _ _) ∙ h))
]

property_decl-Lacks :
    (id : String) (ps : List PrototypePropertyDef) → property_decl id ps ≡ none → Lacks id ps
unfolding property_decl
property_decl-Lacks id [] h = nothing
property_decl-Lacks id (p ∷ rest) h = elim (same p.id id) [
  | yes e ↦ absurd (ground (arith, sym (if_pos (same p.id id) e _ _) ∙ h))
  | no n ↦ another p rest n (property_decl-Lacks id rest (sym (if_neg (same p.id id) n _ _) ∙ h))
]

declared_by-Undeclared :
    (id : String) (o : Option PrototypeDef) → declared_by id o ≡ none → Undeclared id o
unfolding declared_by
declared_by-Undeclared id none h = no_object
declared_by-Undeclared id (some p) h = lacking p (property_decl-Lacks id p.properties h)

declared_by-First :
    (id : String) (o : Option PrototypeDef) (decl : PrototypePropertyDef)
    → declared_by id o ≡ some decl
    → (p : PrototypeDef) × (o ≡ some p) × First id decl p.properties
unfolding declared_by
declared_by-First id none decl h = absurd (ground (arith, h))
declared_by-First id (some p) decl h = (p, refl, property_decl-First id p.properties decl h)

logical_default-Defaults :
    (def : SidecarDef) (decl : PrototypePropertyDef)
    → Defaults def decl (logical_default_for def decl)
unfolding logical_default_for
logical_default-Defaults def decl =
    if_both (Defaults def decl) (value_fits_sidecar_def def decl.default_value) _ _ (λ h. own h)
      (λ h. of_type h)

or_default-Falls : (o : Option PropertyValue) (d : PropertyValue) → Falls d o (or_default o d)
or_default-Falls none d = default
or_default-Falls (some v) d = overridden v

module _ (t : WorldStateTarget) (id : String) (w : WorldState) where
  shown_by-Reads :
      (def : SidecarDef) (b : BlockAddress) (o : Option PrototypePropertyDef)
      → Registered t id w def
      → as_block t ≡ some b
      → decl_at b id w ≡ o
      → Reads t id w (shown_by def o (override b id w.chunks))
  unfolding decl_at
  shown_by-Reads def b none r h e =
      undeclared def b r (as_block-block t b h) (declared_by-Undeclared id _ e)
  shown_by-Reads def b (some decl) r h e =
      let (p, there, first) = declared_by-First id _ decl e in
      at_block def b p decl (logical_default_for def decl) _ r (as_block-block t b h) there first
        (logical_default-Defaults def decl) (or_default-Falls (override b id w.chunks) _)

  shown_at-Reads :
      (def : SidecarDef) (o : Option BlockAddress)
      → Registered t id w def
      → as_block t ≡ o
      → Reads t id w (shown_at t o id def w)
  unfolding shown_at
  shown_at-Reads def (some b) r h = shown_by-Reads def b (decl_at b id w) r h refl
  shown_at-Reads def none r h =
      above_block def _ r (not-a-block t h) (or_default-Falls (Hierarchy.get t id w.hierarchy) _)

  shown_in-Reads :
      (o : Option SidecarDef)
      → find id w.sidecars.entries ≡ o
      → Reads t id w (shown_in t id (in_scope t o) w)
  unfolding shown_in
  shown_in-Reads none h = unknown h
  shown_in-Reads (some def) h = elim (SidecarScope-discrete def.scope (scope t)) [
    | yes e ↦
        subst (λ o. Reads t id w (shown_in t id o w))
          (sym (if_pos (SidecarScope-discrete def.scope (scope t)) e (some def) none))
          (shown_at-Reads def (as_block t) (record { found = h; scoped = e }) refl)
    | no n ↦
        subst (λ o. Reads t id w (shown_in t id o w))
          (sym (if_neg (SidecarScope-discrete def.scope (scope t)) n (some def) none))
          (elsewhere def h n)
  ]

  -- What a target shows is what it should.
  pub effective-Reads : Reads t id w (effective t id w)
  unfolding effective
  effective-Reads = shown_in-Reads (find id w.sidecars.entries) refl
