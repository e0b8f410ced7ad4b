-- ===== src/World/Property/Shows.antt =====
-- What a write of a property is for those who read.
use clone_craft.Base.{
  ◌≡◌, ◌≢◌, refl, sym, ap, ◌∙◌, subst, String, Bool, true, false, ◌&&◌, Option, none, some, List,
  ◌++◌, string_key, if◌then◌else◌,
}
use clone_craft.Assoc.{is_some}
use clone_craft.Values.{PropertyValue, SidecarDef, value_eq, value_fits_sidecar_def}
use clone_craft.Exec.{Result, ok}
use clone_craft.Coords.{BlockAddress}
use clone_craft.State.Target.{WorldStateTarget, as_block}
use clone_craft.State.Hierarchy
use clone_craft.State.Hierarchy.{HierarchySidecarStore}
use clone_craft.Registry.{PrototypePropertyDef}
use clone_craft.Chunks.Manager.{ChunkManager}
use clone_craft.Chunks.Manager.View.{view, override, Place}
use clone_craft.World.{WorldState, Event, resolved}
use clone_craft.World.Order.{IsWorld, decl_at}
use clone_craft.World.Property.{delta, announce_if}
use clone_craft.World.Property.Effective.{IsTarget, effective, shown_in, shown_at}
use clone_craft.World.Property.Reads.{Registered, resolved-Registered}
use clone_craft.World.Property.Announced.{calls, with_events, announce-calls}

-- A value is taken where it fits the type and the target has the property.
unfoldable pub taken : Option SidecarDef → PropertyValue → Option PropertyValue → Bool
taken none value now = false
taken (some def) value now = value_fits_sidecar_def def value && is_some now

unfoldable pub accepts : WorldStateTarget → String → PropertyValue → WorldState → Bool
unfolding taken
accepts t id value w = taken (resolved t id w) value (effective t id w)

-- The override of a target.
abbrev pub stored_at :
    WorldStateTarget
    → Option BlockAddress
    → String
    → ChunkManager
    → HierarchySidecarStore
    → Option PropertyValue
stored_at t none id m h = Hierarchy.get t id h
stored_at t (some b) id m h = override b id m

abbrev pub stored : WorldStateTarget → String → WorldState → Option PropertyValue
stored t id w = stored_at t (as_block t) id w.chunks w.hierarchy

abbrev pub default_by : SidecarDef → Option PrototypePropertyDef → PropertyValue
default_by def none = def.default_value
default_by def (some decl) =
    if value_fits_sidecar_def def decl.default_value then decl.default_value else def.default_value

-- The default that a write at the target is compared with.
abbrev pub default_of : Option BlockAddress → String → SidecarDef → WorldState → PropertyValue
default_of none id def w = def.default_value
default_of (some b) id def w = default_by def (decl_at b id w)

-- The value is shown, and nothing else is shown otherwise.
pub record Shows (t : WorldStateTarget) (id : String) (value : PropertyValue) (w w' : WorldState)
    : Type 0 where
  pub world : IsWorld w'
  pub here : (x : PropertyValue) × (effective t id w' ≡ some x) × (value_eq x value ≡ true)
  pub elsewhere :
      (u : WorldStateTarget) (q : String)
      → IsTarget u
      → (t.value ≡ u.value → id ≢ q)
      → effective u q w' ≡ effective u q w
  pub blocks : (b : BlockAddress) → Place b → view b w'.chunks ≡ view b w.chunks

-- Every way out of a write.
pub data PropertyWritten (t : WorldStateTarget) (id : String) (value : PropertyValue)
    (w : WorldState) : Result Bool × WorldState → Type 0 where
  refused : accepts t id value w ≡ false → PropertyWritten t id value w (ok false, w)
  kept :
      (w' : WorldState) (def : SidecarDef)
      → accepts t id value w ≡ true
      → Registered t id w def
      → Shows t id value w w'
      → effective t id w' ≡ effective t id w
      → stored t id w' ≡ stored t id w
      → w'.events ≡ w.events
      → PropertyWritten t id value w (ok false, w')
  changed :
      (w' : WorldState) (def : SidecarDef)
      → accepts t id value w ≡ true
      → Shows t id value w w'
      → Registered t id w def
      → stored t id w' ≢ stored t id w
      → stored t id w' ≡ delta value (default_of (as_block t) id def w)
      → w'.events ≡ w.events ++ calls t id def (delta value (default_of (as_block t) id def w)) w
      → PropertyWritten t id value w (ok true, w')

abbrev pub stores : ChunkManager → HierarchySidecarStore → WorldState → WorldState
stores m h w = record w { chunks = m; hierarchy = h }

-- What is read depends on what is at the target.
pub effective-from :
    (u : WorldStateTarget) (q : String) (w : WorldState) (m : ChunkManager)
    (h : HierarchySidecarStore) (es : List Event)
    → ((def : SidecarDef)
        → shown_at u (as_block u) q def (record w { chunks = m; hierarchy = h; events = es })
          ≡ shown_at u (as_block u) q def w)
    → effective u q (record w { chunks = m; hierarchy = h; events = es }) ≡ effective u q w
unfolding effective shown_in
effective-from u q w m h es same = at (resolved u q w)
  where
    at :
        (o : Option SidecarDef)
        → shown_in u q o (record w { chunks = m; hierarchy = h; events = es }) ≡ shown_in u q o w
    at none = refl
    at (some def) = same def

effective-with_events :
    (u : WorldStateTarget) (q : String) (w : WorldState) (es : List Event)
    → effective u q (with_events es w) ≡ effective u q w
unfolding shown_at decl_at
effective-with_events u q w es =
    effective-from u q w w.chunks w.hierarchy (w.events ++ es) (λ def. at def (as_block u))
  where
    at :
        (def : SidecarDef) (o : Option BlockAddress)
        → shown_at u o q def (with_events es w) ≡ shown_at u o q def w
    at def none = refl
    at def (some b) = refl

with_events-Shows :
    (t : WorldStateTarget) (id : String) (value : PropertyValue) (w w' : WorldState)
    (es : List Event)
    → Shows t id value w w'
    → Shows t id value w (with_events es w')
with_events-Shows t id value w w' es s = record {
  world = record {
    chunks = s.world.chunks;
    claimed = s.world.claimed;
    checked = s.world.checked;
    known = s.world.known;
    typed = s.world.typed;
    typed_above = s.world.typed_above;
  };
  here = let (x, shown, e) = s.here in (x, effective-with_events t id w' es ∙ shown, e);
  elsewhere = λ u q target apart. effective-with_events u q w' es ∙ s.elsewhere u q target apart;
  blocks = s.blocks;
}

-- From the write of the store on: the calls follow a change.
pub announced-PropertyWritten :
    (t : WorldStateTarget) (id : String) (value d : PropertyValue) (def : SidecarDef)
    (w : WorldState) (m : ChunkManager) (h : HierarchySidecarStore) (told : Bool)
    → accepts t id value w ≡ true
    → resolved t id w ≡ some def
    → d ≡ default_of (as_block t) id def w
    → Shows t id value w (stores m h w)
    → (told ≡ false → effective t id (stores m h w) ≡ effective t id w)
    → (told ≡ false → stored t id (stores m h w) ≡ stored t id w)
    → (told ≡ true → stored t id (stores m h w) ≢ stored t id w)
    → (told ≡ true → stored t id (stores m h w) ≡ delta value d)
    → PropertyWritten t id value w (announce_if told t id def (delta value d) (stores m h w))
unfolding announce_if calls
announced-PropertyWritten t id value d def w m h false a r e s same quiet loud now =
    kept (stores m h w) def a (resolved-Registered t id w def r) s (same refl) (quiet refl) refl
announced-PropertyWritten t id value d def w m h true a r e s same quiet loud now =
    let es = calls t id def (delta value d) w in
    subst (PropertyWritten t id value w)
      (ap (λ x. (ok true, x)) (sym (announce-calls t id def (delta value d) (stores m h w))))
      (changed (with_events es (stores m h w)) def a
        (with_events-Shows t id value w (stores m h w) es s) (resolved-Registered t id w def r)
        (loud refl) (now refl ∙ ap (λ x. delta value x) e)
        (ap (λ x. w.events ++ calls t id def (delta value x) w) e))
