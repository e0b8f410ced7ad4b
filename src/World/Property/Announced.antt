-- ===== src/World/Property/Announced.antt =====
-- The calls of the hooks and of the sink that follow a change of a property.
use clone_craft.Base.{
  ◌≡◌, refl, sym, ap, ◌∙◌, append-nil, append_assoc, String, Bool, true, false, ◌&&◌, Option, none,
  some, List, [], ◌∷◌, ◌++◌,
}
use clone_craft.Values.{PropertyValue, SidecarDef}
use clone_craft.Coords.{BlockAddress}
use clone_craft.State.Target.{WorldStateTarget, as_block}
use clone_craft.World.{
  WorldState, Event, target_hook, block_hook, property_changed, emit, emit_any_change,
}
use clone_craft.World.Property.{announce}

abbrev pub call : Bool → Event → List Event
call true e = e ∷ []
call false e = []

block_calls : Bool → Option BlockAddress → String → List Event
block_calls heard none what = []
block_calls heard (some b) what = call heard (block_hook b what)

-- The target hook is called, then the block hook where the target is a block.
unfoldable pub hooks : WorldStateTarget → String → WorldState → List Event
unfolding block_calls
hooks t what w =
    call w.on_target_change (target_hook t what) ++ block_calls w.on_change (as_block t) what

-- Then the sink hears of a property that is kept.
unfoldable pub calls :
    WorldStateTarget → String → SidecarDef → Option PropertyValue → WorldState → List Event
unfolding hooks
calls t id def v w = hooks t id w ++ call (w.sink && def.persist) (property_changed t id v)

abbrev pub with_events : List Event → WorldState → WorldState
with_events es w = record w { events = w.events ++ es }

pub with_none : (w : WorldState) → with_events [] w ≡ w
with_none w = λ i. record w { events = append-nil w.events i }

pub with_both :
    (es fs : List Event) (w : WorldState)
    → with_events fs (with_events es w) ≡ with_events (es ++ fs) w
with_both es fs w = λ i. record w { events = append_assoc w.events es fs i }

pub emit-call :
    (heard : Bool) (e : Event) (w : WorldState) → emit heard e w ≡ with_events (call heard e) w
unfolding emit
emit-call true e w = refl
emit-call false e w = sym (with_none w)

pub emit_any_change-hooks :
    (t : WorldStateTarget) (what : String) (w : WorldState)
    → emit_any_change t what w ≡ with_events (hooks t what w) w
unfolding emit_any_change hooks block_calls
emit_any_change-hooks t what w = at (as_block t)
  where
    at :
        (o : Option BlockAddress)
        → (let told = emit w.on_target_change (target_hook t what) w in
            elim o [ none ↦ told | some b ↦ emit told.on_change (block_hook b what) told ])
          ≡ with_events
              (call w.on_target_change (target_hook t what) ++ block_calls w.on_change o what)
              w
    at none =
        emit-call w.on_target_change (target_hook t what) w
        ∙ ap (λ es. with_events es w) (sym (append-nil _))
    at (some b) =
        ap (λ told. emit told.on_change (block_hook b what) told)
          (emit-call w.on_target_change (target_hook t what) w)
        ∙ emit-call w.on_change (block_hook b what) _
        ∙ with_both _ _ w

pub announce-calls :
    (t : WorldStateTarget) (id : String) (def : SidecarDef) (v : Option PropertyValue)
    (w : WorldState)
    → announce t id def v w ≡ with_events (calls t id def v w) w
unfolding announce calls
announce-calls t id def v w =
    ap (λ told. emit (told.sink && def.persist) (property_changed t id v) told)
      (emit_any_change-hooks t id w)
    ∙ emit-call (w.sink && def.persist) (property_changed t id v) _
    ∙ with_both _ _ w
