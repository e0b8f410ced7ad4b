-- ===== src/World/Block/Calls.antt =====
-- The calls that follow the replacement of a block.
use clone_craft.Base.{
  ℕ, ◌≡◌, refl, sym, ap, ◌∙◌, String, Bool, true, false, ◌&&◌, Option, none, some, List, [], ◌∷◌,
  ◌++◌, append-nil, if◌then◌else◌, string_key,
}
use clone_craft.Assoc.{find, is_some}
use clone_craft.Values.{PropertyValue, SidecarDef}
use clone_craft.Exec.{ok, and_then}
use clone_craft.Coords.{BlockAddress}
use clone_craft.State.Target.{WorldStateTarget}
use clone_craft.Chunks.Manager.{ChunkManager}
use clone_craft.Chunks.Manager.View.{override, Place, block_property-override}
use clone_craft.World.{WorldState, Event, property_changed, block_changed, emit}
use clone_craft.World.Property.Announced.{
  hooks, with_events, with_both, with_none, emit-call, emit_any_change-hooks,
}
use clone_craft.World.Block.{
  announce_block, emit_removed, removed_among, removed_properties, is_stored,
}

is_lost : Option SidecarDef → Option PropertyValue → Bool
is_lost none o = false
is_lost (some def) o = def.persist && is_some o

lost_among : List String → BlockAddress → WorldState → List String
unfolding is_lost
lost_among [] b w = []
lost_among (id ∷ rest) b w =
    let others = lost_among rest b w in
    if is_lost (find id w.sidecars.entries) (override b id w.chunks) then id ∷ others else others

-- The kept properties that are overridden at a block, in the order of the registry.
pub lost : BlockAddress → WorldState → List String
unfolding lost_among
lost b w = lost_among w.sidecars.order b w

removals : WorldStateTarget → List String → List Event
removals t [] = []
removals t (id ∷ rest) = property_changed t id none ∷ removals t rest

sink_calls : Bool → WorldStateTarget → BlockAddress → List String → ℕ → ℕ → List Event
unfolding removals
sink_calls true t b removed previous id = removals t removed ++ block_changed b previous id ∷ []
sink_calls false t b removed previous id = []

-- The hooks, and then the sink: the overrides that went, and the block.
pub block_calls : WorldStateTarget → BlockAddress → ℕ → ℕ → WorldState → List Event
unfolding sink_calls
block_calls t b previous id w = hooks t "block" w ++ sink_calls w.sink t b (lost b w) previous id

module _ (w : WorldState) (b : BlockAddress) (p : Place b) where
  is_stored-lost :
      (o : Option SidecarDef) (id : String)
      → is_stored o b id w ≡ ok (is_lost o (override b id w.chunks))
  unfolding is_stored is_lost
  is_stored-lost none id = refl
  is_stored-lost (some def) id =
      ap (λ r. if def.persist then (and_then r λ v. ok (is_some v)) else ok false)
        (block_property-override b id w.chunks p)
      ∙ at def.persist
    where
      at :
          (z : Bool)
          → (if z then ok (is_some (override b id w.chunks)) else ok false)
            ≡ ok (z && is_some (override b id w.chunks))
      at true = refl
      at false = refl

  removed_among-lost : (ids : List String) → removed_among ids b w ≡ ok (lost_among ids b w)
  unfolding removed_among lost_among
  removed_among-lost [] = refl
  removed_among-lost (id ∷ rest) = (λ i.
      and_then (is_stored-lost (find id w.sidecars.entries) id i)
        λ here. and_then (removed_among-lost rest i) λ ids. ok (if here then id ∷ ids else ids))

  pub removed_properties-lost : removed_properties b w ≡ ok (if w.sink then lost b w else [])
  unfolding removed_properties lost
  removed_properties-lost = at w.sink
    where
      at :
          (z : Bool)
          → (if z then removed_among w.sidecars.order b w else ok [])
            ≡ ok (if z then lost_among w.sidecars.order b w else [])
      at true = removed_among-lost w.sidecars.order
      at false = refl

emit_removed-removals :
    (t : WorldStateTarget) (ids : List String) (w : WorldState)
    → emit_removed t ids w ≡ with_events (removals t ids) w
unfolding emit_removed removals
emit_removed-removals t [] w = sym (with_none w)
emit_removed-removals t (id ∷ rest) w =
    ap (λ x. emit_removed t rest x) (emit-call true (property_changed t id none) w)
    ∙ emit_removed-removals t rest (with_events (property_changed t id none ∷ []) w)
    ∙ with_both (property_changed t id none ∷ []) (removals t rest) w

pub announce_block-calls :
    (t : WorldStateTarget) (b : BlockAddress) (previous id : ℕ) (w : WorldState) (m : ChunkManager)
    → announce_block t b (if w.sink then lost b w else []) previous id (record w { chunks = m })
      ≡ with_events (block_calls t b previous id w) (record w { chunks = m })
unfolding announce_block block_calls sink_calls hooks
announce_block-calls t b previous id w m =
    ap
      (λ told.
        if told.sink
        then emit true e (emit_removed t (if w.sink then lost b w else []) told)
        else told)
      (emit_any_change-hooks t "block" w₁)
    ∙ at w.sink
  where
    e : Event
    e = block_changed b previous id

    w₁ : WorldState
    w₁ = record w { chunks = m }

    w₂ : WorldState
    w₂ = with_events (hooks t "block" w₁) w₁

    at :
        (z : Bool)
        → (if z then emit true e (emit_removed t (if z then lost b w else []) w₂) else w₂)
          ≡ with_events (hooks t "block" w₁ ++ sink_calls z t b (lost b w) previous id) w₁
    at true =
        ap (λ x. emit true e x) (emit_removed-removals t (lost b w) w₂)
        ∙ emit-call true e (with_events (removals t (lost b w)) w₂)
        ∙ with_both (removals t (lost b w)) (e ∷ []) w₂
        ∙ with_both (hooks t "block" w₁) (removals t (lost b w) ++ e ∷ []) w₁
    at false = ap (λ es. with_events es w₁) (sym (append-nil (hooks t "block" w₁)))
