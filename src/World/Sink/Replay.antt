-- ===== src/World/Sink/Replay.antt =====
-- What the memory sink holds after the calls that a world state makes of it.
use clone_craft.Base.{
  ◌≡◌, refl, ap, ◌∙◌, Bool, true, false, ◌||◌, Option, none, some, List, [], ◌∷◌, ite, same,
  string_key, arith,
}
use clone_craft.Assoc.{find, find-put, find-empty, is_some}
use clone_craft.Coords.{BlockAddress, ChunkAddress}
use clone_craft.State.Hierarchy.{block_key, chunk_key}
use clone_craft.State.Target.{as_block}
use clone_craft.World.{Event, block_hook, target_hook, property_changed, block_changed}
use clone_craft.World.Sink.{
  BlockDelta, PropertyDelta, DeltaKey, delta_key, MemoryPersistenceSink, on_block_changed,
  on_property_changed, mark, flush, is_dirty,
}

-- The calls of the hooks do not reach the sink.
unfoldable pub deliver : Event → MemoryPersistenceSink → MemoryPersistenceSink
deliver (block_hook b what) s = s
deliver (target_hook t what) s = s
deliver (property_changed t id v) s = on_property_changed t id v s
deliver (block_changed b old id) s = on_block_changed b old id s

unfoldable pub replay : List Event → MemoryPersistenceSink → MemoryPersistenceSink
unfolding deliver
replay [] s = s
replay (e ∷ rest) s = replay rest (deliver e s)

or_before : {A : Type 0} → Option A → Option A → Option A
or_before none old = old
or_before (some a) old = some a

-- The last call about a block, a property, and whether a call is about a chunk.
block_of_event : BlockAddress → Event → Option BlockDelta
block_of_event b (block_hook c what) = none
block_of_event b (target_hook t what) = none
block_of_event b (property_changed t id v) = none
block_of_event b (block_changed c old id) =
    ite (same c b) (some (record { address = c; old_runtime_id = old; new_runtime_id = id })) none

unfoldable pub last_block : BlockAddress → List Event → Option BlockDelta
unfolding block_of_event or_before
last_block b [] = none
last_block b (e ∷ rest) = or_before (last_block b rest) (block_of_event b e)

property_of_event : DeltaKey → Event → Option PropertyDelta
property_of_event k (block_hook c what) = none
property_of_event k (target_hook t what) = none
property_of_event k (property_changed t id v) =
    ite (same (record { target = t; property_id = id }) k)
      (some (record { target = t; property_id = id; value = v })) none
property_of_event k (block_changed c old id) = none

unfoldable pub last_property : DeltaKey → List Event → Option PropertyDelta
unfolding property_of_event or_before
last_property k [] = none
last_property k (e ∷ rest) = or_before (last_property k rest) (property_of_event k e)

in_chunk : ChunkAddress → Option BlockAddress → Bool
in_chunk c none = false
in_chunk c (some b) = ite (same b.chunk c) true false

touches : ChunkAddress → Event → Bool
unfolding in_chunk
touches c (block_hook b what) = false
touches c (target_hook t what) = false
touches c (property_changed t id v) = in_chunk c (as_block t)
touches c (block_changed b old id) = in_chunk c (some b)

unfoldable pub touched : ChunkAddress → List Event → Bool
unfolding touches
touched c [] = false
touched c (e ∷ rest) = touches c e || touched c rest

marked_same :
    (o : Option BlockAddress) (s : MemoryPersistenceSink)
    → ((mark o s).block_deltas ≡ s.block_deltas)
unfolding mark
marked_same none s = refl
marked_same (some b) s = refl

deliver-blocks :
    (b : BlockAddress) (e : Event) (s : MemoryPersistenceSink)
    → find b (deliver e s).block_deltas ≡ or_before (block_of_event b e) (find b s.block_deltas)
unfolding deliver block_of_event or_before on_block_changed on_property_changed
deliver-blocks b (block_hook c what) s = refl
deliver-blocks b (target_hook t what) s = refl
deliver-blocks b (property_changed t id v) s = ap (λ m. find b m) (marked_same (as_block t) s)
deliver-blocks b (block_changed c old id) s = ground (
  arith,
  find-put c b (record { address = c; old_runtime_id = old; new_runtime_id = id }) s.block_deltas,
)

deliver-properties :
    (k : DeltaKey) (e : Event) (s : MemoryPersistenceSink)
    → find k (deliver e s).property_deltas
      ≡ or_before (property_of_event k e) (find k s.property_deltas)
unfolding deliver property_of_event or_before on_block_changed on_property_changed
deliver-properties k (block_hook c what) s = refl
deliver-properties k (target_hook t what) s = refl
deliver-properties k (property_changed t id v) s = ground (
  arith,
  find-put (record { target = t; property_id = id }) k
      (record { target = t; property_id = id; value = v }) s.property_deltas,
)
deliver-properties k (block_changed c old id) s = refl

mark-dirty :
    (c : ChunkAddress) (o : Option BlockAddress) (s : MemoryPersistenceSink)
    → is_dirty c (mark o s) ≡ (in_chunk c o || is_dirty c s)
unfolding mark in_chunk
mark-dirty c none s = refl
mark-dirty c (some b) s = ground (arith, find-put b.chunk c tt s.marked)

deliver-dirty :
    (c : ChunkAddress) (e : Event) (s : MemoryPersistenceSink)
    → is_dirty c (deliver e s) ≡ (touches c e || is_dirty c s)
unfolding deliver touches on_block_changed on_property_changed
deliver-dirty c (block_hook b what) s = refl
deliver-dirty c (target_hook t what) s = refl
deliver-dirty c (property_changed t id v) s = mark-dirty c (as_block t) s
deliver-dirty c (block_changed b old id) s = mark-dirty c (some b) s

or_before_assoc :
    {A : Type 0} (x y z : Option A) → or_before x (or_before y z) ≡ or_before (or_before x y) z
unfolding or_before
or_before_assoc none y z = refl
or_before_assoc (some a) y z = refl

replay-blocks :
    (b : BlockAddress) (es : List Event) (s : MemoryPersistenceSink)
    → find b (replay es s).block_deltas ≡ or_before (last_block b es) (find b s.block_deltas)
unfolding replay last_block
replay-blocks b [] s = refl
replay-blocks b (e ∷ rest) s =
    replay-blocks b rest (deliver e s)
    ∙ ap (λ o. or_before (last_block b rest) o) (deliver-blocks b e s)
    ∙ or_before_assoc (last_block b rest) (block_of_event b e) (find b s.block_deltas)

replay-properties :
    (k : DeltaKey) (es : List Event) (s : MemoryPersistenceSink)
    → find k (replay es s).property_deltas
      ≡ or_before (last_property k es) (find k s.property_deltas)
unfolding replay last_property
replay-properties k [] s = refl
replay-properties k (e ∷ rest) s =
    replay-properties k rest (deliver e s)
    ∙ ap (λ o. or_before (last_property k rest) o) (deliver-properties k e s)
    ∙ or_before_assoc (last_property k rest) (property_of_event k e) (find k s.property_deltas)

replay-dirty :
    (c : ChunkAddress) (es : List Event) (s : MemoryPersistenceSink)
    → is_dirty c (replay es s) ≡ (touched c es || is_dirty c s)
unfolding replay touched
replay-dirty c [] s = refl
replay-dirty c (e ∷ rest) s = ground (arith, replay-dirty c rest (deliver e s), deliver-dirty c e s)

or_before-none : {A : Type 0} (x o : Option A) → o ≡ none → or_before x o ≡ x
unfolding or_before
or_before-none none o h = h
or_before-none (some a) o h = refl

or_false : (x y : Bool) → y ≡ false → (x || y) ≡ x
or_false true y h = refl
or_false false y h = h

-- After a flush the sink knows of each block and of each property of each target the last call about
-- it, and of no other, whatever came between; a chunk is dirty just when a call was about a block in
-- it, so a property above the block scope marks no chunk.
pub replay-last :
    (es : List Event) (s : MemoryPersistenceSink)
    → ((b : BlockAddress) → find b (replay es (flush s)).block_deltas ≡ last_block b es)
      × ((k : DeltaKey) → find k (replay es (flush s)).property_deltas ≡ last_property k es)
      × ((c : ChunkAddress) → is_dirty c (replay es (flush s)) ≡ touched c es)
replay-last es s = (
  λ b. replay-blocks b es (flush s) ∙ or_before-none (last_block b es) _ (find-empty b),
  λ k. replay-properties k es (flush s) ∙ or_before-none (last_property k es) _ (find-empty k),
  λ c. replay-dirty c es (flush s) ∙ or_false (touched c es) _ (ap (λ o. is_some o) (find-empty c)),
)
