-- ===== src/World/Sink.antt =====
-- world/state/PersistenceSink.h, MemoryPersistenceSink.h, MemoryPersistenceSink.cpp: the sink that
-- keeps in memory the last change of each block and property and the chunks that hold one.
pub mod Replay
use clone_craft.Base.{ℕ, String, Bool, Option, none, some, Key, string_key, String-discrete}
use clone_craft.Assoc.{Map, empty, put, contains, size}
use clone_craft.Values.{PropertyValue}
use clone_craft.Coords.{
  BlockAddress, ChunkAddress, BlockAddress-discrete, ChunkAddress-discrete, GroupAddress-discrete,
  SectionAddress-discrete, RegionAddress-discrete, SectorAddress-discrete,
}
use clone_craft.State.Hierarchy.{block_key, chunk_key}
use clone_craft.State.Target.{WorldStateTarget, as_block}

pub record BlockDelta : Type 0 where
  pub address : BlockAddress
  pub old_runtime_id : ℕ
  pub new_runtime_id : ℕ

pub record PropertyDelta : Type 0 where
  pub target : WorldStateTarget
  pub property_id : String
  pub value : Option PropertyValue

pub block_address : PropertyDelta → Option BlockAddress
block_address d = as_block d.target

pub record DeltaKey : Type 0 where
  pub target : WorldStateTarget
  pub property_id : String

unfoldable pub WorldStateTarget-discrete : Discrete WorldStateTarget
WorldStateTarget-discrete = hlevel (
  BlockAddress-discrete, ChunkAddress-discrete, GroupAddress-discrete, SectionAddress-discrete,
  RegionAddress-discrete, SectorAddress-discrete,
)

unfoldable pub DeltaKey-discrete : Discrete DeltaKey
unfolding WorldStateTarget-discrete
DeltaKey-discrete = hlevel (WorldStateTarget-discrete, String-discrete)

instance abbrev pub delta_key : Key DeltaKey
delta_key = record { eq? = DeltaKey-discrete }

pub record MemoryPersistenceSink : Type 0 where
  pub block_deltas : Map BlockAddress BlockDelta
  pub property_deltas : Map DeltaKey PropertyDelta
  pub marked : Map ChunkAddress (Unit {0})

abbrev pub new : MemoryPersistenceSink
new = record { block_deltas = empty; property_deltas = empty; marked = empty }

unfoldable pub on_block_changed :
    BlockAddress → ℕ → ℕ → MemoryPersistenceSink → MemoryPersistenceSink
on_block_changed b old id s = record s {
  block_deltas =
      put b (record { address = b; old_runtime_id = old; new_runtime_id = id }) s.block_deltas;
  marked = put b.chunk tt s.marked;
}

mark : Option BlockAddress → MemoryPersistenceSink → MemoryPersistenceSink
mark none s = s
mark (some b) s = record s { marked = put b.chunk tt s.marked }

unfoldable pub on_property_changed :
    WorldStateTarget → String → Option PropertyValue → MemoryPersistenceSink → MemoryPersistenceSink
unfolding mark
on_property_changed t id v s = record (mark (as_block t) s) {
  property_deltas =
      put (record { target = t; property_id = id })
        (record { target = t; property_id = id; value = v }) s.property_deltas;
}

abbrev pub flush : MemoryPersistenceSink → MemoryPersistenceSink
flush s = record { block_deltas = empty; property_deltas = empty; marked = empty }

abbrev pub is_dirty : ChunkAddress → MemoryPersistenceSink → Bool
is_dirty c s = contains c s.marked

abbrev pub block_delta_count : MemoryPersistenceSink → ℕ
block_delta_count s = size s.block_deltas

abbrev pub property_delta_count : MemoryPersistenceSink → ℕ
property_delta_count s = size s.property_deltas

abbrev pub dirty_chunk_count : MemoryPersistenceSink → ℕ
dirty_chunk_count s = size s.marked
