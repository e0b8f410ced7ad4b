-- ===== src/Chunks/Manager.antt =====
-- world/chunk/ChunkManager.h, ChunkManager.cpp: the loaded chunks by
-- group and index. A pointer to a chunk is the chunk together with a write back to its place. The
-- callback of the manager is foreign: its calls are kept in order in `changes`, and it is taken
-- neither to throw nor to call the manager.
pub mod Placement
pub mod Writes
pub mod Creation
pub mod View
pub mod SetBlock
pub mod Properties
pub mod SetProperty
pub mod Blocks
use clone_craft.Base.{
  ℕ, ◌+◌, String, Bool, true, false, Option, none, some, List, [], ◌++◌, ◌==◌, if◌then◌else◌,
  string_key, nat_key,
}
use clone_craft.Assoc.{Map, find, put, erase, size, empty}
use clone_craft.Values.{PropertyValue}
use clone_craft.Exec.{Result, ok, err, Exec, pure, lift, ◌>>=◌, ◌>>◌, and_then}
use clone_craft.Comm.Error.{bad_coordinate}
use clone_craft.Coords.{Coord, GroupAddress, ChunkAddress, BlockAddress}
use clone_craft.Coords.Index.{block_index, chunk_index}
use clone_craft.State.Hierarchy.{group_key}
use clone_craft.Chunks.Group.{
  ChunkGroup, new_group, get_or_create_in, remove_chunk, with_neighbours, for_block,
}
use clone_craft.Chunks.Chunk
use clone_craft.Chunks.Chunk.{Chunk}

pub record ChunkManager : Type 0 where
  pub groups : Map GroupAddress ChunkGroup
  pub observed : Bool
  pub changes : List ChunkAddress

abbrev pub new_manager : Bool → ChunkManager
new_manager observed = record { groups = empty; observed = observed; changes = [] }

abbrev pub M : Type 0 → Type 0
M A = Exec ChunkManager A

abbrev pub notify_all : List ChunkAddress → ChunkManager → ChunkManager
notify_all cs m = record m { changes = if m.observed then m.changes ++ cs else m.changes }

abbrev pub index_or_throw : Option ℕ → Result ℕ
index_or_throw none = err bad_coordinate
index_or_throw (some i) = ok i

chunk_in : Coord → Option ChunkGroup → Result (Option Chunk)
chunk_in local none = ok none
chunk_in local (some g) = and_then (index_or_throw (chunk_index local)) λ i. ok (find i g.chunks)

unfoldable pub chunk_at : ChunkAddress → ChunkManager → Result (Option Chunk)
unfolding chunk_in
chunk_at a m = chunk_in a.chunk (find a.group m.groups)

-- `mGroups.try_emplace( c.group, c.group )`
emplaced : GroupAddress → Option ChunkGroup → M ChunkGroup
emplaced a (some g) m = (ok g, m)
emplaced a none m = elim (new_group a) [
  | err e ↦ (err e, m)
  | ok g ↦ (ok g, record m { groups = put a g m.groups })
]

stored_in : GroupAddress → Result (Chunk × ChunkGroup) → M Chunk
stored_in a (err e) m = (err e, m)
stored_in a (ok (c, g)) m = (ok c, record m { groups = put a g m.groups })

unfoldable pub get_or_create : ChunkAddress → M Chunk
unfolding emplaced stored_in
get_or_create a = do
  g ← λ m. emplaced a.group (find a.group m.groups) m
  i ← lift (index_or_throw (chunk_index a.chunk))
  stored_in a.group (get_or_create_in i g)

-- The write through a pointer to a chunk.
write_chunk_in : Option ℕ → Chunk → Option ChunkGroup → ChunkManager → ChunkManager
write_chunk_in (some i) c (some g) m = record m {
  groups = put g.address (record g { chunks = put i c g.chunks }) m.groups;
}
write_chunk_in none c (some g) m = m
write_chunk_in (some i) c none m = m
write_chunk_in none c none m = m

pub write_chunk : ChunkAddress → Chunk → ChunkManager → ChunkManager
unfolding write_chunk_in
write_chunk a c m = write_chunk_in (chunk_index a.chunk) c (find a.group m.groups) m

load_absent : ChunkAddress → Option Chunk → M Chunk
load_absent a (some c) = pure c
load_absent a none = do c ← get_or_create a; λ m. (ok tt, notify_all (with_neighbours a) m); pure c

unfoldable pub load_chunk : ChunkAddress → M Chunk
unfolding load_absent
load_chunk a = do found ← λ m. (chunk_at a m, m); load_absent a found

-- A group that became empty is dropped, then the observers hear of a chunk that was there.
unloaded : ChunkAddress → Bool × ChunkGroup → ChunkManager → Bool × ChunkManager
unloaded a (removed, g) m =
    let groups = if size g.chunks == 0 then erase a.group m.groups else put a.group g m.groups in
    let left = record m { groups = groups } in
    (removed, if removed then notify_all (with_neighbours a) left else left)

unload_from : ChunkAddress → Option ChunkGroup → M Bool
unload_from a none m = (ok false, m)
unload_from a (some g) m = elim (chunk_index a.chunk) [
  | none ↦ (err bad_coordinate, m)
  | some i ↦ let (removed, left) = unloaded a (remove_chunk i g) m in (ok removed, left)
]

unfoldable pub unload_chunk : ChunkAddress → M Bool
unfolding unload_from unloaded remove_chunk
unload_chunk a m = unload_from a (find a.group m.groups) m

block_in : Coord → Option Chunk → Result (Option ℕ)
block_in local none = ok none
block_in local (some c) = and_then (Chunk.block local c) λ id. ok (some id)

unfoldable pub try_block_at : BlockAddress → ChunkManager → Result (Option ℕ)
unfolding block_in chunk_at
try_block_at b m = and_then (chunk_at b.chunk m) λ c. block_in b.block c

abbrev pub or_air : Option ℕ → ℕ
or_air none = 0
or_air (some id) = id

unfoldable pub block_at : BlockAddress → ChunkManager → Result ℕ
unfolding try_block_at
block_at b m = and_then (try_block_at b m) λ o. ok (or_air o)

replace_if : Bool → BlockAddress → ℕ → Chunk → M Bool
unfolding write_chunk
replace_if true b id c = pure false
replace_if false b id c = do
  c' ← lift (Chunk.set_block b.block id c)
  λ m. (ok tt, notify_all (for_block b) (write_chunk b.chunk c' m))
  pure true

-- From the chunk on; the previous block is read first.
pub replace : BlockAddress → ℕ → Chunk → M Bool
unfolding replace_if
replace b id c = do previous ← lift (Chunk.block b.block c); replace_if (previous == id) b id c

-- Air in an unloaded chunk creates nothing.
pub set_block_in : BlockAddress → ℕ → Option Chunk → M Bool
unfolding replace
set_block_in b id (some c) = replace b id c
set_block_in b id none =
    if id == 0 then pure false else do c ← get_or_create b.chunk; replace b id c

unfoldable pub set_block : BlockAddress → ℕ → M Bool
unfolding set_block_in chunk_at
set_block b id = do found ← λ m. (chunk_at b.chunk m, m); set_block_in b id found

put_property :
    BlockAddress
    → ℕ
    → String
    → PropertyValue
    → PropertyValue
    → Chunk
    → ChunkManager
    → Bool × ChunkManager
put_property b i id value default c m =
    let (changed, c') = Chunk.set_property i id value default c in
    let written = write_chunk b.chunk c' m in
    (changed, if changed then notify_all (for_block b) written else written)

pub set_property_in : BlockAddress → String → PropertyValue → PropertyValue → Option Chunk → M Bool
unfolding put_property write_chunk
set_property_in b id value default none = pure false
set_property_in b id value default (some c) = do
  i ← lift (index_or_throw (block_index b.block))
  λ m. let (changed, m') = put_property b i id value default c m in (ok changed, m')

unfoldable pub set_block_property : BlockAddress → String → PropertyValue → PropertyValue → M Bool
unfolding set_property_in chunk_at
set_block_property b id value default = do
  found ← λ m. (chunk_at b.chunk m, m)
  set_property_in b id value default found

property_in : Coord → String → Option Chunk → Result (Option PropertyValue)
property_in local id none = ok none
property_in local id (some c) =
    and_then (index_or_throw (block_index local)) λ i. ok (Chunk.get_property i id c)

unfoldable pub block_property : BlockAddress → String → ChunkManager → Result (Option PropertyValue)
unfolding property_in chunk_at
block_property b id m = and_then (chunk_at b.chunk m) λ c. property_in b.block id c
