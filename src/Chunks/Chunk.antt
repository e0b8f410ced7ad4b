-- ===== src/Chunks/Chunk.antt =====
-- world/chunk/Chunk.h: the blocks of a chunk, the count of those that are not air, and the sidecars
-- by their type. `mBlocks` is a list of `volume` runtime ids.
pub mod Cells
pub mod Sweep
pub mod Invariant
pub mod Access
pub mod Property
use clone_craft.Base.{
  ℕ, zero, suc, ◌+◌, ◌-◌, ◌%◌, ◌^◌, String, Bool, false, not, ◌&&◌, Option, none, some, List, [],
  ◌∷◌, leb, ◌==◌, length, if◌then◌else◌, string_key, nat_key,
}
use clone_craft.Assoc.{Map, find, put, erase, contains, empty}
use clone_craft.Values.{PropertyValue, value_eq}
use clone_craft.Exec.{Result, ok, err, require}
use clone_craft.Comm.Error.{bad_address, bad_coordinate, wrong_block_count}
use clone_craft.Coords.{Coord, ChunkAddress, canonical_chunk}
use clone_craft.Coords.Index.{block_index}
use clone_craft.Chunks.Sidecar
use clone_craft.Chunks.Sidecar.{Sidecar, set_with_default, is_empty_sidecar}

-- The default edge, 16, to the third power.
abbrev pub volume : ℕ
volume = 4096

abbrev pub PropertySidecar : Type 0
PropertySidecar = Sidecar PropertyValue

abbrev pub Sidecars : Type 0
Sidecars = Map String PropertySidecar

pub record Chunk : Type 0 where
  pub address : ChunkAddress
  pub blocks : List ℕ
  pub non_air_count : ℕ
  pub sidecars : Sidecars

-- `mBlocks[i]`, within the bounds.
unfoldable pub cell : List ℕ → ℕ → ℕ
cell [] i = 0
cell (b ∷ bs) zero = b
cell (b ∷ bs) (suc i) = cell bs i

unfoldable pub set_cell : List ℕ → ℕ → ℕ → List ℕ
set_cell [] i id = []
set_cell (b ∷ bs) zero id = id ∷ bs
set_cell (b ∷ bs) (suc i) id = b ∷ set_cell bs i id

unfoldable pub all_air : ℕ → List ℕ
all_air zero = []
all_air (suc n) = 0 ∷ all_air n

-- `std::count_if( …, id != 0 )`
unfoldable pub non_air : List ℕ → ℕ
non_air [] = 0
non_air (b ∷ bs) = (if b == 0 then 0 else 1) + non_air bs

pub fresh : ChunkAddress → Chunk
unfolding all_air
fresh address = record {
  address = address;
  blocks = all_air volume;
  non_air_count = 0;
  sidecars = empty;
}

unfoldable pub new_chunk : ChunkAddress → Result Chunk
unfolding fresh
new_chunk address = require (canonical_chunk address) bad_address (ok (fresh address))

block_at : Option ℕ → Chunk → Result ℕ
block_at none c = err bad_coordinate
block_at (some i) c = ok (cell c.blocks i)

unfoldable pub block : Coord → Chunk → Result ℕ
unfolding block_at
block local c = block_at (block_index local) c

-- `++mNonAirCount`, `--mNonAirCount`, which wrap.
abbrev pub recounted : ℕ → ℕ → ℕ → ℕ
recounted old id n =
    if old == 0 && not (id == 0)
    then (n + 1) % 2 ^ 32
    else if not (old == 0) && id == 0
    then (n + 2 ^ 32 - 1) % 2 ^ 32
    else n

-- `it->second->remove( localIndex ); if( it->second->empty() ) erase`
cleaned : ℕ → String → Option PropertySidecar → Sidecars → Sidecars
cleaned i id none m = m
cleaned i id (some s) m =
    let s' = (Sidecar.remove i s).1 in if is_empty_sidecar s' then erase id m else put id s' m

-- The loop over the sidecars.
pub sweep : ℕ → List (String × PropertySidecar) → Sidecars → Sidecars
unfolding cleaned
sweep i [] m = m
sweep i ((id, s) ∷ rest) m = sweep i rest (cleaned i id (find id m) m)

pub write_block : ℕ → ℕ → Chunk → Chunk
unfolding sweep set_cell
write_block i id c = if cell c.blocks i == id then c else record c {
  blocks = set_cell c.blocks i id;
  non_air_count = recounted (cell c.blocks i) id c.non_air_count;
  sidecars = sweep i c.sidecars.entries c.sidecars;
}

set_block_at : Option ℕ → ℕ → Chunk → Result Chunk
unfolding write_block
set_block_at none id c = err bad_coordinate
set_block_at (some i) id c = ok (write_block i id c)

unfoldable pub set_block : Coord → ℕ → Chunk → Result Chunk
unfolding set_block_at
set_block local id c = set_block_at (block_index local) id c

unfoldable pub assign_blocks : List ℕ → Chunk → Result Chunk
assign_blocks blocks c =
    require (length blocks == volume) wrong_block_count
      (ok (record c { blocks = blocks; non_air_count = non_air blocks; sidecars = empty }))

-- With the count that the caller gives.
unfoldable pub assign_counted : List ℕ → ℕ → Chunk → Result Chunk
assign_counted blocks count c =
    require (length blocks == volume && leb count volume) wrong_block_count
      (ok (record c { blocks = blocks; non_air_count = count; sidecars = empty }))

abbrev pub empty_chunk : Chunk → Bool
empty_chunk c = c.non_air_count == 0

-- A sidecar that became empty is dropped.
store_sidecar : String → Bool × PropertySidecar → Chunk → Bool × Chunk
store_sidecar id (changed, s) c = (
  changed,
  record c { sidecars = if is_empty_sidecar s then erase id c.sidecars else put id s c.sidecars },
)

pub write_property :
    ℕ → String → PropertyValue → PropertyValue → Option PropertySidecar → Chunk → Bool × Chunk
unfolding store_sidecar set_with_default
write_property i id value default none c =
    if value_eq value default
    then (false, c)
    else store_sidecar id (set_with_default value_eq i value default (Sidecar.new default volume)) c
write_property i id value default (some s) c =
    store_sidecar id (set_with_default value_eq i value default s) c

unfoldable pub set_property : ℕ → String → PropertyValue → PropertyValue → Chunk → Bool × Chunk
unfolding write_property
set_property i id value default c =
    if leb volume i
    then (false, c)
    else if cell c.blocks i == 0
    then (false, c)
    else write_property i id value default (find id c.sidecars) c

abbrev pub read_sidecar : ℕ → Option PropertySidecar → Option PropertyValue
read_sidecar i none = none
read_sidecar i (some s) = Sidecar.get i s

unfoldable pub get_property : ℕ → String → Chunk → Option PropertyValue
get_property i id c = read_sidecar i (find id c.sidecars)

abbrev pub property_sidecar : String → Chunk → Option PropertySidecar
property_sidecar id c = find id c.sidecars

unfoldable pub clear_property : String → Chunk → Bool × Chunk
clear_property id c = (contains id c.sidecars, record c { sidecars = erase id c.sidecars })

abbrev pub clear_properties : Chunk → Chunk
clear_properties c = record c { sidecars = empty }
