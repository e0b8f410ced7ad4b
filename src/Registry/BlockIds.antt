-- ===== src/Registry/BlockIds.antt =====
-- world/registry/BlockIdTable.h, BlockIdTable.cpp: the compact runtime ids of blocks.
pub mod Numbering
use clone_craft.Base.{
  ℕ, ◌%◌, ◌^◌, String, Option, none, some, List, [], ◌∷◌, ◌++◌, leb, length, get_elem?, ite, same,
  string_key,
}
use clone_craft.Assoc.{Map, find, put, contains, size, empty}
use clone_craft.Exec.{Result, ok, err, require}
use clone_craft.Comm.Error.{no_air, too_many_blocks, unknown_block, unknown_runtime_id}
use clone_craft.Registry.{Registry}

pub record BlockIdTable : Type 0 where
  pub index : Map String ℕ
  pub ids : List String

abbrev pub air : String
air = "core:air"

-- The cast to `uint16_t` wraps.
push_id : String → BlockIdTable → BlockIdTable
push_id id t = record { index = put id (length t.ids % 2 ^ 16) t.index; ids = t.ids ++ id ∷ [] }

push_ids : List String → BlockIdTable → BlockIdTable
unfolding push_id
push_ids [] t = t
push_ids (id ∷ rest) t = push_ids rest (ite (same id air) t (push_id id t))

abbrev only_air : BlockIdTable
only_air = record { index = put air 0 empty; ids = air ∷ [] }

module _ {D : Type 0} where
  -- The constructor.
  unfoldable pub block_id_table : Registry D → Result BlockIdTable
  unfolding push_ids
  block_id_table blocks = require (contains air blocks.entries) no_air (
      require (leb (size blocks.entries) 65_536) too_many_blocks
        (ok (push_ids blocks.order only_air)))

abbrev pub try_index_of : String → BlockIdTable → Option ℕ
try_index_of id t = find id t.index

index_or_throw : Option ℕ → Result ℕ
index_or_throw none = err unknown_block
index_or_throw (some i) = ok i

unfoldable pub index_of : String → BlockIdTable → Result ℕ
unfolding index_or_throw
index_of id t = index_or_throw (find id t.index)

-- `mIds[index]` within the bounds.
id_or_throw : Option String → Result String
id_or_throw none = err unknown_runtime_id
id_or_throw (some id) = ok id

unfoldable pub id_of : ℕ → BlockIdTable → Result String
unfolding id_or_throw
id_of i t = id_or_throw (get_elem? t.ids i)

abbrev pub table_size : BlockIdTable → ℕ
table_size t = length t.ids
