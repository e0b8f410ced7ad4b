-- ===== src/Tests/Registries.antt =====
-- Each theorem on the registries at a small registry.
use clone_craft.Base.{◌≡◌, refl, String, String-discrete, [], ◌∷◌, string_key}
use clone_craft.Assoc.{find, put, empty, size}
use clone_craft.Exec.{ok}
use clone_craft.Values.{uint32}
use clone_craft.Registry.{
  Registry, new, insert, PrototypeDef, PrototypeRegistry, insert_prototype, prototype_for_block,
}
use clone_craft.Registry.Order.{IsOrdered, new-IsOrdered, insert-IsOrdered}
use clone_craft.Registry.Claims.{
  IsClaimed, new-IsClaimed, insert_prototype-IsClaimed, owner_of, prototype_for_block-owner_of,
}
use clone_craft.Registry.BlockIds.{BlockIdTable, block_id_table}
use clone_craft.Registry.BlockIds.Numbering.{Numbers, block_id_table-Numbers}

abbrev only_air : Registry String
only_air = record { entries = put "core:air" "Air" empty; order = "core:air" ∷ [] }

abbrev blocks : Registry String
blocks = record {
  entries = put "core:stone" "Stone" only_air.entries;
  order = "core:air" ∷ "core:stone" ∷ [];
}

abbrev pub table : BlockIdTable
table = record {
  index = put "core:stone" 1 (put "core:air" 0 empty);
  ids = "core:air" ∷ "core:stone" ∷ [];
}

pub blocks-IsOrdered : IsOrdered blocks
unfolding insert find put empty String-discrete
blocks-IsOrdered =
    insert-IsOrdered "core:stone" "Stone" only_air blocks
      (insert-IsOrdered "core:air" "Air" new only_air new-IsOrdered refl) refl

blocks-table : block_id_table blocks ≡ ok table
unfolding block_id_table find put empty size String-discrete
blocks-table = refl

block_id_table-Numbers_example : Numbers blocks table
block_id_table-Numbers_example = block_id_table-Numbers blocks table blocks-IsOrdered blocks-table

abbrev pub stone : PrototypeDef
stone = record {
  id = "core:stone_object";
  display_name = "Stone";
  block_id = "core:stone";
  capabilities = [];
  properties = record { id = "core:damage"; default_value = uint32 3 } ∷ [];
}

abbrev pub prototypes : PrototypeRegistry
prototypes = record {
  base = record { entries = put "core:stone_object" stone empty; order = "core:stone_object" ∷ [] };
  block_claims = put "core:stone" "core:stone_object" empty;
}

pub prototypes-IsClaimed : IsClaimed prototypes
unfolding insert_prototype insert find empty
prototypes-IsClaimed =
    insert_prototype-IsClaimed stone (record { base = new; block_claims = empty }) prototypes
      new-IsClaimed refl

prototype_for_block-owner_of_example :
    prototype_for_block "core:stone" prototypes ≡ ok (owner_of "core:stone" prototypes)
prototype_for_block-owner_of_example =
    prototype_for_block-owner_of "core:stone" prototypes prototypes-IsClaimed
