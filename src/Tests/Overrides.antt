-- ===== src/Tests/Overrides.antt =====
-- Each theorem on the property stores at a concrete store.
use clone_craft.Base.{◌≡◌, ◌≢◌, String, none, some, string_key, if◌then◌else◌, arith}
use clone_craft.Assoc.{empty, find-empty}
use clone_craft.Values.{uint32, value_eq}
use clone_craft.Coords.{ChunkAddress, origin_chunk_address, origin_group_address}
use clone_craft.State.Target.{WorldStateTarget, chunk, group}
use clone_craft.State.Sparse.{SparseStore, holds, set, remove, PropertyBag}
use clone_craft.State.Sparse.Lean.{IsLean, set-IsLean}
use clone_craft.State.Hierarchy.{HierarchySidecarStore, chunk_key}
use clone_craft.State.Hierarchy
use clone_craft.State.Hierarchy.Separate.{set-separate}

abbrev moisture_id : String
moisture_id = "soil:moisture"

abbrev heat_id : String
heat_id = "soil:heat"

abbrev moisture : SparseStore ChunkAddress
moisture = (set origin_chunk_address "soil:moisture" (uint32 7) (uint32 0) empty).1

empty-IsLean : IsLean {A = ChunkAddress} empty
empty-IsLean a bag e = absurd (ground (arith, e, find-empty {V = PropertyBag} a))

set-IsLean_example :
    IsLean (set origin_chunk_address "soil:moisture" (uint32 7) (uint32 0) empty).1
    × IsLean (remove origin_chunk_address "soil:moisture" empty).1
set-IsLean_example =
    set-IsLean origin_chunk_address "soil:moisture" (uint32 7) (uint32 0) empty empty-IsLean

abbrev bare : HierarchySidecarStore
bare = record { chunks = empty; groups = empty; sections = empty; regions = empty; sectors = empty }

abbrev here : WorldStateTarget
here = record { value = chunk origin_chunk_address }

abbrev there : WorldStateTarget
there = record { value = group origin_group_address }

set-separate_example :
    (Hierarchy.get here "soil:moisture"
        (Hierarchy.set here "soil:moisture" (uint32 7) (uint32 0) bare).1
      ≡ (if value_eq (uint32 7) (uint32 0)
          then none
          else if holds (uint32 7) (Hierarchy.get here "soil:moisture" bare)
          then Hierarchy.get here "soil:moisture" bare
          else some (uint32 7)))
    × ((here.value ≡ there.value → moisture_id ≢ moisture_id)
        → Hierarchy.get there "soil:moisture"
            (Hierarchy.set here "soil:moisture" (uint32 7) (uint32 0) bare).1
          ≡ Hierarchy.get there "soil:moisture" bare)
set-separate_example =
    set-separate here there "soil:moisture" "soil:moisture" (uint32 7) (uint32 0) bare
      (λ a e. ground arith)
