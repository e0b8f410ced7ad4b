-- ===== src/State/Hierarchy.antt =====
-- world/state/HierarchySidecarStore.h, HierarchySidecarStore.cpp: the overrides of all scopes above
-- blocks, each scope in a store of its own.
pub mod Separate
use clone_craft.Base.{ℕ, String, Bool, false, Option, none, Key}
use clone_craft.Assoc.{empty}
use clone_craft.Coords.{
  BlockAddress, ChunkAddress, GroupAddress, SectionAddress, RegionAddress, SectorAddress,
  BlockAddress-discrete, ChunkAddress-discrete, GroupAddress-discrete, SectionAddress-discrete,
  RegionAddress-discrete, SectorAddress-discrete,
}
use clone_craft.Values
use clone_craft.Values.{PropertyValue, SidecarScope}
use clone_craft.State.Target.{
  Variant, WorldStateTarget, block, chunk, group, section, region, sector,
}
use clone_craft.State.Sparse
use clone_craft.State.Sparse.{SparseStore}

instance abbrev pub block_key : Key BlockAddress
block_key = record { eq? = BlockAddress-discrete }

instance abbrev pub chunk_key : Key ChunkAddress
chunk_key = record { eq? = ChunkAddress-discrete }

instance abbrev pub group_key : Key GroupAddress
group_key = record { eq? = GroupAddress-discrete }

instance abbrev pub section_key : Key SectionAddress
section_key = record { eq? = SectionAddress-discrete }

instance abbrev pub region_key : Key RegionAddress
region_key = record { eq? = RegionAddress-discrete }

instance abbrev pub sector_key : Key SectorAddress
sector_key = record { eq? = SectorAddress-discrete }

pub record HierarchySidecarStore : Type 0 where
  pub chunks : SparseStore ChunkAddress
  pub groups : SparseStore GroupAddress
  pub sections : SparseStore SectionAddress
  pub regions : SparseStore RegionAddress
  pub sectors : SparseStore SectorAddress

abbrev pub new_store : HierarchySidecarStore
new_store = record {
  chunks = empty;
  groups = empty;
  sections = empty;
  regions = empty;
  sectors = empty;
}

-- The block scope is not in this store.
get_at : Variant → String → HierarchySidecarStore → Option PropertyValue
get_at (block a) id h = none
get_at (chunk a) id h = Sparse.get a id h.chunks
get_at (group a) id h = Sparse.get a id h.groups
get_at (section a) id h = Sparse.get a id h.sections
get_at (region a) id h = Sparse.get a id h.regions
get_at (sector a) id h = Sparse.get a id h.sectors

unfoldable pub get : WorldStateTarget → String → HierarchySidecarStore → Option PropertyValue
unfolding get_at
get target id h = get_at target.value id h

set_at :
    Variant
    → String
    → PropertyValue
    → PropertyValue
    → HierarchySidecarStore
    → Bool × HierarchySidecarStore
set_at (block a) id v d h = (false, h)
set_at (chunk a) id v d h =
    let (c, s) = Sparse.set a id v d h.chunks in (c, record h { chunks = s })
set_at (group a) id v d h =
    let (c, s) = Sparse.set a id v d h.groups in (c, record h { groups = s })
set_at (section a) id v d h =
    let (c, s) = Sparse.set a id v d h.sections in (c, record h { sections = s })
set_at (region a) id v d h =
    let (c, s) = Sparse.set a id v d h.regions in (c, record h { regions = s })
set_at (sector a) id v d h =
    let (c, s) = Sparse.set a id v d h.sectors in (c, record h { sectors = s })

unfoldable pub set :
    WorldStateTarget
    → String
    → PropertyValue
    → PropertyValue
    → HierarchySidecarStore
    → Bool × HierarchySidecarStore
unfolding set_at
set target id value removal_default h = set_at target.value id value removal_default h

remove_at : Variant → String → HierarchySidecarStore → Bool × HierarchySidecarStore
remove_at (block a) id h = (false, h)
remove_at (chunk a) id h = let (c, s) = Sparse.remove a id h.chunks in (c, record h { chunks = s })
remove_at (group a) id h = let (c, s) = Sparse.remove a id h.groups in (c, record h { groups = s })
remove_at (section a) id h =
    let (c, s) = Sparse.remove a id h.sections in (c, record h { sections = s })
remove_at (region a) id h =
    let (c, s) = Sparse.remove a id h.regions in (c, record h { regions = s })
remove_at (sector a) id h =
    let (c, s) = Sparse.remove a id h.sectors in (c, record h { sectors = s })

unfoldable pub remove :
    WorldStateTarget → String → HierarchySidecarStore → Bool × HierarchySidecarStore
unfolding remove_at
remove target id h = remove_at target.value id h

-- The counts of one scope, zero for the block scope and for a forged one.
unfoldable pub address_count : SidecarScope → HierarchySidecarStore → ℕ
address_count Values.chunk h = Sparse.address_count h.chunks
address_count Values.chunk_group h = Sparse.address_count h.groups
address_count Values.section h = Sparse.address_count h.sections
address_count Values.region h = Sparse.address_count h.regions
address_count Values.sector h = Sparse.address_count h.sectors
address_count Values.block h = 0
address_count (Values.forged_scope n) h = 0

unfoldable pub entry_count : SidecarScope → HierarchySidecarStore → ℕ
entry_count Values.chunk h = Sparse.entry_count h.chunks
entry_count Values.chunk_group h = Sparse.entry_count h.groups
entry_count Values.section h = Sparse.entry_count h.sections
entry_count Values.region h = Sparse.entry_count h.regions
entry_count Values.sector h = Sparse.entry_count h.sectors
entry_count Values.block h = 0
entry_count (Values.forged_scope n) h = 0
