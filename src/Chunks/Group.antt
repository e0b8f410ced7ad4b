-- ===== src/Chunks/Group.antt =====
-- world/chunk/ChunkGroup.h, ChunkGroup.cpp: the chunks of a group by their index, and the chunks that
-- a change of a chunk or of a block concerns.
pub mod Touched
use clone_craft.Base.{
  ℕ, Bool, false, Option, none, some, List, [], ◌∷◌, ◌++◌, ◌==◌, if◌then◌else◌, string_key, nat_key,
}
use clone_craft.Base.Int.{ℤ, pos, negsuc}
use clone_craft.Assoc.{Map, find, put, erase, contains, empty}
use clone_craft.Exec.{Result, ok, require, and_then}
use clone_craft.Comm.Error.{bad_address}
use clone_craft.Coords.{GroupAddress, ChunkAddress, BlockAddress, canonical_group}
use clone_craft.Coords.Index.{coord_at}
use clone_craft.Coords.Offset.{try_offset_chunk}
use clone_craft.Chunks.Chunk.{Chunk, new_chunk}

pub record ChunkGroup : Type 0 where
  pub address : GroupAddress
  pub chunks : Map ℕ Chunk

unfoldable pub new_group : GroupAddress → Result ChunkGroup
new_group g = require (canonical_group g) bad_address (ok (record { address = g; chunks = empty }))

abbrev pub find_chunk : ℕ → ChunkGroup → Option Chunk
find_chunk i g = find i g.chunks

-- The address of a chunk that a group creates.
abbrev pub address_in : GroupAddress → ℕ → ChunkAddress
address_in g i = record { group = g; chunk = coord_at i }

unfoldable pub create_chunk : ℕ → Option Chunk → ChunkGroup → Result (Chunk × ChunkGroup)
create_chunk i (some c) g = ok (c, g)
create_chunk i none g =
    and_then (new_chunk (address_in g.address i))
      λ c. ok (c, record g { chunks = put i c g.chunks })

unfoldable pub get_or_create_in : ℕ → ChunkGroup → Result (Chunk × ChunkGroup)
unfolding create_chunk
get_or_create_in i g = create_chunk i (find i g.chunks) g

unfoldable pub remove_chunk : ℕ → ChunkGroup → Bool × ChunkGroup
remove_chunk i g = (contains i g.chunks, record g { chunks = erase i g.chunks })

abbrev pub none_or : Option ChunkAddress → List ChunkAddress
none_or none = []
none_or (some c) = c ∷ []

-- The chunk and those of its six neighbours that exist.
unfoldable pub with_neighbours : ChunkAddress → List ChunkAddress
with_neighbours c =
    c
    ∷ (none_or (try_offset_chunk c (negsuc 0) (pos 0) (pos 0))
        ++ (none_or (try_offset_chunk c (pos 1) (pos 0) (pos 0))
            ++ (none_or (try_offset_chunk c (pos 0) (negsuc 0) (pos 0))
                ++ (none_or (try_offset_chunk c (pos 0) (pos 1) (pos 0))
                    ++ (none_or (try_offset_chunk c (pos 0) (pos 0) (negsuc 0))
                        ++ none_or (try_offset_chunk c (pos 0) (pos 0) (pos 1)))))))

abbrev pub is_at : ℤ → ℕ → Bool
is_at (pos n) k = n == k
is_at (negsuc n) k = false

abbrev pub at_border : Bool → Option ChunkAddress → List ChunkAddress
at_border here c = if here then none_or c else []

-- The chunk of a block and the neighbours that the block touches.
unfoldable pub for_block : BlockAddress → List ChunkAddress
for_block b =
    let edge : ℕ = 15 in
    let c = b.chunk in
    c
    ∷ (at_border (is_at b.block.x 0) (try_offset_chunk c (negsuc 0) (pos 0) (pos 0))
        ++ (at_border (is_at b.block.x edge) (try_offset_chunk c (pos 1) (pos 0) (pos 0))
            ++ (at_border (is_at b.block.y 0) (try_offset_chunk c (pos 0) (negsuc 0) (pos 0))
                ++ (at_border (is_at b.block.y edge) (try_offset_chunk c (pos 0) (pos 1) (pos 0))
                    ++ (at_border (is_at b.block.z 0)
                          (try_offset_chunk c (pos 0) (pos 0) (negsuc 0))
                        ++ at_border (is_at b.block.z edge)
                            (try_offset_chunk c (pos 0) (pos 0) (pos 1)))))))
