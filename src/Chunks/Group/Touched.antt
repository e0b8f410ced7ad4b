-- ===== src/Chunks/Group/Touched.antt =====
-- The chunks that a change of a block concerns: its own and those of the blocks that share a face
-- with it.
pub mod Border
pub mod Listed
use clone_craft.Base.{Option, none, some, List, [], ◌∷◌, ◌++◌, ite, same, arith}
use clone_craft.Base.Int.{ℤ, pos, negsuc}
use clone_craft.Coords.{ChunkAddress, BlockAddress}
use clone_craft.State.Hierarchy.{chunk_key}
use clone_craft.Coords.Offset.{try_offset_block}

-- The chunk of a neighbouring block, where it is another one.
abbrev pub other_chunk : BlockAddress → Option BlockAddress → List ChunkAddress
other_chunk b none = []
other_chunk b (some c) = ite (same b.chunk c.chunk) [] (c.chunk ∷ [])

abbrev pub beyond : BlockAddress → ℤ → ℤ → ℤ → List ChunkAddress
beyond b dx dy dz = other_chunk b (try_offset_block b dx dy dz)

-- The chunk of the block, and those of its six neighbours that are in another chunk.
unfoldable pub touched : BlockAddress → List ChunkAddress
touched b =
    b.chunk
    ∷ (beyond b (negsuc 0) (pos 0) (pos 0)
        ++ (beyond b (pos 1) (pos 0) (pos 0)
            ++ (beyond b (pos 0) (negsuc 0) (pos 0)
                ++ (beyond b (pos 0) (pos 1) (pos 0)
                    ++ (beyond b (pos 0) (pos 0) (negsuc 0) ++ beyond b (pos 0) (pos 0) (pos 1))))))
