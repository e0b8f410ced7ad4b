-- ===== src/Chunks.antt =====
-- world/chunk: voxel chunks with their sparse sidecars, the groups that hold them and the manager.
pub mod Sidecar
pub mod Chunk
pub mod Group
pub mod Manager
pub mod Orientation
