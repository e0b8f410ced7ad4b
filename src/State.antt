-- ===== src/State.antt =====
-- world/state: the targets of the state operations, and the stores of the properties above blocks.
pub mod Target
pub mod Sparse
pub mod Hierarchy
