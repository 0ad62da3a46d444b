-- ===== src/Deque/Invariant.antt =====
-- What is true of src/work_stealing_deque.h between any two shared accesses.
pub mod Chain
pub mod Defs
pub mod Stable
pub mod Quiet
pub mod Tests
pub mod Moves
pub mod Steal
pub mod Thieves
pub mod Others
