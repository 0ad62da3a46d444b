-- ===== src/Deque.antt =====
-- src/work_stealing_deque.h: one deque, the pool that it draws on, and everybody who uses them.
pub mod State
pub mod Owner
pub mod Thief
pub mod System
pub mod View
pub mod Invariant
pub mod Refinement
pub mod Construct
pub mod Guarantees
pub mod WaitFree
pub mod Progress
pub mod Destroy
pub mod Empty
pub mod Lent
mod Examples
