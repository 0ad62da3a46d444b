-- ===== src/Deque/Invariant/Moves.antt =====
-- Every step of the owner keeps the invariant, and is one action of the abstract deque.
pub mod Push
pub mod Fill
pub mod Copy
pub mod Relink
pub mod Grow
pub mod Store
pub mod Pop
pub mod Take
pub mod Find
pub mod Shrink
pub mod Shift
pub mod Release
pub mod Fuel
