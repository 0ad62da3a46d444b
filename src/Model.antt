-- ===== src/Model.antt =====
-- model/deque_model.c: the C translation of the deque, the pool and the retries of a thief, which a
-- model checker explores.
pub mod Program
pub mod Deque
pub mod Shrink
pub mod Owner
pub mod Linked
pub mod Retry
pub mod Sound
pub mod Attempts
pub mod Paths
pub mod Batches
pub mod Thief
pub mod Main
mod Examples
