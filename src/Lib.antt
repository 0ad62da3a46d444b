-- ===== src/Lib.antt =====
-- The work-stealing deques of this repository: a lock-free one (src/work_stealing_deque.h), whose
-- owner pushes and pops at the bottom while any number of thieves steal at the top, with buffers
-- (src/circular_array.h) that it borrows from a pool (src/buffer_pool.h), and the backoff of a worker
-- that retries steals (src/steal_backoff.h); a baseline under one lock
-- (src/mutex/work_stealing_deque.h); and a C translation of the deque for a model checker
-- (model/deque_model.c).
--
-- Files:
--   Prelude: shared names, tests on numbers, maps, integers, and facts on masks and exclusive or.
--   StealResult: StealState, StealResult and PushResult.
--   CircularArray: the array; Slots has its laws.
--   BufferPool: the pool's constructor and try_acquire in one go; Emplaced, Ranges, Fresh and Acquire
--     have what they promise, Accepts which configurations the constructor is for.
--   StealBackoff: StealBackoff and steal_with_retry, with the deque's steal as a parameter; Bounds,
--     Retry and Pauses have their laws, and Accepts which configurations its constructor is for.
--   MutexDeque: src/mutex/work_stealing_deque.h, each operation under its lock as one function;
--     Refine and Take show that it implements a list, RoundTrip what comes back of what is pushed.
--   Deque/State: the members of WorkStealingDeque, the pool's records, and where the threads stand.
--   Deque/Owner: try_push_bottom, pop_bottom, perhaps_shrink, with the parts of try_acquire,
--     grow_into, shrink and release that they run; owner_step makes one shared access.
--   Deque/Thief: steal; thief_step makes one shared access.
--   Deque/System: the steps of everything around a deque, and runs of them.
--   Deque/View: the sequence of values that a client sees, its actions, and their consequences.
--   Deque/Invariant: the invariant, and that every step keeps it: Chain for the chain of prev_
--     pointers, Moves for the owner, Steal and Thieves for the thieves, Others for the other users
--     of the pool.
--   Deque/Construct, Destroy: the constructor, and the destructors with release_chain.
--   Deque/Refinement, Guarantees, WaitFree, Progress, Empty, Lent: the theorems.
--   Model: model/deque_model.c. Program has memory and programs as trees of single accesses; Deque,
--     Shrink and Retry the functions and the threads; Main what main does before it starts them and
--     after it has joined them, and the steps of the threads in any order; Sound and Attempts what holds
--     of them whatever their accesses give; Paths the accesses on a way through a program, and Batches
--     those of the retries; Owner and Linked what holds where only the owner writes its own members
--     and the metadata of the arrays that it holds; Thief relates steal to Deque/Thief.
--
-- How the code is read. A machine is the shared memory with a program counter for the owner and one
-- for each thief; a step makes at most one access to `top_`, `bottom_`, `active_array_`, a slot or a
-- flag of the pool, together with the private work next to it, and steps interleave freely. All
-- accesses are taken as sequentially consistent: the code's relaxed loads are the owner's, of words
-- that only the owner writes. Loops over shared words (the scan of try_acquire, the copies, the
-- release of discarded arrays) are one step a round; the two walks over prev_ read only memory of
-- the owner and run within a step, the first with the active array's log_size as fuel, enough since
-- each link leads to an array of half the size. The destructor walks the chain with that fuel and
-- one. A pointer to a buffer is its number in the pool, and following a null pointer leads to the
-- place `fault`.
--
-- A flag of the pool distinguishes the buffers of this deque from those of others, which the code
-- does not: another user may claim an available buffer, change it at will, and return it, at any
-- moment. The slots of a new buffer start with `zero_value`, a default value of the type.
--
-- Bounds: logical indices are integers without a bound, as README.md asks that they never overflow;
-- sizes are powers of two without a bound in the machine, and the pool's constructor limits them;
-- what its vector of records holds at most is a parameter. The backoff is over 32-bit numbers, with
-- their wrap-around.
--
-- In model/deque_model.c a thread can be interrupted before each access, also to the members that are
-- not atomic. What Sound, Attempts and Batches show holds for any results of the accesses, and so for
-- any other threads and any memory order; what Linked shows assumes of the other threads that they
-- write no member of the owner's deque but top, and no metadata of an array that the owner has
-- acquired and not returned. Loops over prev have as fuel the number of arrays, and fail where it
-- runs out; an assertion that does not hold fails as well.
--
-- Not modelled: memory that runs out, the test hooks, weak memory orders in the machine, the
-- processor's pause instruction, tests and benchmarks.
pub mod Prelude
pub mod StealResult
pub mod CircularArray
pub mod BufferPool
pub mod StealBackoff
pub mod Deque
pub mod Model
pub mod MutexDeque
