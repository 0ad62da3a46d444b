-- ===== src/Deque/Destroy.antt =====
-- The destructor of src/work_stealing_deque.h with `release_chain`, after the workers have stopped,
-- and the destructor of src/buffer_pool.h, which checks that every record was returned.
pub mod Kept
pub mod Parts
pub mod Steps
pub mod Loop
pub mod Returned
use lock_free_deque.Prelude.{ℕ, zero, suc, Bool, true, ◌&&◌, Option, none, some, update}
use lock_free_deque.Deque.State.{Flag, available, Machine}
use lock_free_deque.Deque.Owner.{is_available}

module _ {A : Type 0} where
  -- One round of `release_chain`, without its step to the next array.
  abbrev pub release_array : Machine A → ℕ → Machine A
  release_array s cursor = record s {
    arrays = update s.arrays cursor (record (s.arrays cursor) { prev = none });
    flags = update s.flags cursor available;
  }

  -- `release_chain`, or nothing where the fuel does not suffice. Each round goes to a smaller array.
  unfoldable pub release_chain : ℕ → Machine A → Option ℕ → Option (Machine A)
  release_chain fuel s none = some s
  release_chain zero s (some cursor) = none
  release_chain (suc fuel) s (some cursor) =
      release_chain fuel (release_array s cursor) (s.arrays cursor).prev

  -- `~WorkStealingDeque()`
  unfoldable pub destroy : Machine A → Option (Machine A)
  unfolding release_chain
  destroy s = release_chain (suc (s.arrays s.active).log_size) s (some s.active)

-- The assertions of `~BufferPool()`, on the records below `n`.
unfoldable pub all_available : (ℕ → Flag) → ℕ → Bool
all_available flags zero = true
all_available flags (suc n) = is_available (flags n) && all_available flags n
