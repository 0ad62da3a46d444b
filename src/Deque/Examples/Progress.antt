-- ===== src/Deque/Examples/Progress.antt =====
-- A push and a pop run to their end (src/work_stealing_deque.h).
use lock_free_deque.Prelude.{◌≡◌, refl}
use lock_free_deque.CircularArray.{index, load, store_no_mark}
use lock_free_deque.BufferPool.{empty_ranges, emplace, add_size_class, set_range}
use lock_free_deque.Deque.State.OwnerPc.{idle, push_start, pop_start}
use lock_free_deque.Deque.Owner.{find_range, at_owner, owner_move, owner_step}
use lock_free_deque.Deque.System.{push_called, pop_called, here, next}
use lock_free_deque.Deque.Owner.{begin_acquire}
use lock_free_deque.Prelude.{arith}
use lock_free_deque.Deque.Examples.{
  two_classes, two_buffers, fresh, two_buffers-built, fresh-made, owner_runs, owner_run, two_values,
  two_values-Reach, two_values-idle,
}
use lock_free_deque.Deque.Progress.Runs.{push_returns, pop_returns}

push_returns_example : (owner_runs 9 (at_owner fresh (push_start 7))).owner ≡ idle
unfolding two_buffers find_range add_size_class set_range emplace empty_ranges
push_returns_example =
    push_returns 0 1000 two_classes two_buffers 1 fresh (at_owner fresh (push_start 7))
      two_buffers-built fresh-made (next here (push_called 7 refl)) 7 refl (owner_run 9 here) refl
      (omega arith)

-- The pop gives the larger buffer back to the pool.
pop_returns_example : (owner_runs 16 (at_owner two_values pop_start)).owner ≡ idle
unfolding owner_step owner_move two_buffers store_no_mark index load begin_acquire find_range
    set_range add_size_class emplace empty_ranges
pop_returns_example =
    pop_returns 0 1000 two_classes two_buffers 1 fresh (at_owner two_values pop_start)
      two_buffers-built fresh-made (next two_values-Reach (pop_called two_values-idle)) refl
      (owner_run 16 here) refl (omega arith)
