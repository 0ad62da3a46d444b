-- ===== src/Deque/Examples/Destroy.antt =====
-- A deque with two buffers is destroyed, and then its pool (src/work_stealing_deque.h,
-- src/buffer_pool.h).
use lock_free_deque.Prelude.{ℕ, true, ◌≡◌, ◌≢◌, some, update}
use lock_free_deque.CircularArray.{index, load, store_no_mark}
use lock_free_deque.BufferPool.{empty_ranges, emplace, add_size_class, set_range}
use lock_free_deque.Deque.State.{lent, available, Machine}
use lock_free_deque.Deque.Owner.{find_range, owner_move, owner_step}
use lock_free_deque.Deque.Owner.{begin_acquire}
use lock_free_deque.Prelude.{arith}
use lock_free_deque.Deque.State.{Flag, owned}
use lock_free_deque.Deque.Examples.{
  two_classes, two_buffers, fresh, two_buffers-built, fresh-made, two_values, two_values-Reach,
  two_values-idle,
}
use lock_free_deque.Deque.Destroy.{destroy, all_available}
use lock_free_deque.Deque.Destroy.Loop.{Returned}
use lock_free_deque.Deque.Destroy.Returned.{destroy-Returned, all_returned}

not_lent :
    (flags : ℕ → Flag) (i : ℕ) (f : Flag)
    → f ≢ lent
    → ((r : ℕ) → flags r ≢ lent)
    → (r : ℕ) → update flags i f r ≢ lent
not_lent flags i f ne others r e = ground (arith, others r)

two_values-none_lent : (r : ℕ) → two_values.flags r ≢ lent
unfolding owner_step owner_move two_buffers store_no_mark index load begin_acquire find_range
    set_range add_size_class emplace empty_ranges
two_values-none_lent =
    not_lent _ 1 owned (λ e. absurd (cc (e)))
      (not_lent _ 0 owned (λ e. absurd (cc (e)))
        (not_lent _ 1 available (λ e. absurd (cc (e)))
          (not_lent (λ r. available) 0 available (λ e. absurd (cc (e))) (λ r e. absurd (cc (e))))))

destroy-Returned_example : Returned two_values (destroy two_values)
destroy-Returned_example =
    destroy-Returned 0 1000 two_classes two_buffers 1 fresh two_values two_buffers-built fresh-made
      two_values-Reach two_values-idle

all_returned_example :
    (s' : Machine ℕ) × (destroy two_values ≡ some s')
    × (all_available s'.flags two_buffers.size ≡ true)
all_returned_example =
    all_returned 0 1000 two_classes two_buffers 1 fresh two_values two_buffers-built fresh-made
      two_values-Reach two_values-idle two_values-none_lent
