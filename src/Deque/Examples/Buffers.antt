-- ===== src/Deque/Examples/Buffers.antt =====
-- The pool of the runs, and an array of 4 slots (src/buffer_pool.h, src/circular_array.h).
use lock_free_deque.Prelude.{ℕ, ◌≡◌, refl, some}
use lock_free_deque.CircularArray.{size, index, load}
use lock_free_deque.BufferPool.Accepts.{Verdict}
use lock_free_deque.BufferPool.Accepts.Verdict.{construct-Verdict}
use lock_free_deque.Prelude.{List, [], ◌∷◌}
use lock_free_deque.BufferPool.{
  error, duplicate_size_class, SizeClassConfig, construct, check_config, add_size_classes,
}
use lock_free_deque.BufferPool.{empty_ranges, emplace, add_size_class, set_range, try_acquire}
use lock_free_deque.Deque.Owner.{find_range}
use lock_free_deque.Prelude.{if◌then◌else◌, ◌==◌, ◌%◌, arith}
use lock_free_deque.CircularArray.{CircularArray, new_array, store}
use lock_free_deque.CircularArray.Slots.{load-store, index-eq-mod}
use lock_free_deque.BufferPool.Emplaced.{Filled}
use lock_free_deque.BufferPool.Ranges.{construct-Filled}
use lock_free_deque.BufferPool.Acquire.{Acquires, try_acquire-Acquires}
use lock_free_deque.Deque.Examples.{two_classes, two_buffers, two_buffers-built}

abbrev four_slots : CircularArray ℕ
four_slots = new_array 0 2

class-found : find_range two_buffers.ranges 2 ≡ some (record { begin = 1; count = 1 })
unfolding two_buffers find_range add_size_class set_range emplace empty_ranges
class-found = refl

-- The last two slots of an array of 4, seen from index 6.
load-store_example : load (store four_slots 6 9) 7 ≡ (if 6 == 7 then 9 else load four_slots 7)
load-store_example = load-store four_slots 6 7 9 (omega arith) (omega arith)

index-eq-mod_example : index four_slots 6 ≡ 6 % size four_slots
index-eq-mod_example = index-eq-mod four_slots 6

construct-Filled_example : Filled two_buffers 2 (record { begin = 1; count = 1 })
construct-Filled_example =
    construct-Filled 0 1000 two_classes two_buffers two_buffers-built 2
      (record { begin = 1; count = 1 }) class-found

try_acquire-Acquires_example : Acquires two_buffers 1 (try_acquire two_buffers 1)
try_acquire-Acquires_example = try_acquire-Acquires two_buffers 1

-- The second size class is the first once more.
abbrev one_class_twice : List SizeClassConfig
one_class_twice = record { log_size = 3; count = 1 } ∷ record { log_size = 3; count = 2 } ∷ []

one_class_twice-refused : construct {A = ℕ} 0 1000 one_class_twice ≡ error duplicate_size_class
unfolding construct check_config empty_ranges add_size_classes add_size_class find_range set_range
    emplace
one_class_twice-refused = refl

construct-Verdict_example : Verdict 1000 one_class_twice (construct {A = ℕ} 0 1000 one_class_twice)
construct-Verdict_example = construct-Verdict 0 1000 one_class_twice
