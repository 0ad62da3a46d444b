-- ===== src/Deque/Examples.antt =====
-- Runs of src/work_stealing_deque.h on a pool with a buffer of 2 slots and one of 4.
mod Buffers
mod Progress
mod Destroy
mod Empty
use mathlib.Core.List.{Perm, Sublist}
use lock_free_deque.Prelude.{
  ℕ, zero, suc, ◌+◌, ◌≤◌, ◌<◌, ◌*◌, ◌≡◌, ◌≢◌, refl, inl, List, [], ◌∷◌, ◌++◌, some, window, length,
  update,
}
use lock_free_deque.Prelude.Int.{pos}
use lock_free_deque.CircularArray.{size, index, load, store_no_mark, reset_for_reuse}
use lock_free_deque.BufferPool.{
  SizeClassConfig, ok, Pool, empty_ranges, empty_pool, emplace, check_config, add_size_class,
  add_size_classes, set_range, construct, scan, try_acquire,
}
use lock_free_deque.BufferPool.Acquire.{claimed}
use lock_free_deque.Deque.State.{lent, available, ThiefPc, Machine}
use lock_free_deque.Deque.State.OwnerPc.{idle, push_start, pop_start, pop_empty, fault}
use lock_free_deque.Deque.Owner.{find_range, with_array, at_owner, cas_top, owner_move, owner_step}
use lock_free_deque.Deque.Thief.{at_thief, thief_move, thief_step}
use lock_free_deque.Deque.System.{
  owner_moves, push_called, pop_called, thief_moves, steal_called, other_claims, Reach, here, next,
}
use lock_free_deque.Deque.View.{view, pushed_values, popped_values, stolen_values, Runs}
use lock_free_deque.Deque.Invariant.Defs.{Inv}
use lock_free_deque.Deque.Construct.{fresh_machine, new_deque, empty_view}
use lock_free_deque.Deque.Guarantees.{
  linearizes, exactly_once, returned_once, steals_in_order, empty_is_true, never_faults,
  cached_top-le, lent-Untouched,
}
use lock_free_deque.Deque.Lent.{Untouched}
use lock_free_deque.Deque.WaitFree.{rank, accesses, calls, steal_is_bounded}
use lock_free_deque.Deque.Owner.{begin_acquire, count_shrink}
use lock_free_deque.Deque.State.OwnerPc.{shrink_start}
use lock_free_deque.Deque.Guarantees.{count_is_complete}
use lock_free_deque.Prelude.{if◌then◌else◌, ◌==◌, ◌%◌, arith}
use lock_free_deque.CircularArray.{CircularArray, new_array, store}
use lock_free_deque.CircularArray.Slots.{load-store, index-eq-mod}
use lock_free_deque.BufferPool.Emplaced.{Filled}
use lock_free_deque.BufferPool.Ranges.{construct-Filled}
use lock_free_deque.BufferPool.Acquire.{Acquires, try_acquire-Acquires}
use lock_free_deque.Deque.Invariant.Quiet.{Outcome}
use lock_free_deque.Deque.Refinement.{Step-Outcome}

abbrev two_classes : List SizeClassConfig
two_classes = record { log_size = 1; count = 1 } ∷ record { log_size = 2; count = 1 } ∷ []

abbrev two_buffers : Pool ℕ
unfolding empty_ranges add_size_class emplace set_range
two_buffers =
    add_size_class 0
      (add_size_class 0 (empty_pool 0 (empty_ranges 3)) (record { log_size = 1; count = 1 }))
      (record { log_size = 2; count = 1 })

abbrev fresh : Machine ℕ
fresh = fresh_machine 1 (claimed two_buffers 0, 0)

two_buffers-built : construct 0 1000 two_classes ≡ ok two_buffers
unfolding construct check_config empty_ranges add_size_classes add_size_class find_range set_range
    emplace
two_buffers-built = refl

fresh-made : new_deque two_buffers 1 ≡ some fresh
unfolding new_deque try_acquire scan find_range add_size_class set_range emplace empty_ranges
fresh-made = refl

-- The owner runs for `n` steps.
abbrev owner_runs : ℕ → Machine ℕ → Machine ℕ
owner_runs zero s = s
owner_runs (suc n) s = owner_step (owner_runs n s)

abbrev owner_run : (n : ℕ) {s t : Machine ℕ} → Reach s t → Reach s (owner_runs n t)
owner_run zero reach = reach
owner_run (suc n) reach = next (owner_run n reach) owner_moves

abbrev thief_runs : ℕ → Machine ℕ → Machine ℕ
thief_runs zero s = s
thief_runs (suc n) s = thief_step (thief_runs n s) 0

thief_runs-Reach : (n : ℕ) {s t : Machine ℕ} → Reach s t → Reach s (thief_runs n t)
thief_runs-Reach zero reach = reach
thief_runs-Reach (suc n) reach = next (thief_runs-Reach n reach) (thief_moves 0)

-- The owner pushes 7.
abbrev pushed : Machine ℕ
pushed = owner_runs 3 (at_owner fresh (push_start 7))

pushed-Reach : Reach fresh pushed
pushed-Reach = owner_run 3 (next here (push_called 7 refl))

pushed-idle : pushed.owner ≡ idle
unfolding owner_step owner_move two_buffers
pushed-idle = refl

-- A thief takes it.
abbrev stolen : Machine ℕ
stolen = thief_runs 6 (at_thief pushed 0 ThiefPc.start)

stolen-Reach : Reach fresh stolen
unfolding owner_step owner_move thief_step thief_move two_buffers store_no_mark index load cas_top
stolen-Reach = thief_runs-Reach 6 (next pushed-Reach (steal_called 0 refl))

stolen-idle : stolen.owner ≡ idle
unfolding owner_step owner_move thief_step thief_move two_buffers store_no_mark index load cas_top
stolen-idle = refl

stolen_once : length (stolen_values stolen.trace) ≡ 1
unfolding owner_step owner_move thief_step thief_move two_buffers store_no_mark index load cas_top
stolen_once = refl

-- The owner pops from the empty deque, up to the moment before it returns.
abbrev popping : Machine ℕ
popping = owner_runs 2 (at_owner stolen pop_start)

popping-Reach : Reach fresh popping
popping-Reach = owner_run 2 (next stolen-Reach (pop_called stolen-idle))

popping-empty : popping.owner ≡ pop_empty 1
unfolding owner_step owner_move thief_step thief_move two_buffers store_no_mark index load cas_top
popping-empty = refl

-- Another user holds the larger buffer.
abbrev shared : Machine ℕ
shared = record (with_array fresh 1 (reset_for_reuse (fresh.arrays 1))) {
  flags = update fresh.flags 1 lent;
}

larger-available : fresh.flags 1 ≡ available
unfolding add_size_class set_range emplace empty_ranges
larger-available = refl

shared-Reach : Reach fresh shared
shared-Reach = next here (other_claims 1 larger-available)

larger-lent : shared.flags 1 ≡ lent
larger-lent = refl

stolen_state :
    (item : ℕ → ℕ) × (hi : ℕ) × Inv stolen item hi stolen.owner
    × Runs empty_view (view stolen item hi stolen.owner)
stolen_state =
    linearizes 0 1000 two_classes two_buffers 1 fresh stolen two_buffers-built fresh-made
      stolen-Reach

-- Two values, and a pop that finds both.
abbrev two_values : Machine ℕ
two_values = owner_runs 8 (at_owner pushed (push_start 8))

two_values-Reach : Reach fresh two_values
unfolding owner_step owner_move two_buffers
two_values-Reach = owner_run 8 (next pushed-Reach (push_called 8 refl))

two_values-idle : two_values.owner ≡ idle
unfolding owner_step owner_move two_buffers store_no_mark index load begin_acquire find_range
    set_range add_size_class emplace empty_ranges
two_values-idle = refl

abbrev counting : Machine ℕ
counting = owner_runs 3 (at_owner two_values pop_start)

counting-Reach : Reach fresh counting
counting-Reach = owner_run 3 (next two_values-Reach (pop_called two_values-idle))

counting-start : counting.owner ≡ shrink_start 8 (pos 1) 0
unfolding owner_step owner_move two_buffers store_no_mark index load begin_acquire find_range
    set_range add_size_class emplace empty_ranges
counting-start = refl

count_is_complete_example :
    count_shrink
      ((counting.arrays counting.active).log_size + 5)
      counting.arrays
      counting.active
      counting.min_log_size
      (pos 1)
      0
    ≡ count_shrink
        (counting.arrays counting.active).log_size
        counting.arrays
        counting.active
        counting.min_log_size
        (pos 1)
        0
count_is_complete_example =
    count_is_complete 0 1000 two_classes two_buffers 1 fresh counting two_buffers-built fresh-made
      counting-Reach 8 (pos 1) 0 5 counting-start

linearizes_example :
    (item : ℕ → ℕ) × (hi : ℕ) × Inv stolen item hi stolen.owner
    × Runs empty_view (view stolen item hi stolen.owner)
linearizes_example =
    linearizes 0 1000 two_classes two_buffers 1 fresh stolen two_buffers-built fresh-made
      stolen-Reach

exactly_once_example :
    (n : ℕ) × (stolen.bottom ≡ pos (stolen.top + n))
    × (n < size (stolen.arrays stolen.active))
    × Perm
        (window (load (stolen.arrays stolen.active)) stolen.top n
          ++ (popped_values stolen.trace ++ stolen_values stolen.trace))
        (pushed_values stolen.trace)
exactly_once_example =
    exactly_once 0 1000 two_classes two_buffers 1 fresh stolen two_buffers-built fresh-made
      stolen-Reach stolen-idle

returned_once_example :
    (rest : List ℕ) × Perm
      (rest ++ (popped_values stolen.trace ++ stolen_values stolen.trace))
      (pushed_values stolen.trace)
returned_once_example =
    returned_once 0 1000 two_classes two_buffers 1 fresh stolen two_buffers-built fresh-made
      stolen-Reach

steals_in_order_example : Sublist (stolen_values stolen.trace) (pushed_values stolen.trace)
steals_in_order_example =
    steals_in_order 0 1000 two_classes two_buffers 1 fresh stolen two_buffers-built fresh-made
      stolen-Reach

empty_is_true_example :
    Perm (popped_values popping.trace ++ stolen_values popping.trace) (pushed_values popping.trace)
empty_is_true_example =
    empty_is_true 0 1000 two_classes two_buffers 1 fresh popping two_buffers-built fresh-made
      popping-Reach 1 (inl popping-empty)

never_faults_example : popping.owner ≢ fault
never_faults_example =
    never_faults 0 1000 two_classes two_buffers 1 fresh popping two_buffers-built fresh-made
      popping-Reach

cached_top-le_example : popping.cached_top ≤ popping.top
cached_top-le_example =
    cached_top-le 0 1000 two_classes two_buffers 1 fresh popping two_buffers-built fresh-made
      popping-Reach

lent-Untouched_example :
    Untouched shared 1 (owner_step shared) × ((i : ℕ) → Untouched shared 1 (thief_step shared i))
lent-Untouched_example =
    lent-Untouched 0 1000 two_classes two_buffers 1 fresh shared two_buffers-built fresh-made
      shared-Reach 1 larger-lent

steal_is_bounded_example :
    accesses 0 stolen-Reach + rank (stolen.thieves 0)
    ≤ 6 * calls 0 stolen-Reach + rank (fresh.thieves 0)
steal_is_bounded_example = steal_is_bounded 0 stolen-Reach

Step-Outcome_example :
    Outcome (view stolen stolen_state.0 stolen_state.1 stolen.owner) (at_owner stolen pop_start)
Step-Outcome_example = Step-Outcome stolen_state.2 (pop_called stolen-idle)
