-- ===== src/Deque/Examples/Empty.antt =====
-- What EMPTY of `steal` in src/work_stealing_deque.h tells.
use lock_free_deque.Prelude.{ℕ, ◌≡◌, refl, List, [], ◌∷◌, some, false}
use lock_free_deque.Prelude.Int.{pos}
use lock_free_deque.CircularArray.{index, load, store_no_mark}
use lock_free_deque.StealResult.{StealState, PushResult, of_state}
use lock_free_deque.BufferPool.{
  SizeClassConfig, Pool, empty_ranges, empty_pool, emplace, add_size_class, set_range,
}
use lock_free_deque.BufferPool.Acquire.{claimed}
use lock_free_deque.Deque.State.{ThiefPc, Machine, push_returned, pop_returned, steal_returned}
use lock_free_deque.Deque.State.OwnerPc.{idle, push_start, pop_start}
use lock_free_deque.Deque.Owner.{
  find_range, at_owner, begin_acquire, begin_shrink, decide_shrink, count_shrink, descend,
  release_next, cas_top, owner_move, owner_step,
}
use lock_free_deque.Deque.Thief.{at_thief, thief_move, thief_step}
use lock_free_deque.Deque.System.{
  push_called, pop_called, thief_moves, steal_called, Reach, here, next,
}
use lock_free_deque.Deque.View.{popped_values}
use lock_free_deque.Deque.Construct.{fresh_machine}
use mathlib.Core.List.{Perm}
use lock_free_deque.Prelude.{◌≤◌, ◌++◌, length}
use lock_free_deque.Prelude.Int.{◌-ℤ◌, is_positive}
use lock_free_deque.Deque.View.{pushed_values}
use lock_free_deque.Deque.Empty.{contested, taken_values, size_zero-Perm}
use lock_free_deque.Deque.Examples.{
  owner_runs, owner_run, two_classes, two_buffers, fresh, two_buffers-built, fresh-made, stolen,
  stolen-Reach,
}

-- A second thief after the first has taken the only value.
abbrev looking : Machine ℕ
looking = thief_step (thief_step (at_thief stolen 1 ThiefPc.start) 1) 1

looking-Reach : Reach fresh looking
unfolding owner_step owner_move thief_step thief_move two_buffers store_no_mark index load cas_top
looking-Reach =
    next (next (next stolen-Reach (steal_called 1 refl)) (thief_moves 1)) (thief_moves 1)

looking-array : looking.thieves 1 ≡ ThiefPc.got_array 1 0
unfolding owner_step owner_move thief_step thief_move two_buffers store_no_mark index load cas_top
looking-array = refl

looking-low : is_positive (looking.bottom -ℤ pos 1) ≡ false
unfolding owner_step owner_move thief_step thief_move two_buffers store_no_mark index load cas_top
looking-low = refl

size_zero-Perm_example :
    (rest : List ℕ) × (length rest ≤ contested looking.owner)
    × Perm (rest ++ taken_values looking) (pushed_values looking.trace)
size_zero-Perm_example =
    size_zero-Perm 0 1000 two_classes two_buffers 1 fresh looking two_buffers-built fresh-made
      looking-Reach 1 1 0 looking-array looking-low

-- The other case: EMPTY is reported although the deque is never empty while the call runs, because
-- the owner grows the array and shrinks it again to the one that the thief has seen. The pool has a
-- buffer of 4 slots and one of 8.
abbrev classes : List SizeClassConfig
classes = record { log_size = 2; count = 1 } ∷ record { log_size = 3; count = 1 } ∷ []

abbrev buffers : Pool ℕ
unfolding empty_ranges add_size_class emplace set_range
buffers =
    add_size_class 0
      (add_size_class 0 (empty_pool 0 (empty_ranges 4)) (record { log_size = 2; count = 1 }))
      (record { log_size = 3; count = 1 })

abbrev begun : Machine ℕ
begun = fresh_machine 2 (claimed buffers 0, 0)

abbrev push : ℕ → Machine ℕ → Machine ℕ
push x s = owner_runs 16 (at_owner s (push_start x))

abbrev pop : Machine ℕ → Machine ℕ
pop s = owner_runs 16 (at_owner s pop_start)

-- Three values fill the small array. A thief loads `top_` and the array.
abbrev seen : Machine ℕ
seen = thief_step (thief_step (at_thief (push 3 (push 2 (push 1 begun))) 0 ThiefPc.start) 0) 0

-- A fourth value makes the owner grow the array. The thief loads `bottom_`.
abbrev grown : Machine ℕ
grown = thief_step (push 4 seen) 0

grown-loaded : grown.thieves 0 ≡ ThiefPc.got_bottom 0 0 (pos 4)
unfolding owner_step owner_move thief_step thief_move buffers store_no_mark index load cas_top
    begin_acquire find_range add_size_class set_range emplace empty_ranges decide_shrink
    begin_shrink count_shrink descend release_next
grown-loaded = refl

-- Three pops, the last of which shrinks the array, up to the moment after it has published the small
-- one again. The first value is still in the deque.
abbrev shrinking : Machine ℕ
shrinking = owner_runs 7 (at_owner (pop (pop grown)) pop_start)

-- The thief loads the array, finds a modulus of 0, and finds both snapshots confirmed.
abbrev reported : Machine ℕ
reported = thief_step (thief_step shrinking 0) 0

-- The pop returns its value, and another pop the one that was there all the time.
abbrev drained : Machine ℕ
drained = pop (owner_runs 16 reported)

still-there : (shrinking.top ≡ 0) × (shrinking.bottom ≡ pos 1)
unfolding owner_step owner_move thief_step thief_move buffers store_no_mark index load cas_top
    begin_acquire find_range add_size_class set_range emplace empty_ranges decide_shrink
    begin_shrink count_shrink descend release_next
still-there = (refl, refl)

-- Four values were pushed and only two were given back when the thief reports EMPTY.
reported-empty :
    reported.trace
    ≡ steal_returned (of_state StealState.empty)
      ∷ pop_returned (some 3)
      ∷ pop_returned (some 4)
      ∷ push_returned 4 PushResult.success
      ∷ push_returned 3 PushResult.success
      ∷ push_returned 2 PushResult.success
      ∷ push_returned 1 PushResult.success
      ∷ []
unfolding owner_step owner_move thief_step thief_move buffers store_no_mark index load cas_top
    begin_acquire find_range add_size_class set_range emplace empty_ranges decide_shrink
    begin_shrink count_shrink descend release_next
reported-empty = refl

drained-gives : popped_values drained.trace ≡ 1 ∷ 2 ∷ 3 ∷ 4 ∷ []
unfolding owner_step owner_move thief_step thief_move buffers store_no_mark index load cas_top
    begin_acquire find_range add_size_class set_range emplace empty_ranges decide_shrink
    begin_shrink count_shrink descend release_next
drained-gives = refl

idle_push : (x : ℕ) (s : Machine ℕ) → s.owner ≡ idle → Reach begun s → Reach begun (push x s)
idle_push x s rest reach = owner_run 16 (next reach (push_called x rest))

idle_pop : (s : Machine ℕ) → s.owner ≡ idle → Reach begun s → Reach begun (pop s)
idle_pop s rest reach = owner_run 16 (next reach (pop_called rest))

-- All of this is a run.
reported-Reach : Reach begun reported
unfolding owner_step owner_move thief_step thief_move buffers store_no_mark index load cas_top
    begin_acquire find_range add_size_class set_range emplace empty_ranges decide_shrink
    begin_shrink count_shrink descend release_next
reported-Reach =
    next (next (owner_run 7 (next pops (pop_called refl))) (thief_moves 0)) (thief_moves 0)
  where
    pushes : Reach begun (push 3 (push 2 (push 1 begun)))
    pushes =
        idle_push 3 (push 2 (push 1 begun)) refl
          (idle_push 2 (push 1 begun) refl (idle_push 1 begun refl here))

    sees : Reach begun seen
    sees = next (next (next pushes (steal_called 0 refl)) (thief_moves 0)) (thief_moves 0)

    pops : Reach begun (pop (pop grown))
    pops =
        idle_pop (pop grown) refl
          (idle_pop grown refl (next (idle_push 4 seen refl sees) (thief_moves 0)))
