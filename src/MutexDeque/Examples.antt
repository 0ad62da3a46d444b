-- ===== src/MutexDeque/Examples.antt =====
-- Runs of src/mutex/work_stealing_deque.h from a buffer of 2 slots.
use lock_free_deque.Prelude.{ℕ, ◌/◌, ◌≡◌, refl, some, false, ◌&&◌, ltb, List, [], ◌∷◌, arith}
use lock_free_deque.MutexDeque.{MutexDeque, push_bottom, shrink_target, pop_bottom, steal}
use lock_free_deque.MutexDeque.Index.{WellFormed}
use lock_free_deque.MutexDeque.Refine.{Pushed, push_bottom-Pushed}
use lock_free_deque.MutexDeque.Take.{
  Popped, Stolen, pop_bottom-Popped, steal-Stolen, shrink_target-stops,
}
use lock_free_deque.MutexDeque.RoundTrip.{ReadBack, filled, filled-ReadBack}

-- One value, in a buffer that its next push doubles.
abbrev one_value : MutexDeque ℕ
one_value = record { buffer = λ i. 7; capacity = 2; min_capacity = 2; top = 1; size = 1 }

one_value-WellFormed : WellFormed one_value
one_value-WellFormed = record {
  log_capacity = 1;
  power = refl;
  log_min = 1;
  min_power = refl;
  least = omega arith;
  word = omega arith;
  fits = omega arith;
  top_fits = omega arith;
}

first_taken : (steal one_value).0.value ≡ some 7
unfolding steal
first_taken = refl

target_of_eight : shrink_target 64 2 1 64 ≡ 4
unfolding shrink_target
target_of_eight = refl

push_bottom-Pushed_example : Pushed 1000 one_value 8 (push_bottom 0 1000 one_value 8)
push_bottom-Pushed_example =
    push_bottom-Pushed 0 1000 one_value 8 (omega arith) one_value-WellFormed

pop_bottom-Popped_example : Popped one_value (pop_bottom 0 one_value)
pop_bottom-Popped_example = pop_bottom-Popped 0 one_value one_value-WellFormed

steal-Stolen_example : Stolen one_value (steal one_value)
steal-Stolen_example = steal-Stolen one_value one_value-WellFormed

shrink_target-stops_example : let r = shrink_target 64 2 1 64 in (ltb 2 r && ltb 1 (r / 4)) ≡ false
shrink_target-stops_example = shrink_target-stops 64 2 1 64 (omega arith)

abbrev five_values : List ℕ
five_values = 5 ∷ 6 ∷ 7 ∷ 8 ∷ 9 ∷ []

-- Five pushes double a buffer of 2 slots twice, and pops halve it again.
filled-ReadBack_example : ReadBack 0 five_values (filled 0 1000 1 five_values)
filled-ReadBack_example =
    filled-ReadBack 0 1000 1 five_values (omega arith) (omega arith) (omega arith) (omega arith)
