-- ===== src/Model/Examples.antt =====
-- Runs of model/deque_model.c.
use lock_free_deque.Prelude.{
  ℕ, zero, suc, false, ◌≡◌, refl, List, ◌∷◌, inr, Option, none, some, true, arith, update, [],
}
use lock_free_deque.Prelude.Int.{ℤ, pos}
use lock_free_deque.CircularArray.{CircularArray, new_array}
use lock_free_deque.Deque.State.{owned, ThiefPc, Machine}
use lock_free_deque.Deque.State.OwnerPc.{idle}
use lock_free_deque.Deque.Thief.{thief_move}
use lock_free_deque.Model.Program.{
  Program, returns, fails, access, ◌>>=◌, ◌>>◌, Array, small, large, original, Memory, run, step,
  Always,
}
use lock_free_deque.Model.Deque.{log_size, uninitialized, push_bottom, steal}
use lock_free_deque.Model.Shrink.{pop_bottom, release_chain, owner_main, borrower_main}
use lock_free_deque.Model.Retry.{thief_main, RetryState}
use lock_free_deque.Model.Main.{
  initial_owned, initial_memory, prefill, Thread, Threads, created, schedule, after_join,
}
use lock_free_deque.Model.Sound.{PushReturned, push_bottom-PushReturned}
use lock_free_deque.Model.Batches.{BatchOf, steal_with_retry-Batch}
use lock_free_deque.Model.Owner.{Own, AlwaysOwn}
use lock_free_deque.Model.Linked.{Linked, PushedLinked, push_bottom-PushedLinked}
use lock_free_deque.Model.Linked.Shrinks.{Kept}
use lock_free_deque.Model.Linked.Threads.{pop_bottom-Linked, release_chain-ends}
use lock_free_deque.Model.Thief.Places.{number, Agrees, before_top, Follows}
use lock_free_deque.Model.Thief.{thief_move-Follows}

-- The result of a run that nobody interrupts, or nothing where an assertion fails.
abbrev result_of : {X : Type 0} → Option (X × Memory) → Option X
result_of none = none
result_of (some (x, m)) = some x

prefill-holds : result_of (run initial_memory prefill) ≡ some tt
prefill-holds = refl

abbrev memory_after : Option (Unit {0} × Memory) → Memory
memory_after none = initial_memory
memory_after (some (x, m)) = m

abbrev prefilled : Memory
prefilled = memory_after (run initial_memory prefill)

owner_main-takes : result_of (run prefilled owner_main) ≡ some (pos 3, pos 2, pos 1)
owner_main-takes = refl

push_bottom-PushReturned_example : Always PushReturned (push_bottom original (pos 7))
push_bottom-PushReturned_example = push_bottom-PushReturned original (pos 7)

-- A thief whose last batch was exhausted.
abbrev exhausted : RetryState
exhausted = record { window = 8; raw_attempts = 2 }

steal_with_retry-Batch_example : BatchOf original exhausted
steal_with_retry-Batch_example =
    steal_with_retry-Batch original exhausted (inr (omega arith, omega arith)) (omega arith)

abbrev links : Array → Option Array
links small = none
links large = some small

-- The owner with both arrays and two values.
abbrev both_arrays : Own
both_arrays = record {
  active = large;
  bottom = pos 2;
  cached_top = 0;
  mark = λ array. 0;
  prev = links;
  holds = λ array. true;
}

both_arrays-Linked : Linked both_arrays
both_arrays-Linked = (refl, refl, λ e. inr (refl, refl))

abbrev small_alone : Own
small_alone = record {
  active = small;
  bottom = pos 3;
  cached_top = 0;
  mark = λ array. 0;
  prev = λ array. none;
  holds = initial_owned;
}

push_bottom-PushedLinked_example :
    AlwaysOwn (PushedLinked small_alone) small_alone (push_bottom original (pos 3))
push_bottom-PushedLinked_example = push_bottom-PushedLinked small_alone original (pos 3)

pop_bottom-Linked_example : AlwaysOwn (Kept both_arrays) both_arrays (pop_bottom original)
pop_bottom-Linked_example = pop_bottom-Linked both_arrays original both_arrays-Linked

release_chain-ends_example :
    AlwaysOwn
      (λ u own'.
        (own'.prev small ≡ none)
        × (own'.prev large ≡ none)
        × (own'.holds large ≡ false)
        × (links large ≡ some small → own'.holds small ≡ false))
      both_arrays
      (release_chain 3 (some large))
release_chain-ends_example = release_chain-ends both_arrays both_arrays-Linked

-- A machine with the same memory as the model after its pushes.
abbrev machine_arrays : ℕ → CircularArray ℤ
machine_arrays =
    update (λ r. record (new_array uninitialized 2) { segment = prefilled.slots small }) 1
      (record (new_array uninitialized 3) { segment = prefilled.slots large })

abbrev machine : Machine ℤ
machine = record {
  ranges = [];
  arrays = machine_arrays;
  flags = λ r. owned;
  active = 1;
  bottom = pos 4;
  top = 0;
  cached_top = 0;
  min_log_size = 2;
  owner = idle;
  thieves = λ i. ThiefPc.start;
  trace = [];
}

machine_sizes : (a : Array) → (machine.arrays (number a)).log_size ≡ log_size a
machine_sizes small = refl
machine_sizes large = refl

machine_slots : (a : Array) (i : ℕ) → prefilled.slots a i ≡ (machine.arrays (number a)).segment i
machine_slots small i = refl
machine_slots large i = refl

machine-Agrees : Agrees original prefilled machine
machine-Agrees = record {
  active = refl;
  bottom = refl;
  top = refl;
  sizes = machine_sizes;
  slots = machine_slots;
}

thief_move-Follows_example :
    Follows original machine 0
      (thief_move machine 0 ThiefPc.start)
      (step prefilled (steal original))
thief_move-Follows_example =
    thief_move-Follows original machine 0 prefilled machine-Agrees ThiefPc.start (steal original)
      before_top

-- `main` with the threads one after another.
abbrev main_in_turn : Program (Unit {0})
main_in_turn = do
  prefill
  taken ← owner_main
  first ← thief_main
  second ← thief_main
  acquired ← borrower_main
  after_join taken first second acquired

main_in_turn-holds : result_of (run initial_memory main_in_turn) ≡ some tt
main_in_turn-holds = refl

-- The threads by turns.
abbrev by_turns : ℕ → List Thread
by_turns zero = []
by_turns (suc n) = Thread.owner ∷ Thread.first ∷ Thread.second ∷ Thread.borrowing_owner ∷ by_turns n

abbrev ended : {X : Type 0} → Program X → Option X
ended (returns x) = some x
ended fails = none
ended (access a k) = none

-- `main` from where the threads stand, where all of them have ended.
abbrev joined : Threads → Option (Unit {0} × Memory)
joined s = elim (ended s.owner) [
  | none ↦ none
  | some taken ↦ elim (ended s.first) [
    | none ↦ none
    | some first ↦ elim (ended s.second) [
      | none ↦ none
      | some second ↦ elim (ended s.borrowing_owner) [
        | none ↦ none
        | some acquired ↦ run s.memory (after_join taken first second acquired)
      ]
    ]
  ]
]

by_turns-holds : result_of (joined (schedule (by_turns 80) (created prefilled))) ≡ some tt
by_turns-holds = refl
