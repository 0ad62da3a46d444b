-- ===== src/MutexDeque.antt =====
-- src/mutex/work_stealing_deque.h: a deque under one lock, so that each operation is a function. The
-- buffer is a map from the indices below its size.
pub mod Index
pub mod Refine
pub mod Take
pub mod RoundTrip
mod Examples
use lock_free_deque.Prelude.{
  ℕ, zero, suc, ◌+◌, ◌-◌, ◌*◌, ◌/◌, ◌%◌, ◌^◌, bit_and, Option, none, some, Bool, ◌&&◌, not, ltb,
  leb, ◌==◌, if◌then◌else◌, update,
}
use lock_free_deque.StealResult.{StealState, StealResult, of_state, of_value}

-- `mutex_deque::WorkStealingDeque`, with `buffer_.size()` as `capacity`.
pub record MutexDeque (A : Type 0) : Type 0 where
  pub buffer : ℕ → A
  pub capacity : ℕ
  pub min_capacity : ℕ
  pub top : ℕ
  pub size : ℕ

-- `capacity(log_size)`, or nothing where it throws. `std::size_t` has 64 digits.
abbrev pub initial_capacity : ℕ → Option ℕ
initial_capacity log_size = if leb 64 log_size then none else some (2 ^ log_size)

-- `zero_value` is a default `T`, and `max_size` is what `buffer_.max_size()` gives.
module _ {A : Type 0} (zero_value : A) (max_size : ℕ) where
  -- The constructor, or nothing where it throws; a vector does not get longer than `max_size`.
  abbrev pub new_mutex_deque : ℕ → Option (MutexDeque A)
  new_mutex_deque log_initial_size = elim (initial_capacity log_initial_size) [
    | none ↦ none
    | some n ↦
        if ltb max_size n
        then none
        else some
            (record { buffer = λ i. zero_value; capacity = n; min_capacity = n; top = 0; size = 0 })
  ]

-- The loop of `pop_bottom`. Each round halves `target`, so `target` itself is fuel enough.
unfoldable pub shrink_target : ℕ → ℕ → ℕ → ℕ → ℕ
shrink_target zero min_capacity size target = target
shrink_target (suc fuel) min_capacity size target =
    let rest = shrink_target fuel min_capacity size (target / 2) in
    if ltb min_capacity target && ltb size (target / 4) then rest else target

module _ {A : Type 0} where
  -- `(top_ + offset) & (buffer_.size() - 1)`
  abbrev pub index : MutexDeque A → ℕ → ℕ
  index d offset = bit_and ((d.top + offset) % 2 ^ 64) (d.capacity - 1)

  -- The loop of `resize`, after `n` rounds.
  abbrev pub copied_slots : A → MutexDeque A → ℕ → ℕ → A
  copied_slots zero_value d zero = λ i. zero_value
  copied_slots zero_value d (suc n) = update (copied_slots zero_value d n) n (d.buffer (index d n))

  unfoldable pub resize : A → MutexDeque A → ℕ → MutexDeque A
  resize zero_value d new_capacity = record d {
    buffer = copied_slots zero_value d d.size;
    capacity = new_capacity;
    top = 0;
  }

  -- The first test of `push_bottom`, or nothing where it throws.
  unfoldable pub grown : A → ℕ → MutexDeque A → Option (MutexDeque A)
  grown zero_value max_size d =
      if d.size == d.capacity - 1
      then if ltb (max_size / 2) d.capacity
        then none
        else some (resize zero_value d (d.capacity * 2))
      else some d

  -- The rest of `push_bottom`.
  unfoldable pub placed_bottom : MutexDeque A → A → MutexDeque A
  placed_bottom d value = record d {
    buffer = update d.buffer (index d d.size) value;
    size = d.size + 1;
  }

  unfoldable pub push_bottom : A → ℕ → MutexDeque A → A → Option (MutexDeque A)
  unfolding grown
  push_bottom zero_value max_size d value = elim (grown zero_value max_size d) [
    | none ↦ none
    | some d' ↦ some (placed_bottom d' value)
  ]

  -- What `pop_bottom` does after it has taken its value.
  unfoldable pub shrunk : A → MutexDeque A → MutexDeque A
  unfolding shrink_target
  shrunk zero_value d =
      let target = shrink_target d.capacity d.min_capacity d.size d.capacity in
      if not (target == d.capacity) then resize zero_value d target else d

  unfoldable pub pop_bottom : A → MutexDeque A → Option A × MutexDeque A
  unfolding shrunk
  pop_bottom zero_value d = if d.size == 0 then (none, d) else (
    some (d.buffer (index d (d.size - 1))),
    shrunk zero_value (record d { size = d.size - 1 }),
  )

  unfoldable pub steal : MutexDeque A → StealResult A × MutexDeque A
  steal d =
      if d.size == 0
      then (of_state StealState.empty, d)
      else (of_value (d.buffer d.top), record d { top = index d 1; size = d.size - 1 })
