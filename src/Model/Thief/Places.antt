-- ===== src/Model/Thief/Places.antt =====
-- Where a thief of model/deque_model.c and one of src/work_stealing_deque.h stand alike.
use lock_free_deque.Prelude.{ℕ, ◌≡◌, ◌⊎◌, ◌∷◌}
use lock_free_deque.Prelude.Int.{ℤ}
use lock_free_deque.StealResult.{StealState, StealResult, of_state, of_value}
use lock_free_deque.Deque.State.{steal_returned, ThiefPc, Machine}
use lock_free_deque.Deque.State.ThiefPc.{start, got_top, got_array, got_bottom, reading, claiming}
use lock_free_deque.Model.Program.{
  Array, small, large, DequeName, load_active, load_bottom, Program, returns, ◌>>=◌, perform,
  Memory,
}
use lock_free_deque.Model.Deque
use lock_free_deque.Model.Deque.{
  empty, abort, log_size, same_array, capacity, judge, claim, take, steal,
}

-- The record of the machine's pool that stands for an array.
abbrev pub number : Array → ℕ
number small = 0
number large = 1

-- The memory of the model holds what the machine's holds.
pub record Agrees (deque : DequeName) (m : Memory) (s : Machine ℤ) : Type 0 where
  pub active : number (m.active deque) ≡ s.active
  pub bottom : m.bottom deque ≡ s.bottom
  pub top : m.top deque ≡ s.top
  pub sizes : (a : Array) → (s.arrays (number a)).log_size ≡ log_size a
  pub slots : (a : Array) (i : ℕ) → m.slots a i ≡ (s.arrays (number a)).segment i

-- How a result is reported as an `int`.
pub data Reports : StealResult ℤ → ℤ → Type 0 where
  says_empty : Reports (of_state StealState.empty) empty
  says_abort : Reports (of_state StealState.abort) abort
  says_value : (x : ℤ) → Reports (of_value x) x

-- What is left of `steal` where the machine's thief stands.
pub data Place (deque : DequeName) : ThiefPc ℤ → Program ℤ → Type 0 where
  before_top : Place deque start (steal deque)
  before_array :
      (t : ℕ)
      → Place deque (got_top t) (
          perform (load_active deque) >>= λ old_array. perform (load_bottom deque) >>= λ b.
          perform (load_active deque) >>= λ array. judge deque t old_array b array)
  before_bottom :
      (t : ℕ) (old_array : Array)
      → Place deque (got_array t (number old_array)) (
          perform (load_bottom deque) >>= λ b.
          perform (load_active deque) >>= λ array. judge deque t old_array b array)
  before_judge :
      (t : ℕ) (old_array : Array) (b : ℤ)
      → Place deque
          (got_bottom t (number old_array) b)
          (perform (load_active deque) >>= λ array. judge deque t old_array b array)
  before_recheck :
      (t : ℕ) (old_array array : Array)
      → Place deque
          (ThiefPc.recheck t (number old_array) (number array))
          (Deque.recheck deque t old_array array)
  before_slot :
      (t : ℕ) (array : Array) → Place deque (reading t (number array)) (take deque t array)
  before_claim : (t : ℕ) (x : ℤ) → Place deque (claiming t x) (claim deque t x)

module _ (deque : DequeName) (s : Machine ℤ) (i : ℕ) where
  -- The call of thief `i` has returned `result`.
  abbrev pub Ended : Machine ℤ → Program ℤ → Type 0
  Ended s' program =
      (result : StealResult ℤ) × (code : ℤ) × Reports result code
      × (program ≡ returns code)
      × (s'.thieves i ≡ ThiefPc.idle)
      × (s'.trace ≡ steal_returned result ∷ s.trace)

  abbrev pub Follows : Machine ℤ → Memory × Program ℤ → Type 0
  Follows s' (m, program) =
      Agrees deque m s' × (Place deque (s'.thieves i) program ⊎ Ended s' program)
