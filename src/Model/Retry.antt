-- ===== src/Model/Retry.antt =====
-- The retries of a thief in model/deque_model.c, and its thread. An `unsigned` has 32 bits.
use lock_free_deque.Prelude.{
  ℕ, zero, suc, ◌+◌, ◌*◌, ◌%◌, ◌^◌, Bool, false, ltb, leb, ◌==◌, if◌then◌else◌,
}
use lock_free_deque.Prelude.Int.{ℤ, pos, negsuc}
use lock_free_deque.Model.Program.{DequeName, original, Program, returns, ◌>>=◌, ◌>>◌, assert}
use lock_free_deque.Model.Deque.{abort, steal}

-- `MODEL_RETRY_ATTEMPTS`, `MODEL_INITIAL_WINDOW` and `MODEL_MAX_WINDOW`
abbrev pub retry_attempts : ℕ
retry_attempts = 2

abbrev pub initial_window : ℕ
initial_window = 4

abbrev pub max_window : ℕ
max_window = 16

pub record RetryState : Type 0 where
  pub window : ℕ
  pub raw_attempts : ℕ

-- `result == ABORT`
abbrev pub is_abort : ℤ → Bool
is_abort (pos n) = false
is_abort (negsuc n) = n == 1

abbrev pub next_window : ℕ → ℕ
next_window window =
    if window == 0
    then initial_window
    else if ltb (window * 2 % 2 ^ 32) max_window
    then window * 2 % 2 ^ 32
    else max_window

abbrev pub assert_window : ℕ → Program (Unit {0})
assert_window window =
    if window == 0
    then returns tt
    else assert (leb initial_window window) >> assert (leb window max_window)

-- The loop of `steal_with_retry`, with `n` attempts to go: the result, and `*state`.
abbrev pub retry : DequeName → ℕ → RetryState → Program (ℤ × RetryState)
retry deque zero state = returns (abort, state)
retry deque (suc n) state = do
  assert_window state.window
  result ← steal deque
  let raw_attempts = (state.raw_attempts + 1) % 2 ^ 32
  if is_abort result
      then retry deque n (record { window = next_window state.window; raw_attempts = raw_attempts })
      else returns (result, record { window = 0; raw_attempts = raw_attempts })

abbrev pub steal_with_retry : DequeName → RetryState → Program (ℤ × RetryState)
steal_with_retry deque state = retry deque retry_attempts state

-- What a thief leaves in `thief_results` and the arrays next to it.
pub record ThiefResult : Type 0 where
  pub result : ℤ
  pub attempts : ℕ
  pub window : ℕ
  pub batches : ℕ

abbrev pub thief_result : ℤ → RetryState → ℕ → ThiefResult
thief_result result state batches = record {
  result = result;
  attempts = state.raw_attempts;
  window = state.window;
  batches = batches;
}

-- The parts of `thief_main` after its first batch.
abbrev pub retry_later : RetryState → Program ThiefResult
retry_later state = do
  assert (state.window == 2 * initial_window)
  (result, state') ← steal_with_retry original state
  returns (thief_result result state' 2)

abbrev pub second_batch : ℤ × RetryState → Program ThiefResult
second_batch (result, state) =
    if is_abort result then retry_later state else returns (thief_result result state 1)

abbrev pub thief_main : Program ThiefResult
thief_main = do
  batch ← steal_with_retry original (record { window = 0; raw_attempts = 0 })
  second_batch batch
