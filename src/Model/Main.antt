-- ===== src/Model/Main.antt =====
-- `main` of model/deque_model.c: before the threads start, the threads in any order of their accesses,
-- and the assertions after they have ended.
use lock_free_deque.Prelude.{
  ℕ, zero, suc, ◌+◌, ◌*◌, List, [], ◌∷◌, none, some, Bool, true, false, not, ◌&&◌, ◌||◌, ltb, leb,
  ◌==◌, if◌then◌else◌, update,
}
use lock_free_deque.Prelude.Int.{ℤ, pos, negsuc}
use lock_free_deque.Model.Program.{
  Array, small, large, DequeName, original, borrower, load_active, load_owned, Program, returns,
  ◌>>=◌, ◌>>◌, perform, assert, Memory, step,
}
use lock_free_deque.Model.Deque.{uninitialized, int64_max, same_array, push_bottom}
use lock_free_deque.Model.Shrink.{is_zero, pop_bottom, release_chain, owner_main, borrower_main}
use lock_free_deque.Model.Retry.{retry_attempts, max_window, is_abort, ThiefResult, thief_main}

abbrev pub initial_owned : Array → Bool
initial_owned small = true
initial_owned large = false

-- Memory after the `atomic_init`s: the original deque stands on the small array.
abbrev pub initial_memory : Memory
initial_memory = record {
  active = λ deque. small;
  bottom = λ deque. pos 0;
  top = λ deque. 0;
  cached_top = λ deque. 0;
  slots = λ array i. uninitialized;
  mark = λ array. int64_max;
  prev = λ array. none;
  owned = initial_owned;
}

abbrev push_one : ℤ → Program (Unit {0})
push_one value = push_bottom original value >>= λ pushed. assert (is_zero pushed)

-- The four values, and the assertion that they are in the large array.
abbrev pub prefill : Program (Unit {0})
prefill = do
  push_one (pos 0)
  push_one (pos 1)
  push_one (pos 2)
  push_one (pos 3)
  active ← perform (load_active original)
  assert (same_array active large)

-- The threads, and the memory that they share.
pub data Thread : Type 0 where
  owner first second borrowing_owner : Thread

pub record Threads : Type 0 where
  pub owner : Program (ℤ × ℤ × ℤ)
  pub first : Program ThiefResult
  pub second : Program ThiefResult
  pub borrowing_owner : Program Bool
  pub memory : Memory

-- Where the calls of `pthread_create` leave the threads.
abbrev pub created : Memory → Threads
created m = record {
  owner = owner_main;
  first = thief_main;
  second = thief_main;
  borrowing_owner = borrower_main;
  memory = m;
}

-- One access of a thread.
abbrev pub thread_step : Thread → Threads → Threads
thread_step Thread.owner s =
    let (m, program) = step s.memory s.owner in record s { owner = program; memory = m }
thread_step Thread.first s =
    let (m, program) = step s.memory s.first in record s { first = program; memory = m }
thread_step Thread.second s =
    let (m, program) = step s.memory s.second in record s { second = program; memory = m }
thread_step Thread.borrowing_owner s =
    let (m, program) = step s.memory s.borrowing_owner in
    record s { borrowing_owner = program; memory = m }

-- The accesses of the threads in any order.
abbrev pub schedule : List Thread → Threads → Threads
schedule [] s = s
schedule (t ∷ ts) s = schedule ts (thread_step t s)

-- `++seen[value]`, where an index below 4 was asserted.
abbrev pub see : ℕ → (ℕ → ℕ) → Program (ℕ → ℕ)
see value seen = assert (ltb value 4) >> returns (update seen value (seen value + 1))

abbrev pub is_empty : ℤ → Bool
is_empty (pos n) = false
is_empty (negsuc n) = n == 0

-- A result of a pop.
abbrev pub see_popped : ℤ → (ℕ → ℕ) → Program (ℕ → ℕ)
see_popped (pos value) seen = see value seen
see_popped (negsuc n) seen = assert (is_empty (negsuc n)) >> returns seen

abbrev pub see_value : ℤ → (ℕ → ℕ) → Program (ℕ → ℕ)
see_value (pos value) seen = see value seen
see_value (negsuc n) seen = assert (is_empty (negsuc n) || is_abort (negsuc n)) >> returns seen

-- A result of a thief.
abbrev pub see_stolen : ThiefResult → (ℕ → ℕ) → Program (ℕ → ℕ)
see_stolen r seen = do
  assert (leb 1 r.batches && leb r.batches 2)
  assert (leb r.batches r.attempts)
  assert (leb r.attempts (r.batches * retry_attempts))
  assert (r.window == (if is_abort r.result then max_window else 0))
  see_value r.result seen

abbrev pub drain : ℕ → (ℕ → ℕ) → Program (ℕ → ℕ)
drain zero seen = returns seen
drain (suc n) seen = do value ← pop_bottom original; seen' ← see_popped value seen; drain n seen'

abbrev pub is_hundred : ℤ → Bool
is_hundred (pos n) = n == 100
is_hundred (negsuc n) = false

abbrev pub release_active : DequeName → Program (Unit {0})
release_active deque = perform (load_active deque) >>= λ active. release_chain 3 (some active)

-- What `main` does with the borrower's deque.
abbrev pub check_borrower : Bool → Program (Unit {0})
check_borrower true = pop_bottom borrower >>= λ value. assert (is_hundred value)
check_borrower false = returns tt

abbrev pub release_borrower : Bool → Program (Unit {0})
release_borrower true = release_active borrower
release_borrower false = returns tt

-- `main` after the calls of `pthread_join`.
abbrev pub after_join : ℤ × ℤ × ℤ → ThiefResult → ThiefResult → Bool → Program (Unit {0})
after_join (r₀, r₁, r₂) r₃ r₄ acquired = do
  seen₀ ← see_popped r₀ (λ i. 0)
  seen₁ ← see_popped r₁ seen₀
  seen₂ ← see_popped r₂ seen₁
  seen₃ ← see_stolen r₃ seen₂
  seen₄ ← see_stolen r₄ seen₃
  seen ← drain 4 seen₄
  assert (seen 0 == 1 && seen 1 == 1 && seen 2 == 1 && seen 3 == 1)
  check_borrower acquired
  release_active original
  release_borrower acquired
  small_owned ← perform (load_owned small)
  assert (not small_owned)
  large_owned ← perform (load_owned large)
  assert (not large_owned)
