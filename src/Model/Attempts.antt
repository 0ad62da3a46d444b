-- ===== src/Model/Attempts.antt =====
-- The retries of model/deque_model.c, whatever the accesses to memory give: their assertions, and
-- what `main` asserts of a thief's results.
use lock_free_deque.Prelude.{
  ℕ, zero, suc, ◌+◌, ◌*◌, ◌%◌, ◌^◌, ◌≤◌, ◌<◌, ◌≡◌, ◌⊎◌, refl, ap, sym, ◌∙◌, subst, inl, inr, Bool,
  true, false, leb, ◌==◌, ==_iff, if◌then◌else◌, either_way, arith,
}
use lock_free_deque.Prelude.Int.{ℤ}
use lock_free_deque.Model.Program.{
  DequeName, original, returns, assert, Always, Always-bind, Always-map,
}
use lock_free_deque.Model.Deque.{steal}
use lock_free_deque.Model.Retry.{
  retry_attempts, initial_window, max_window, RetryState, is_abort, next_window, assert_window,
  retry, steal_with_retry, ThiefResult, thief_result, retry_later, second_batch, thief_main,
}
use lock_free_deque.Model.Sound.{Anything, steal-Always}

-- The windows that the loop asserts.
abbrev pub Window : ℕ → Type 0
Window w = (w ≡ 0) ⊎ ((initial_window ≤ w) × (w ≤ max_window))

next_window-Window : (w : ℕ) → Window w → Window (next_window w)
next_window-Window w (inl e) = ground arith
next_window-Window w (inr (p, q)) = ground arith

assert-Always : (b : Bool) → b ≡ true → Always Anything (assert b)
assert-Always true e = tt
assert-Always false e = absurd (cc)

assert_window-Always : (w : ℕ) → Window w → Always Anything (assert_window w)
assert_window-Always w (inl e) = subst (λ (n : ℕ). Always Anything (assert_window n)) (sym e) tt
assert_window-Always w (inr (p, q)) = either_way (Always Anything) _ _ (w == 0) tt (
    Always-bind Anything Anything (assert (leb initial_window w)) (λ u. assert (leb w max_window))
      (assert-Always (leb initial_window w) (ground arith))
      (λ u v. assert-Always (leb w max_window) (ground arith)))

-- The window after `n` aborts in a row.
abbrev pub widened : ℕ → ℕ → ℕ
widened zero w = w
widened (suc n) w = widened n (next_window w)

-- What `n` attempts do to the state: an abort is reported, all of them are counted and the window is
-- wider, or it is not, and the window is reset.
abbrev pub Batch : ℕ → RetryState → ℤ × RetryState → Type 0
Batch n state (result, state') =
    ((is_abort result ≡ true)
      × (state'.window ≡ widened n state.window)
      × (state'.raw_attempts ≡ state.raw_attempts + n))
    ⊎ ((is_abort result ≡ false)
        × (state'.window ≡ 0)
        × (state.raw_attempts + 1 ≤ state'.raw_attempts)
        × (state'.raw_attempts ≤ state.raw_attempts + n))

-- An attempt that aborts, before `n` more.
Batch-more :
    (n : ℕ) (state : RetryState) (out : ℤ × RetryState)
    → state.raw_attempts + suc n < 2 ^ 32
    → Batch n
        (record {
          window = next_window state.window;
          raw_attempts = (state.raw_attempts + 1) % 2 ^ 32;
        })
        out
    → Batch (suc n) state out
Batch-more n state out lt (inl (same, wide, raw)) = inl (same, wide, ground arith)
Batch-more n state out lt (inr (other, zero_window, more, fewer)) =
    inr (other, zero_window, ground arith, ground arith)

retry-Batch :
    (deque : DequeName) (n : ℕ) (state : RetryState)
    → Window state.window
    → state.raw_attempts + n < 2 ^ 32
    → Always (Batch n state) (retry deque n state)
retry-Batch deque zero state okay lt = inl (refl, refl, omega arith)
retry-Batch deque (suc n) state okay lt =
    Always-bind Anything (Batch (suc n) state) (assert_window state.window) _
      (assert_window-Always state.window okay)
      (λ asserted u.
        Always-bind Anything (Batch (suc n) state) (steal deque) _ (steal-Always deque) (λ result v.
          attempted result (is_abort result) refl
            (retry-Batch deque n after (next_window-Window state.window okay) (ground arith))))
  where
    after : RetryState
    after = record {
      window = next_window state.window;
      raw_attempts = (state.raw_attempts + 1) % 2 ^ 32;
    }

    attempted :
        (result : ℤ) (aborts : Bool)
        → is_abort result ≡ aborts
        → Always (Batch n after) (retry deque n after)
        → Always (Batch (suc n) state) (
            if aborts
            then retry deque n after
            else returns
                (result, record { window = 0; raw_attempts = (state.raw_attempts + 1) % 2 ^ 32 }))
    attempted result true e all =
        Always-map (Batch n after) (Batch (suc n) state) (retry deque n after)
          (λ out. Batch-more n state out lt) all
    attempted result false e all = inr (e, refl, ground arith, ground arith)

-- One batch of a thief, whatever the other threads do, with a window that the code allows and with
-- attempts that do not overflow: its assertions hold, it counts at least one attempt and at most
-- MODEL_RETRY_ATTEMPTS, and it returns ABORT with a wider window or another result with the window 0.
pub steal_with_retry-Counts :
    (deque : DequeName) (state : RetryState)
    → Window state.window
    → state.raw_attempts + retry_attempts < 2 ^ 32
    → Always (Batch retry_attempts state) (steal_with_retry deque state)
steal_with_retry-Counts deque state = retry-Batch deque retry_attempts state

-- What `main` asserts of the results of a thief.
abbrev pub ThiefOk : ThiefResult → Type 0
ThiefOk r =
    (1 ≤ r.batches)
    × (r.batches ≤ 2)
    × (r.batches ≤ r.attempts)
    × (r.attempts ≤ r.batches * retry_attempts)
    × (r.window ≡ (if is_abort r.result then max_window else 0))

last_window :
    (w : ℕ) (aborts : Bool)
    → w ≡ (if aborts then max_window else 0)
    → (b : Bool) → b ≡ aborts
    → w ≡ (if b then max_window else 0)
last_window w aborts e b same = e ∙ ap (λ (c : Bool). if c then max_window else 0) (sym same)

two_batches-ThiefOk :
    (state : RetryState)
    → state.window ≡ 2 * initial_window
    → 2 ≤ state.raw_attempts
    → state.raw_attempts ≤ 2
    → (out : ℤ × RetryState) → Batch retry_attempts state out
    → ThiefOk (thief_result out.0 out.1 2)
two_batches-ThiefOk state w le ge (result, out) (inl (same, wide, raw)) = (
  omega arith,
  omega arith,
  omega arith,
  omega arith,
  last_window out.window true (wide ∙ ap (widened retry_attempts) w) (is_abort result) same,
)
two_batches-ThiefOk state w le ge (result, out) (inr (other, zero_window, more, fewer)) = (
  omega arith,
  omega arith,
  omega arith,
  omega arith,
  last_window out.window false zero_window (is_abort result) other,
)

retry_later-ThiefOk :
    (state : RetryState)
    → state.window ≡ 2 * initial_window
    → state.raw_attempts ≡ 2
    → Always ThiefOk (retry_later state)
retry_later-ThiefOk state w raw =
    Always-bind Anything ThiefOk (assert (state.window == 2 * initial_window)) _
      (assert-Always (state.window == 2 * initial_window) ((==_iff state.window 8).1 w))
      (λ u v.
        Always-bind (Batch retry_attempts state) ThiefOk (steal_with_retry original state) _
          (steal_with_retry-Counts original state (inr (omega arith, omega arith)) (omega arith))
          (two_batches-ThiefOk state w (omega arith) (omega arith)))

second_batch-ThiefOk :
    (batch : ℤ × RetryState)
    → Batch retry_attempts (record { window = 0; raw_attempts = 0 }) batch
    → Always ThiefOk (second_batch batch)
second_batch-ThiefOk (result, state) (inl (same, wide, raw)) =
    subst
      (λ (b : Bool).
        Always ThiefOk (if b then retry_later state else returns (thief_result result state 1)))
      (sym same) (retry_later-ThiefOk state wide raw)
second_batch-ThiefOk (result, state) (inr (other, zero_window, more, fewer)) =
    subst
      (λ (b : Bool).
        Always ThiefOk (if b then retry_later state else returns (thief_result result state 1)))
      (sym other)
      (
        omega arith,
        omega arith,
        omega arith,
        omega arith,
        last_window state.window false zero_window (is_abort result) other,
      )

-- Whatever the accesses of a thief give, and so whatever the other threads do: every assertion of
-- the thread holds, and so do those of `main` on its batches, attempts and window: one batch or two, of one or two
-- attempts each, and a window that is the largest after an ABORT and 0 otherwise.
pub thief_main-ThiefOk : Always ThiefOk thief_main
thief_main-ThiefOk =
    Always-bind (Batch retry_attempts start) ThiefOk (steal_with_retry original start) second_batch
      (steal_with_retry-Counts original start (inl refl) (omega arith)) second_batch-ThiefOk
  where
    start : RetryState
    start = record { window = 0; raw_attempts = 0 }
