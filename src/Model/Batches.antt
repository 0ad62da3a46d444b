-- ===== src/Model/Batches.antt =====
-- A batch of retries of model/deque_model.c by the results of its attempts.
use lock_free_deque.Prelude.{
  ℕ, zero, suc, ◌+◌, ◌%◌, ◌^◌, ◌≤◌, ◌<◌, ◌≡◌, ◌⊎◌, refl, ap, sym, ◌∙◌, subst, inl, inr, Bool, true,
  false, leb, ◌==◌, if◌then◌else◌, List, [], ◌∷◌, ◌++◌, length, arith,
}
use lock_free_deque.Prelude.Int.{ℤ}
use lock_free_deque.Model.Program.{
  DequeName, Program, returns, ◌>>=◌, ◌>>◌, assert, Always, Always-map,
}
use lock_free_deque.Model.Deque.{abort, steal}
use lock_free_deque.Model.Retry.{
  retry_attempts, initial_window, max_window, RetryState, is_abort, next_window, assert_window,
  retry, steal_with_retry,
}
use lock_free_deque.Model.Sound.{Anything}
use lock_free_deque.Model.Attempts.{Window, widened, Batch, steal_with_retry-Counts}
use lock_free_deque.Model.Paths.{Event, PathOf, outcome, events, split}

-- The accesses are those of steals, one after another, with these results.
abbrev pub Steals : DequeName → List ℤ → List Event → Type 0
Steals deque [] made = made ≡ []
Steals deque (result ∷ results) made =
    (way : PathOf (steal deque)) × (rest : List Event) × (outcome (steal deque) way ≡ result)
    × (made ≡ events (steal deque) way ++ rest)
    × Steals deque results rest

abbrev pub AllAbort : List ℤ → Type 0
AllAbort [] = Unit
AllAbort (result ∷ results) = (is_abort result ≡ true) × AllAbort results

-- What a batch of `n` attempts at most gives after these results: ABORT and a wider window where they
-- are `n` and all are ABORT, and otherwise the last one, the first that is not, and the window 0.
abbrev pub Attempted : ℕ → RetryState → List ℤ → ℤ × RetryState → Type 0
Attempted n state results (result, state') =
    (state'.raw_attempts ≡ state.raw_attempts + length results)
    × ((AllAbort results
          × (length results ≡ n)
          × (result ≡ abort)
          × (state'.window ≡ widened n state.window))
        ⊎ ((aborted : List ℤ) × (results ≡ aborted ++ (result ∷ []))
            × AllAbort aborted
            × (is_abort result ≡ false)
            × (length results ≤ n)
            × (state'.window ≡ 0)))

-- The state after an attempt that aborts.
abbrev widen : RetryState → RetryState
widen state = record {
  window = next_window state.window;
  raw_attempts = (state.raw_attempts + 1) % 2 ^ 32;
}

Attempted-more :
    (n : ℕ) (state : RetryState) (first : ℤ) (results : List ℤ) (out : ℤ × RetryState)
    → state.raw_attempts + suc n < 2 ^ 32
    → is_abort first ≡ true
    → Attempted n (widen state) results out
    → Attempted (suc n) state (first ∷ results) out
Attempted-more n state first results out lt e (raw, inl (all, count, same, wide)) =
    (omega arith, inl ((e, all), omega (arith, count), same, wide))
Attempted-more n state first results out lt e
      (raw, inr (aborted, shape, all, other, most, zero_window)) =
    (
      omega arith,
      inr (
        first ∷ aborted,
        ap (λ (rs : List ℤ). first ∷ rs) shape,
        (e, all),
        other,
        omega (arith, most),
        zero_window,
      ),
    )

-- An assertion makes no access.
assert-quiet :
    (b x y : Bool) (way : PathOf (if b then returns tt else assert x >> assert y))
    → events (if b then returns tt else assert x >> assert y) way ≡ []
assert-quiet true x y way = refl
assert-quiet false true true way = refl
assert-quiet false true false way = absurd way
assert-quiet false false y way = absurd way

module _ (deque : DequeName) where
  -- A way through a program is a batch.
  BatchBy : ℕ → RetryState → List Event → ℤ × RetryState → Type 0
  BatchBy n state made out =
      (results : List ℤ) × Steals deque results made × Attempted n state results out

  retry-BatchBy :
      (n : ℕ) (state : RetryState)
      → state.raw_attempts + n < 2 ^ 32
      → (way : PathOf (retry deque n state))
      → BatchBy n state (events (retry deque n state) way) (outcome (retry deque n state) way)
  unfolding BatchBy
  retry-BatchBy zero state lt way = ([], refl, (omega arith, inl (tt, refl, refl, refl)))
  retry-BatchBy (suc n) state lt way =
      let (checked, later, same, made) = split (λ u. attempt) (assert_window state.window) way in
      let (taken, last, same', made') = split rest (steal deque) later in
      let quiet : events (assert_window state.window) checked ≡ [] =
        assert-quiet (state.window == 0) (leb initial_window state.window)
          (leb state.window max_window) checked in
      let all : events (retry deque (suc n) state) way
          ≡ events (steal deque) taken ++ events (rest (outcome (steal deque) taken)) last =
        made ∙ ap (λ (es : List Event). es ++ events attempt later) quiet ∙ made' in
      subst (BatchBy (suc n) state (events (retry deque (suc n) state) way)) (sym (same ∙ same')) (
        ends taken (is_abort (outcome (steal deque) taken)) refl
          (λ way'. retry-BatchBy n (widen state) (omega arith) way') last _ all)
    where
      out : ℤ → ℤ × RetryState
      out result = (result, record { window = 0; raw_attempts = (state.raw_attempts + 1) % 2 ^ 32 })

      tail : Bool → ℤ → Program (ℤ × RetryState)
      tail aborts result = if aborts then retry deque n (widen state) else returns (out result)

      rest : ℤ → Program (ℤ × RetryState)
      rest result = tail (is_abort result) result

      attempt : Program (ℤ × RetryState)
      attempt = steal deque >>= rest

      ends :
          (taken : PathOf (steal deque)) (aborts : Bool)
          → is_abort (outcome (steal deque) taken) ≡ aborts
          → ((way' : PathOf (retry deque n (widen state)))
              → BatchBy n
                  (widen state)
                  (events (retry deque n (widen state)) way')
                  (outcome (retry deque n (widen state)) way'))
          → (last : PathOf (tail aborts (outcome (steal deque) taken))) (made : List Event)
          → made
            ≡ events (steal deque) taken ++ events (tail aborts (outcome (steal deque) taken)) last
          → BatchBy (suc n) state made (outcome (tail aborts (outcome (steal deque) taken)) last)
      ends taken true e more last made all =
          let (results, steals, attempted) = more last in
          (
            outcome (steal deque) taken ∷ results,
            (taken, events (retry deque n (widen state)) last, refl, all, steals),
            Attempted-more n state (outcome (steal deque) taken) results
                (outcome (retry deque n (widen state)) last) lt e attempted,
          )
      ends taken false e more last made all = (
        outcome (steal deque) taken ∷ [],
        (taken, [], refl, all, refl),
        (omega arith, inr ([], refl, tt, e, omega arith, refl)),
      )

  -- What a batch does: no assertion fails, whatever its accesses give, and its accesses are those of
  -- its attempts, with results that account for what it returns.
  abbrev pub BatchOf : RetryState → Type 0
  BatchOf state =
      Always Anything (steal_with_retry deque state)
      × ((way : PathOf (steal_with_retry deque state))
          → (results : List ℤ) × Steals deque results (events (steal_with_retry deque state) way)
            × Attempted retry_attempts state results (outcome (steal_with_retry deque state) way))

-- One batch of a thief, whatever the other threads do, with a window that the code allows and with
-- attempts that do not overflow: its assertions hold, and whatever its accesses give, they are those
-- of calls of `steal` one after another, MODEL_RETRY_ATTEMPTS at most, each counted. It returns ABORT
-- with a wider window if all those calls returned ABORT and none was left; otherwise all but the last
-- returned ABORT, and it returns what the last one did, with the window 0.
pub steal_with_retry-Batch :
    (deque : DequeName) (state : RetryState)
    → Window state.window
    → state.raw_attempts + retry_attempts < 2 ^ 32
    → BatchOf deque state
unfolding BatchBy
steal_with_retry-Batch deque state okay lt = (
  Always-map (Batch retry_attempts state) Anything (steal_with_retry deque state) (λ out b. tt)
      (steal_with_retry-Counts deque state okay lt),
  λ way. retry-BatchBy deque retry_attempts state lt way,
)
