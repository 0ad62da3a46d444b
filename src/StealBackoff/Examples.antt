-- ===== src/StealBackoff/Examples.antt =====
-- Retries against a deque that aborts once, as in src/steal_backoff.h.
use lock_free_deque.Prelude.{ℕ, zero, suc, ◌≡◌, refl, inl, [], none, arith}
use lock_free_deque.StealResult.{StealState, StealResult, of_state, of_value}
use lock_free_deque.StealBackoff.{
  StealBackoffConfig, StealBackoff, new_backoff, default_config, reset, begin_search, select_victim,
  record_abort, next_random, Worker, steal_with_retry, retry, pause_before, backoff_random,
}
use lock_free_deque.StealBackoff.Bounds.{WellFormed, operations-WellFormed}
use lock_free_deque.StealBackoff.Accepts.{Verdict, new_backoff-Verdict}
use lock_free_deque.StealBackoff.Retry.{Retried, steal_with_retry-Retried}
use lock_free_deque.StealBackoff.Pauses.{Sound, Adds, steal_with_retry-Sound}

-- The deque is the number of steals that still abort.
abbrev steal_once : ℕ → StealResult ℕ × ℕ
steal_once zero = (of_value 7, zero)
steal_once (suc n) = (of_state StealState.abort, n)

abbrev seeded_backoff : StealBackoff
seeded_backoff = record { config = default_config; random_state = 1; window = 0; victim = none }

seeded_backoff-WellFormed : WellFormed seeded_backoff
seeded_backoff-WellFormed = record {
  valid = refl;
  seeded = (omega arith, omega arith);
  open_window = inl refl;
}

abbrev worker : Worker ℕ Unit
worker = record { victim = 1; backoff = seeded_backoff; source = tt; pauses = []; observed = [] }

worker-Sound : Sound default_config worker
worker-Sound = record { well_formed = seeded_backoff-WellFormed; same_config = refl; within = tt }

-- The first random numbers after the seed 1.
first_number : (next_random seeded_backoff).0 ≡ 270369
first_number = refl

-- The second attempt succeeds, after a pause.
retried : (steal_with_retry steal_once backoff_random 0 worker).0 ≡ of_value 7
unfolding steal_with_retry retry pause_before
retried = refl

-- Windows that are not powers of two.
abbrev odd_config : StealBackoffConfig
odd_config = record { max_attempts = 4; initial_window = 4; max_window = 255 }

odd_config-refused : new_backoff 1 odd_config ≡ none
odd_config-refused = refl

new_backoff-Verdict_example : Verdict 1 default_config (new_backoff 1 default_config)
new_backoff-Verdict_example = new_backoff-Verdict 1 default_config (omega arith)

operations-WellFormed_example :
    WellFormed (reset seeded_backoff)
    × WellFormed (begin_search seeded_backoff)
    × WellFormed (select_victim seeded_backoff 5)
    × WellFormed (record_abort seeded_backoff)
    × WellFormed (next_random seeded_backoff).1
operations-WellFormed_example = operations-WellFormed seeded_backoff 5 seeded_backoff-WellFormed

steal_with_retry-Retried_example : Retried steal_once 4 1 (
  (steal_with_retry steal_once backoff_random 0 worker).0,
  (steal_with_retry steal_once backoff_random 0 worker).1.victim,
)
steal_with_retry-Retried_example = steal_with_retry-Retried steal_once backoff_random 0 worker

steal_with_retry-Sound_example :
    Sound default_config (steal_with_retry steal_once backoff_random 0 worker).1
    × Adds 4 worker (steal_with_retry steal_once backoff_random 0 worker).1
steal_with_retry-Sound_example = steal_with_retry-Sound steal_once 0 worker worker-Sound
