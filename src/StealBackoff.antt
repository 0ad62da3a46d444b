-- ===== src/StealBackoff.antt =====
-- src/steal_backoff.h: the backoff of one worker, over 32-bit numbers, and the loop that retries a
-- steal. Addresses of deques are numbers, and the null pointer is `none`.
pub mod Bounds
pub mod Retry
pub mod Pauses
pub mod Accepts
mod Examples
use Prim.Native.Nat.{min}
use lock_free_deque.Prelude.{
  ℕ, zero, suc, ◌+◌, ◌-◌, ◌*◌, ◌/◌, ◌%◌, ◌^◌, bit_and, bit_xor, List, [], ◌∷◌, Option, none, some,
  Bool, true, false, ◌&&◌, ◌||◌, not, ltb, leb, ◌==◌, if◌then◌else◌,
}
use lock_free_deque.StealResult.{StealState, StealResult, of_state}

-- `struct StealBackoffConfig`
pub record StealBackoffConfig : Type 0 where
  pub max_attempts : ℕ
  pub initial_window : ℕ
  pub max_window : ℕ

-- The largest `std::uint16_t`, plus one.
abbrev pub max_supported_window : ℕ
max_supported_window = 65535 + 1

-- The default configuration.
abbrev pub default_config : StealBackoffConfig
default_config = record { max_attempts = 4; initial_window = 4; max_window = 256 }

-- `class StealBackoff`
pub record StealBackoff : Type 0 where
  pub config : StealBackoffConfig
  pub random_state : ℕ
  pub window : ℕ
  pub victim : Option ℕ

-- Where `n` is 0, the second test is not made.
abbrev pub is_power_of_two : ℕ → Bool
is_power_of_two n = ltb 0 n && (bit_and n (n - 1) == 0)

abbrev pub validate_steal_config : StealBackoffConfig → Bool
validate_steal_config config =
    ltb 0 config.max_attempts
    && leb config.max_attempts 64
    && is_power_of_two config.initial_window
    && leb config.initial_window config.max_window
    && is_power_of_two config.max_window
    && leb config.max_window max_supported_window

-- The constructor, or nothing where it throws.
abbrev pub new_backoff : ℕ → StealBackoffConfig → Option StealBackoff
new_backoff seed config =
    if seed == 0 || not (validate_steal_config config)
    then none
    else some (record { config = config; random_state = seed; window = 0; victim = none })

abbrev pub reset : StealBackoff → StealBackoff
reset backoff = record backoff { window = 0 }

abbrev pub begin_search : StealBackoff → StealBackoff
begin_search backoff = record (reset backoff) { victim = none }

abbrev pub same_victim : Option ℕ → ℕ → Bool
same_victim none victim = false
same_victim (some v) victim = v == victim

-- `select_victim` with the address of a deque.
abbrev pub select_victim : StealBackoff → ℕ → StealBackoff
select_victim backoff victim =
    if same_victim backoff.victim victim
    then backoff
    else record (reset backoff) { victim = some victim }

abbrev pub record_abort : StealBackoff → StealBackoff
record_abort backoff =
    if backoff.window == 0
    then record backoff { window = backoff.config.initial_window }
    else record backoff { window = min (backoff.window * 2 % 2 ^ 32) backoff.config.max_window }

-- The three assignments of `next_random`.
abbrev pub xor_left : ℕ → ℕ → ℕ
xor_left x k = bit_xor x (x * 2 ^ k % 2 ^ 32)

abbrev pub xor_right : ℕ → ℕ → ℕ
xor_right x k = bit_xor x (x / 2 ^ k)

abbrev pub xorshift : ℕ → ℕ
xorshift x = xor_left (xor_right (xor_left x 13) 17) 5

-- `next_random`: the number, and the backoff after it.
abbrev pub next_random : StealBackoff → ℕ × StealBackoff
next_random backoff =
    let x = xorshift backoff.random_state in (x, record backoff { random_state = x })

-- What the loop of `steal_with_retry` works on: the deque, the backoff, the state of `random`, and
-- what `pause` and `observe` were called with, the latest first.
pub record Worker (V R : Type 0) : Type 0 where
  pub victim : V
  pub backoff : StealBackoff
  pub source : R
  pub pauses : List ℕ
  pub observed : List StealState

abbrev pub is_abort : StealState → Bool
is_abort StealState.abort = true
is_abort StealState.success = false
is_abort StealState.empty = false

module _ {V R : Type 0} (random : R → StealBackoff → ℕ × (R × StealBackoff)) where
  -- The pause before an attempt.
  unfoldable pub pause_before : Worker V R → Worker V R
  pause_before w =
      if not (w.backoff.window == 0)
      then (let (x, drawn) = random w.source w.backoff in
          record w {
            source = drawn.0;
            backoff = drawn.1;
            pauses = (1 + bit_and x (drawn.1.window - 1)) ∷ w.pauses;
          })
      else w

module _ {A V R : Type 0} where
  -- `victim.steal()`, and the call of `observe`.
  abbrev pub attempted : Worker V R → StealResult A × V → Worker V R
  attempted w (result, victim) = record w { victim = victim; observed = result.state ∷ w.observed }

module _ {A V R : Type 0} (steal : V → StealResult A × V)
    (random : R → StealBackoff → ℕ × (R × StealBackoff)) where
  -- The loop, with `left` rounds to go.
  unfoldable pub retry : ℕ → Worker V R → StealResult A × Worker V R
  unfolding pause_before
  retry zero w = (of_state StealState.abort, w)
  retry (suc left) w =
      let p = pause_before random w in
      let outcome = steal p.victim in
      let w' = attempted p outcome in
      let rest = retry left (record w' { backoff = record_abort w'.backoff }) in
      if is_abort outcome.0.state
      then rest
      else (outcome.0, record w' { backoff = reset w'.backoff })

  -- `steal_with_retry(victim, backoff, pause, random, observe)`, with the address of the deque.
  unfoldable pub steal_with_retry : ℕ → Worker V R → StealResult A × Worker V R
  unfolding retry
  steal_with_retry address w =
      let w' = record w { backoff = select_victim w.backoff address } in
      retry w'.backoff.config.max_attempts w'

-- The overload that takes its random numbers from the backoff itself.
abbrev pub backoff_random : Unit {0} → StealBackoff → ℕ × (Unit {0} × StealBackoff)
backoff_random source backoff = let (x, backoff') = next_random backoff in (x, (source, backoff'))
