-- ===== src/StealBackoff/Bounds.antt =====
-- The state of a worker's backoff in src/steal_backoff.h stays within its bounds.
use lock_free_deque.Prelude.{
  ℕ, ◌*◌, ◌/◌, ◌%◌, ◌^◌, ◌≤◌, ◌<◌, ◌≡◌, refl, ◌⊎◌, inl, inr, none, some, Bool, true, false, ◌==◌,
  ◌||◌, not, if◌then◌else◌, ==_iff, subst, arith,
}
use Prim.Native.Nat.{min}
use native.Mathlib.Decide.{dec_lt}
use lock_free_deque.Prelude.Xor.{bit_xor_zero, bit_xor-lt}
use lock_free_deque.StealBackoff.{
  StealBackoffConfig, StealBackoff, max_supported_window, validate_steal_config, new_backoff,
  begin_search, select_victim, same_victim, record_abort, reset, xor_left, xor_right, xorshift,
  next_random,
}

-- A 32-bit number that is not 0.
abbrev pub Seed : ℕ → Type 0
Seed x = (0 < x) × (x < 2 ^ 32)

xor_left_13 : (x : ℕ) → Seed x → Seed (xor_left x 13)
xor_left_13 x (p, q) = (positive, bit_xor-lt 32 x (x * 2 ^ 13 % 2 ^ 32) q (omega arith))
  where
    positive : 0 < xor_left x 13
    positive = elim (dec_lt 0 (xor_left x 13)) [
      | yes h ↦ h
      | no h ↦ absurd (omega (arith, bit_xor_zero x (x * 2 ^ 13 % 2 ^ 32) (omega arith)))
    ]

xor_right_17 : (x : ℕ) → Seed x → Seed (xor_right x 17)
xor_right_17 x (p, q) = (positive, bit_xor-lt 32 x (x / 2 ^ 17) q (omega arith))
  where
    positive : 0 < xor_right x 17
    positive = elim (dec_lt 0 (xor_right x 17)) [
      | yes h ↦ h
      | no h ↦ absurd (omega (arith, bit_xor_zero x (x / 2 ^ 17) (omega arith)))
    ]

xor_left_5 : (x : ℕ) → Seed x → Seed (xor_left x 5)
xor_left_5 x (p, q) = (positive, bit_xor-lt 32 x (x * 2 ^ 5 % 2 ^ 32) q (omega arith))
  where
    positive : 0 < xor_left x 5
    positive = elim (dec_lt 0 (xor_left x 5)) [
      | yes h ↦ h
      | no h ↦ absurd (omega (arith, bit_xor_zero x (x * 2 ^ 5 % 2 ^ 32) (omega arith)))
    ]

pub xorshift-Seed : (x : ℕ) → Seed x → Seed (xorshift x)
xorshift-Seed x seed = xor_left_5 _ (xor_right_17 _ (xor_left_13 x seed))

pub record WellFormed (backoff : StealBackoff) : Type 0 where
  pub valid : validate_steal_config backoff.config ≡ true
  pub seeded : Seed backoff.random_state
  pub open_window :
      (backoff.window ≡ 0)
      ⊎ ((backoff.config.initial_window ≤ backoff.window)
          × (backoff.window ≤ backoff.config.max_window))

-- What the validation of a configuration gives.
pub valid-bounds :
    (config : StealBackoffConfig)
    → validate_steal_config config ≡ true
    → (0 < config.max_attempts)
      × (config.max_attempts ≤ 64)
      × (0 < config.initial_window)
      × (config.initial_window ≤ config.max_window)
      × (config.max_window ≤ max_supported_window)
valid-bounds config e = ground arith

-- A backoff that the constructor makes, from a 32-bit seed, is well-formed.
pub new_backoff-WellFormed :
    (seed : ℕ) (config : StealBackoffConfig) (backoff : StealBackoff)
    → seed < 2 ^ 32
    → new_backoff seed config ≡ some backoff
    → WellFormed backoff
new_backoff-WellFormed seed config backoff word e =
    made (validate_steal_config config) refl (seed == 0) refl e
  where
    made :
        (fits : Bool)
        → validate_steal_config config ≡ fits
        → (none_given : Bool) → (seed == 0) ≡ none_given
        → (if none_given || not fits
            then none
            else some (record { config = config; random_state = seed; window = 0; victim = none }))
          ≡ some backoff
        → WellFormed backoff
    made fits v true z e = absurd (cc)
    made false v false z e = absurd (cc)
    made true v false z e =
        subst WellFormed (some-injective e)
          (record { valid = v; seeded = (ground arith, word); open_window = inl refl })
      where
        some-injective : {x y : StealBackoff} → some x ≡ some y → x ≡ y
        some-injective e = cc

module _ {backoff : StealBackoff} (ok : WellFormed backoff) where
  pub reset-WellFormed : WellFormed (reset backoff)
  reset-WellFormed = record { valid = ok.valid; seeded = ok.seeded; open_window = inl refl }

  pub select_victim-WellFormed : (victim : ℕ) → WellFormed (select_victim backoff victim)
  select_victim-WellFormed victim = go (same_victim backoff.victim victim)
    where
      go :
          (same : Bool)
          → WellFormed (if same then backoff else record (reset backoff) { victim = some victim })
      go true = ok
      go false = record { valid = ok.valid; seeded = ok.seeded; open_window = inl refl }

  pub record_abort-WellFormed : WellFormed (record_abort backoff)
  record_abort-WellFormed = go (backoff.window == 0) refl
    where
      bounds :
          (0 < backoff.config.max_attempts)
          × (backoff.config.max_attempts ≤ 64)
          × (0 < backoff.config.initial_window)
          × (backoff.config.initial_window ≤ backoff.config.max_window)
          × (backoff.config.max_window ≤ max_supported_window)
      bounds = valid-bounds backoff.config ok.valid

      doubled :
          (backoff.window == 0) ≡ false
          → (backoff.window ≡ 0)
            ⊎ ((backoff.config.initial_window ≤ backoff.window)
                × (backoff.window ≤ backoff.config.max_window))
          → (backoff.config.initial_window
              ≤ min (backoff.window * 2 % 2 ^ 32) backoff.config.max_window)
            × (min (backoff.window * 2 % 2 ^ 32) backoff.config.max_window
                ≤ backoff.config.max_window)
      doubled e (inl closed) = absurd (cc ((==_iff backoff.window 0).1 closed))
      doubled e (inr (least, most)) = (omega (arith, bounds), omega (arith, bounds))

      go :
          (closed : Bool)
          → (backoff.window == 0) ≡ closed
          → WellFormed (
              if closed
              then record backoff { window = backoff.config.initial_window }
              else record backoff {
                window = min (backoff.window * 2 % 2 ^ 32) backoff.config.max_window;
              })
      go true e = record {
        valid = ok.valid;
        seeded = ok.seeded;
        open_window = inr (omega arith, bounds.3);
      }
      go false e = record {
        valid = ok.valid;
        seeded = ok.seeded;
        open_window = inr (doubled e ok.open_window);
      }

  pub next_random-WellFormed : WellFormed (next_random backoff).1
  next_random-WellFormed = record {
    valid = ok.valid;
    seeded = xorshift-Seed backoff.random_state ok.seeded;
    open_window = ok.open_window;
  }

-- Every operation on a well-formed backoff keeps the configuration valid, the random state a 32-bit
-- number other than 0, and the window closed or between the initial and the largest one.
pub operations-WellFormed :
    (backoff : StealBackoff) (victim : ℕ)
    → WellFormed backoff
    → WellFormed (reset backoff)
      × WellFormed (begin_search backoff)
      × WellFormed (select_victim backoff victim)
      × WellFormed (record_abort backoff)
      × WellFormed (next_random backoff).1
operations-WellFormed backoff victim ok = (
  reset-WellFormed ok,
  record { valid = ok.valid; seeded = ok.seeded; open_window = inl refl },
  select_victim-WellFormed ok victim,
  record_abort-WellFormed ok,
  next_random-WellFormed ok,
)
