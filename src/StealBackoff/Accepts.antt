-- ===== src/StealBackoff/Accepts.antt =====
-- Which configurations the constructor of src/steal_backoff.h accepts, said without its masks.
use native.Mathlib.Nat.{pow-suc, one-le-pow, mod_self}
use lock_free_deque.Prelude.{
  ℕ, zero, suc, ◌-◌, ◌/◌, ◌%◌, ◌^◌, ◌≤◌, ◌<◌, ◌≡◌, ◌⊎◌, refl, inl, inr, ap, ◌∙◌, bit_and, Option,
  none, some, Bool, true, false, ◌&&◌, ◌||◌, not, ltb, leb, ◌==◌, ==_iff, if◌then◌else◌, arith,
}
use native.Mathlib.Decide.{ℕ_discrete}
use lock_free_deque.Prelude.Bits.{bit_and-suc, bit_and_mask}
use lock_free_deque.StealBackoff.{
  StealBackoffConfig, StealBackoff, max_supported_window, is_power_of_two, validate_steal_config,
  new_backoff,
}
use lock_free_deque.StealBackoff.Bounds.{WellFormed, new_backoff-WellFormed}

abbrev pub PowerOfTwo : ℕ → Type 0
PowerOfTwo n = (k : ℕ) × (n ≡ 2 ^ k)

bit_and_self : (fuel a : ℕ) → a ≤ fuel → bit_and a a ≡ a
bit_and_self fuel zero le = refl
bit_and_self zero (suc a) le = absurd (omega arith)
bit_and_self (suc fuel) (suc a) le =
    omega (arith, bit_and-suc a (suc a), bit_and_self fuel (suc a / 2) (omega arith))

-- A number that has no digit in common with the one before it has one digit.
disjoint-PowerOfTwo : (fuel m : ℕ) → m ≤ fuel → bit_and (suc m) m ≡ 0 → PowerOfTwo (suc m)
disjoint-PowerOfTwo fuel zero le e = (0, refl)
disjoint-PowerOfTwo zero (suc m) le e = absurd (omega arith)
disjoint-PowerOfTwo (suc fuel) (suc m) le e = elim (ℕ_discrete (suc m % 2) 0) [
  | yes even ↦
      let half : suc (suc m) / 2 ≡ suc m / 2 = omega arith in
      absurd (
        omega (
          arith,
          bit_and-suc (suc m) (suc m),
          ap (λ (n : ℕ). bit_and n (suc m / 2)) half,
          bit_and_self (suc m) (suc m / 2) (omega arith),
        ))
  | no odd ↦
      let half : suc (suc m) / 2 ≡ suc (suc m / 2) = omega arith in
      let (k, power) =
        disjoint-PowerOfTwo fuel (suc m / 2) (omega arith) (
          omega (arith, bit_and-suc (suc m) (suc m), ap (λ (n : ℕ). bit_and n (suc m / 2)) half)) in
      (suc k, omega (arith, power, pow-suc 2 k))
]

is_power_of_two-PowerOfTwo : (n : ℕ) → is_power_of_two n ≡ true → PowerOfTwo n
is_power_of_two-PowerOfTwo zero e = absurd (cc (e))
is_power_of_two-PowerOfTwo (suc m) e = disjoint-PowerOfTwo m m (omega arith) (ground arith)

PowerOfTwo-is_power_of_two : (n : ℕ) → PowerOfTwo n → is_power_of_two n ≡ true
PowerOfTwo-is_power_of_two n (k, power) =
    let disjoint : bit_and n (n - 1) ≡ 0 =
      ap (λ (m : ℕ). bit_and m (m - 1)) power ∙ bit_and_mask k (2 ^ k) ∙ mod_self (2 ^ k) in
    ground (arith, disjoint, one-le-pow k 2 (omega arith), power)

-- The configurations that the constructor is for.
abbrev pub Valid : StealBackoffConfig → Type 0
Valid config =
    (1 ≤ config.max_attempts)
    × (config.max_attempts ≤ 64)
    × PowerOfTwo config.initial_window
    × (config.initial_window ≤ config.max_window)
    × PowerOfTwo config.max_window
    × (config.max_window ≤ 2 ^ 16)

-- What the constructor makes of a seed and a configuration.
abbrev pub Verdict : ℕ → StealBackoffConfig → Option StealBackoff → Type 0
Verdict seed config none = (seed ≡ 0) ⊎ (Valid config → ⊥)
Verdict seed config (some backoff) =
    (0 < seed)
    × Valid config
    × (backoff.config ≡ config)
    × (backoff.random_state ≡ seed)
    × (backoff.window ≡ 0)
    × WellFormed backoff

all_hold :
    (a b c d e f : Bool)
    → (a && b && c && d && e && f) ≡ true
    → (a ≡ true) × (b ≡ true) × (c ≡ true) × (d ≡ true) × (e ≡ true) × (f ≡ true)
all_hold true true true true true true all = (refl, refl, refl, refl, refl, refl)
all_hold true true true true true false all = absurd (cc)
all_hold true true true true false f all = absurd (cc)
all_hold true true true false e f all = absurd (cc)
all_hold true true false d e f all = absurd (cc)
all_hold true false c d e f all = absurd (cc)
all_hold false b c d e f all = absurd (cc)

validate-Valid : (config : StealBackoffConfig) → validate_steal_config config ≡ true → Valid config
validate-Valid config e =
    let (a, b, c, d, f, g) =
      all_hold (ltb 0 config.max_attempts) (leb config.max_attempts 64)
        (is_power_of_two config.initial_window) (leb config.initial_window config.max_window)
        (is_power_of_two config.max_window) (leb config.max_window max_supported_window) e in
    (
      ground (arith, a),
      ground (arith, b),
      is_power_of_two-PowerOfTwo config.initial_window c,
      ground (arith, d),
      is_power_of_two-PowerOfTwo config.max_window f,
      ground (arith, g),
    )

Valid-validate : (config : StealBackoffConfig) → Valid config → validate_steal_config config ≡ true
Valid-validate config (a, b, c, d, f, g) =
    let initial = PowerOfTwo-is_power_of_two config.initial_window c in
    let largest = PowerOfTwo-is_power_of_two config.max_window f in
    let first : ltb 0 config.max_attempts ≡ true = ground arith in
    let second : leb config.max_attempts 64 ≡ true = ground arith in
    let ordered : leb config.initial_window config.max_window ≡ true = ground arith in
    let last : leb config.max_window max_supported_window ≡ true = ground arith in
    cc (first, second, initial, ordered, largest, last)

-- From a 32-bit seed, the constructor throws only where the seed is 0 or the configuration is not
-- valid: 1 to 64 attempts, and windows that are powers of two, the first no larger than the second,
-- and that no larger than 2^16. Otherwise it makes a well-formed backoff with that configuration, that
-- seed, and a closed window.
pub new_backoff-Verdict :
    (seed : ℕ) (config : StealBackoffConfig)
    → seed < 2 ^ 32
    → Verdict seed config (new_backoff seed config)
new_backoff-Verdict seed config word = go (seed == 0) refl (validate_steal_config config) refl (
    new_backoff-WellFormed seed config
      (record { config = config; random_state = seed; window = 0; victim = none }) word)
  where
    made : StealBackoff
    made = record { config = config; random_state = seed; window = 0; victim = none }

    go :
        (zero_seed : Bool)
        → (seed == 0) ≡ zero_seed
        → (fits : Bool) → validate_steal_config config ≡ fits
        → (new_backoff seed config ≡ some made → WellFormed made)
        → Verdict seed config (if zero_seed || not fits then none else some made)
    go true z fits v kept = inl ((==_iff seed 0).0 z)
    go false z false v kept = inr (λ valid. absurd (cc (v, Valid-validate config valid)))
    go false z true v kept =
        (ground (arith, z), validate-Valid config v, refl, refl, refl, kept (cc (z, v)))
