-- ===== src/StealBackoff/Pauses.antt =====
-- How often and how long `steal_with_retry` of src/steal_backoff.h pauses.
use lock_free_deque.Prelude.{
  ℕ, zero, suc, ◌+◌, ◌-◌, ◌≤◌, ◌≡◌, refl, ap, ◌∙◌, subst, ◌⊎◌, inl, inr, List, [], ◌∷◌, Bool, true,
  false, ◌==◌, not, if◌then◌else◌, ==_iff, bit_and, length, arith,
}
use lock_free_deque.Prelude.Bits.{bit_and-le}
use lock_free_deque.StealResult.{StealResult}
use lock_free_deque.StealBackoff.{
  StealBackoffConfig, StealBackoff, reset, record_abort, select_victim, next_random, Worker,
  is_abort, attempted, pause_before, retry, steal_with_retry, backoff_random,
}
use lock_free_deque.StealBackoff.Bounds.{
  WellFormed, valid-bounds, reset-WellFormed, record_abort-WellFormed, select_victim-WellFormed,
  next_random-WellFormed,
}

-- All pauses are of 1 to `most` units.
abbrev pub Within : ℕ → List ℕ → Type 0
Within most [] = Unit
Within most (units ∷ pauses) = (1 ≤ units) × (units ≤ most) × Within most pauses

record_abort_config : (backoff : StealBackoff) → (record_abort backoff).config ≡ backoff.config
record_abort_config backoff = ground arith

select_config :
    (backoff : StealBackoff) (address : ℕ) → (select_victim backoff address).config ≡ backoff.config
select_config backoff address = ground arith

module _ {V : Type 0} where
  -- The worker's backoff is well-formed, its configuration is `config`, and its pauses were within
  -- the largest window.
  pub record Sound (config : StealBackoffConfig) (w : Worker V Unit) : Type 0 where
    pub well_formed : WellFormed w.backoff
    pub same_config : w.backoff.config ≡ config
    pub within : Within config.max_window w.pauses

  -- At most `n` more pauses and `n` more attempts.
  abbrev pub Adds : ℕ → Worker V Unit → Worker V Unit → Type 0
  Adds n w w' =
      (length w'.pauses ≤ length w.pauses + n) × (length w'.observed ≤ length w.observed + n)

  pause_before-Sound :
      (config : StealBackoffConfig) (w : Worker V Unit)
      → Sound config w
      → Sound config (pause_before backoff_random w)
        × (length (pause_before backoff_random w).pauses ≤ length w.pauses + 1)
        × ((pause_before backoff_random w).observed ≡ w.observed)
  unfolding pause_before
  pause_before-Sound config w sound = go (w.backoff.window == 0) refl
    where
      drawn : StealBackoff
      drawn = (next_random w.backoff).1

      paused : Worker V Unit
      paused = record w {
        backoff = drawn;
        pauses = (1 + bit_and (next_random w.backoff).0 (w.backoff.window - 1)) ∷ w.pauses;
      }

      below :
          (w.backoff.window == 0) ≡ false
          → (w.backoff.window ≡ 0)
            ⊎ ((w.backoff.config.initial_window ≤ w.backoff.window)
                × (w.backoff.window ≤ w.backoff.config.max_window))
          → 1 + bit_and (next_random w.backoff).0 (w.backoff.window - 1) ≤ config.max_window
      below e (inl closed) = absurd (cc ((==_iff w.backoff.window 0).1 closed))
      below e (inr (least, most)) = omega (
        arith,
        valid-bounds w.backoff.config sound.well_formed.valid,
        ap (λ (c : StealBackoffConfig). c.max_window) sound.same_config,
        bit_and-le (next_random w.backoff).0 (w.backoff.window - 1),
      )

      go :
          (closed : Bool)
          → (w.backoff.window == 0) ≡ closed
          → Sound config (if not closed then paused else w)
            × (length (if not closed then paused else w).pauses ≤ length w.pauses + 1)
            × ((if not closed then paused else w).observed ≡ w.observed)
      go true e = (sound, omega arith, refl)
      go false e = (
        record {
          well_formed = next_random-WellFormed sound.well_formed;
          same_config = sound.same_config;
          within = (omega arith, below e sound.well_formed.open_window, sound.within);
        },
        omega arith,
        refl,
      )

  module _ {A : Type 0} (steal : V → StealResult A × V) (config : StealBackoffConfig) where
    retry-Sound :
        (left : ℕ) (w : Worker V Unit)
        → Sound config w
        → Sound config (retry steal backoff_random left w).1
          × Adds left w (retry steal backoff_random left w).1
    unfolding retry
    retry-Sound zero w sound = (sound, (omega arith, omega arith))
    retry-Sound (suc left) w sound =
        let (sound_p, more, same) = pause_before-Sound config w sound in
        let p = pause_before backoff_random w in
        let next : Worker V Unit = record (attempted p (steal p.victim)) {
          backoff = record_abort p.backoff;
        } in
        go p sound_p more same (is_abort (steal p.victim).0.state) (
          retry-Sound left next (record {
            well_formed = record_abort-WellFormed sound_p.well_formed;
            same_config = record_abort_config p.backoff ∙ sound_p.same_config;
            within = sound_p.within;
          }))
      where
        go :
            (p : Worker V Unit)
            → Sound config p
            → length p.pauses ≤ length w.pauses + 1
            → p.observed ≡ w.observed
            → (aborts : Bool)
            → (let next : Worker V Unit = record (attempted p (steal p.victim)) {
              backoff = record_abort p.backoff;
            } in
                Sound config (retry steal backoff_random left next).1
                × Adds left next (retry steal backoff_random left next).1)
            → (let next : Worker V Unit = record (attempted p (steal p.victim)) {
              backoff = record_abort p.backoff;
            } in
                let last : Worker V Unit = record (attempted p (steal p.victim)) {
                  backoff = reset p.backoff;
                } in
                let end =
                  if aborts
                  then retry steal backoff_random left next
                  else ((steal p.victim).0, last) in
                Sound config end.1 × Adds (suc left) w end.1)
        go p sound_p more same true (sound', adds) =
            (sound', (omega arith, omega (arith, ap length same)))
        go p sound_p more same false rest = (
          record {
            well_formed = reset-WellFormed sound_p.well_formed;
            same_config = sound_p.same_config;
            within = sound_p.within;
          },
          (omega arith, omega (arith, ap length same)),
        )

  -- From a well-formed backoff, with the backoff's own random numbers, `steal_with_retry` pauses at
  -- most `max_attempts` times and makes at most `max_attempts` attempts; each pause is of 1 to
  -- `max_window` units, if those before were, and the backoff stays well-formed with its
  -- configuration.
  pub steal_with_retry-Sound :
      {A : Type 0} (steal : V → StealResult A × V) (address : ℕ) (w : Worker V Unit)
      → Sound w.backoff.config w
      → Sound w.backoff.config (steal_with_retry steal backoff_random address w).1
        × Adds w.backoff.config.max_attempts w (steal_with_retry steal backoff_random address w).1
  unfolding steal_with_retry
  steal_with_retry-Sound steal address w sound =
      let w' : Worker V Unit = record w { backoff = select_victim w.backoff address } in
      subst
        (λ (n : ℕ).
          Sound w.backoff.config (steal_with_retry steal backoff_random address w).1
          × Adds n w (steal_with_retry steal backoff_random address w).1)
        (ap (λ (c : StealBackoffConfig). c.max_attempts) (select_config w.backoff address))
        (retry-Sound steal w.backoff.config w'.backoff.config.max_attempts w' (record {
          well_formed = select_victim-WellFormed sound.well_formed address;
          same_config = select_config w.backoff address;
          within = sound.within;
        }))
