-- ===== src/StealBackoff/Retry.antt =====
-- The loop of `steal_with_retry` in src/steal_backoff.h.
use lock_free_deque.Prelude.{
  ℕ, zero, suc, ◌<◌, ◌≡◌, refl, ap, sym, subst, ◌⊎◌, inl, inr, Bool, true, false, if◌then◌else◌,
  arith,
}
use lock_free_deque.StealResult.{StealState, StealResult, of_state}
use lock_free_deque.StealBackoff.{
  StealBackoffConfig, StealBackoff, reset, record_abort, select_victim, Worker, is_abort, attempted,
  pause_before, retry, steal_with_retry,
}

module _ {A V : Type 0} (steal : V → StealResult A × V) where
  -- The deque after `n` attempts, and what the next one gives.
  abbrev pub after : ℕ → V → V
  after zero v = v
  after (suc n) v = after n (steal v).1

  abbrev pub attempt : ℕ → V → StealResult A
  attempt n v = (steal (after n v)).0

  -- The result and the deque after at most `left` attempts: those of the first attempt that did not
  -- abort, or ABORT after all of them did.
  abbrev pub Retried : ℕ → V → StealResult A × V → Type 0
  Retried left v (result, v') =
      ((n : ℕ) × (n < left)
        × ((k : ℕ) → k < n → is_abort (attempt k v).state ≡ true)
        × (is_abort (attempt n v).state ≡ false)
        × (result ≡ attempt n v)
        × (v' ≡ after (suc n) v))
      ⊎ (((k : ℕ) → k < left → is_abort (attempt k v).state ≡ true)
          × (result ≡ of_state StealState.abort)
          × (v' ≡ after left v))

  -- One attempt that aborted comes before.
  later :
      (left : ℕ) (v : V) (r : StealResult A × V)
      → is_abort (attempt 0 v).state ≡ true
      → Retried left (steal v).1 r
      → Retried (suc left) v r
  later left v r e (inl (n, lt, before, stops, result, deque)) =
      inl (suc n, omega arith, earlier, stops, result, deque)
    where
      earlier : (k : ℕ) → k < suc n → is_abort (attempt k v).state ≡ true
      earlier zero lt' = e
      earlier (suc k) lt' = before k (omega arith)
  later left v r e (inr (all, result, deque)) = inr (earlier, result, deque)
    where
      earlier : (k : ℕ) → k < suc left → is_abort (attempt k v).state ≡ true
      earlier zero lt' = e
      earlier (suc k) lt' = all k (omega arith)

module _ {V R : Type 0} (random : R → StealBackoff → ℕ × (R × StealBackoff)) where
  pause_before-victim : (w : Worker V R) → (pause_before random w).victim ≡ w.victim
  unfolding pause_before
  pause_before-victim w = ground arith

module _ {A V R : Type 0} (steal : V → StealResult A × V)
    (random : R → StealBackoff → ℕ × (R × StealBackoff)) where
  -- What a round leaves to the next one, after the pause.
  abbrev aborted : Worker V R → Worker V R
  aborted p =
      let w' = attempted p (steal p.victim) in record w' { backoff = record_abort w'.backoff }

  round :
      (left : ℕ) (p : Worker V R) (aborts : Bool)
      → is_abort (steal p.victim).0.state ≡ aborts
      → Retried steal left
          (aborted p).victim
          ((retry steal random left (aborted p)).0, (retry steal random left (aborted p)).1.victim)
      → (end : StealResult A × Worker V R)
      → end ≡ (
          if aborts then retry steal random left (aborted p) else (
            (steal p.victim).0,
            (let w' = attempted p (steal p.victim) in record w' { backoff = reset w'.backoff }),
          ))
      → Retried steal (suc left) p.victim (end.0, end.1.victim)
  round left p true e rest end same =
      subst
        (λ (r : StealResult A × Worker V R). Retried steal (suc left) p.victim (r.0, r.1.victim))
        (sym same) (later steal left p.victim _ e rest)
  round left p false e rest end same =
      subst
        (λ (r : StealResult A × Worker V R). Retried steal (suc left) p.victim (r.0, r.1.victim))
        (sym same) (inl (0, omega arith, λ k lt. absurd (omega arith), e, refl, refl))

  retry-Retried :
      (left : ℕ) (w : Worker V R)
      → Retried steal left w.victim
          ((retry steal random left w).0, (retry steal random left w).1.victim)
  unfolding retry
  retry-Retried zero w = inr (λ k lt. absurd (omega arith), refl, refl)
  retry-Retried (suc left) w =
      let p = pause_before random w in
      subst
        (λ (v : V).
          Retried steal (suc left) v
            ((retry steal random (suc left) w).0, (retry steal random (suc left) w).1.victim))
        (pause_before-victim random w)
        (round left p (is_abort (steal p.victim).0.state) refl (retry-Retried left (aborted p))
          (retry steal random (suc left) w) refl)

  select_config :
      (backoff : StealBackoff) (address : ℕ)
      → (select_victim backoff address).config ≡ backoff.config
  select_config backoff address = ground arith

  -- `steal_with_retry` makes at most `max_attempts` attempts, one after the other. It returns what
  -- the first attempt gave that did not abort, and stops there; it returns ABORT only after all of
  -- them aborted.
  pub steal_with_retry-Retried :
      (address : ℕ) (w : Worker V R)
      → Retried steal w.backoff.config.max_attempts w.victim (
        (steal_with_retry steal random address w).0,
        (steal_with_retry steal random address w).1.victim,
      )
  unfolding steal_with_retry
  steal_with_retry-Retried address w =
      let w' = record w { backoff = select_victim w.backoff address } in
      subst
        (λ (n : ℕ). Retried steal n w.victim (
          (steal_with_retry steal random address w).0,
          (steal_with_retry steal random address w).1.victim,
        ))
        (ap (λ (c : StealBackoffConfig). c.max_attempts) (select_config w.backoff address))
        (retry-Retried w'.backoff.config.max_attempts w')
