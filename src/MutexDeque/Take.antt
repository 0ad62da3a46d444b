-- ===== src/MutexDeque/Take.antt =====
-- Pops and steals of src/mutex/work_stealing_deque.h take the values at the ends of a list.
use native.Mathlib.Nat.{pow-suc, pow-le-pow_right, mod-eq_of_lt, mod-add-mod}
use lock_free_deque.Prelude.{
  ℕ, zero, suc, ◌+◌, ◌-◌, ◌/◌, ◌%◌, ◌^◌, ◌≤◌, ◌<◌, ◌≡◌, ◌≢◌, refl, ap, sym, ◌∙◌, subst, Option,
  none, some, Bool, true, false, ◌&&◌, not, ltb, ◌==◌, ==_iff, if◌then◌else◌, List, [], ◌⊎◌, inl,
  inr, ◌∷◌, ◌++◌, window, window-snoc, window-cons, window_congr, window_empty, arith,
}
use lock_free_deque.StealResult.{StealState, StealResult, of_state, of_value}
use lock_free_deque.MutexDeque.{MutexDeque, index, resize, shrink_target, shrunk, pop_bottom, steal}
use lock_free_deque.MutexDeque.Index.{WellFormed, index-eq_mod, contents}
use lock_free_deque.MutexDeque.Refine.{Holding, resize-Holding}

-- A capacity that `pop_bottom` may shrink to.
abbrev Target : ℕ → ℕ → ℕ → ℕ → Type 0
Target log_min log_max size target =
    (k : ℕ) × (target ≡ 2 ^ k) × (log_min ≤ k) × (k ≤ log_max) × (size < target)

shrink_target-Target :
    (fuel log_min log_max min_capacity size target : ℕ)
    → min_capacity ≡ 2 ^ log_min
    → Target log_min log_max size target
    → Target log_min log_max size (shrink_target fuel min_capacity size target)
unfolding shrink_target
shrink_target-Target zero log_min log_max min_capacity size target e at = at
shrink_target-Target (suc fuel) log_min log_max min_capacity size target e at =
    go (λ half. shrink_target-Target fuel log_min log_max min_capacity size (target / 2) e half)
      (ltb min_capacity target && ltb size (target / 4)) refl at
  where
    below : (k : ℕ) → target ≡ 2 ^ suc k → log_min ≤ suc k → min_capacity < target → log_min ≤ k
    below k power least large =
        let apart : log_min ≢ suc k = λ same. omega (arith, ap (λ (n : ℕ). 2 ^ n) same) in
        omega arith

    half :
        min_capacity < target
        → size < target / 4
        → Target log_min log_max size target
        → Target log_min log_max size (target / 2)
    half large sparse (zero, power, least, most, fits) = absurd (omega arith)
    half large sparse (suc k, power, least, most, fits) =
        (k, omega (arith, pow-suc 2 k), below k power least large, omega arith, omega arith)

    go :
        (Target log_min log_max size (target / 2)
          → Target log_min log_max size (shrink_target fuel min_capacity size (target / 2)))
        → (more : Bool) → (ltb min_capacity target && ltb size (target / 4)) ≡ more
        → Target log_min log_max size target
        → Target log_min log_max size
            (if more then shrink_target fuel min_capacity size (target / 2) else target)
    go rest true e' at = rest (half (ground arith) (ground arith) at)
    go rest false e' at = at

module _ {A : Type 0} where
  -- What `pop_bottom` promises: the last value, and nothing only where the deque is empty.
  abbrev pub Popped : MutexDeque A → Option A × MutexDeque A → Type 0
  Popped d (none, d') = (d' ≡ d) × (contents d ≡ [])
  Popped d (some x, d') = WellFormed d' × (contents d ≡ contents d' ++ (x ∷ []))

  -- What `steal` promises: the first value, and EMPTY only where the deque is empty.
  abbrev pub Stolen : MutexDeque A → StealResult A × MutexDeque A → Type 0
  Stolen d (result, d') =
      ((result ≡ of_state StealState.empty) × (d' ≡ d) × (contents d ≡ []))
      ⊎ ((x : A) × (result ≡ of_value x) × WellFormed d' × (contents d ≡ x ∷ contents d'))

  shrunk-Holding :
      (zero_value : A) (d : MutexDeque A)
      → WellFormed d
      → Holding (shrunk zero_value d) (contents d)
  unfolding shrunk
  shrunk-Holding zero_value d wf =
      go
        (shrink_target-Target d.capacity wf.log_min wf.log_capacity d.min_capacity d.size d.capacity
          wf.min_power (wf.log_capacity, wf.power, wf.least, omega arith, wf.fits))
        (shrink_target d.capacity d.min_capacity d.size d.capacity == d.capacity)
    where
      go :
          {target : ℕ}
          → Target wf.log_min wf.log_capacity d.size target
          → (same : Bool)
          → Holding (if not same then resize zero_value d target else d) (contents d)
      go at true = (wf, refl)
      go (k, power, least, most, fits) false =
          subst (λ (n : ℕ). Holding (resize zero_value d n) (contents d)) (sym power)
            (resize-Holding zero_value d wf k least
              (omega (arith, pow-le-pow_right {n = 2} (omega arith) most, wf.power, wf.word))
              (omega arith))

  -- The deque without its last value.
  shorter : (d : MutexDeque A) → WellFormed d → WellFormed (record d { size = d.size - 1 })
  shorter d wf = record {
    log_capacity = wf.log_capacity;
    power = wf.power;
    log_min = wf.log_min;
    min_power = wf.min_power;
    least = wf.least;
    word = wf.word;
    fits = omega (arith, wf.fits);
    top_fits = wf.top_fits;
  }

  last-contents :
      (d : MutexDeque A)
      → 0 < d.size
      → contents d
        ≡ contents (record d { size = d.size - 1 }) ++ (d.buffer (index d (d.size - 1)) ∷ [])
  last-contents d p =
      ap (window (λ i. d.buffer (index d i)) 0) (omega arith)
      ∙ window-snoc (λ i. d.buffer (index d i)) 0 (d.size - 1)
      ∙ ap
          (λ (k : ℕ).
            window (λ i. d.buffer (index d i)) 0 (d.size - 1) ++ (d.buffer (index d k) ∷ []))
          (omega arith)

  -- On a well-formed deque, `pop_bottom` takes the last value of the contents, and gives nothing
  -- only where they are empty; the deque stays well-formed, whether or not its buffer shrinks.
  pub pop_bottom-Popped :
      (zero_value : A) (d : MutexDeque A) → WellFormed d → Popped d (pop_bottom zero_value d)
  unfolding pop_bottom
  pop_bottom-Popped zero_value d wf = go (d.size == 0) refl
    where
      go :
          (nothing : Bool)
          → (d.size == 0) ≡ nothing
          → Popped d (
              if nothing then (none, d) else (
                some (d.buffer (index d (d.size - 1))),
                shrunk zero_value (record d { size = d.size - 1 }),
              ))
      go true e = (refl, window_empty (λ i. d.buffer (index d i)) 0 d.size ((==_iff d.size 0).0 e))
      go false e =
          let more : 0 < d.size = ground arith in
          let kept = shrunk-Holding zero_value (record d { size = d.size - 1 }) (shorter d wf) in
          (
            kept.0,
            last-contents d more
                ∙ ap (λ (xs : List A). xs ++ (d.buffer (index d (d.size - 1)) ∷ [])) (sym kept.1),
          )

  -- The deque without its first value.
  abbrev advanced : MutexDeque A → MutexDeque A
  advanced d = record d { top = index d 1; size = d.size - 1 }

  advanced-WellFormed : (d : MutexDeque A) → WellFormed d → 0 < d.size → WellFormed (advanced d)
  advanced-WellFormed d wf p = record {
    log_capacity = wf.log_capacity;
    power = wf.power;
    log_min = wf.log_min;
    min_power = wf.min_power;
    least = wf.least;
    word = wf.word;
    fits = omega (arith, wf.fits);
    top_fits = omega (arith, index-eq_mod d wf 1 (omega (arith, wf.fits)), wf.fits);
  }

  advanced-contents :
      (d : MutexDeque A)
      → WellFormed d
      → 0 < d.size
      → contents d ≡ d.buffer d.top ∷ contents (advanced d)
  advanced-contents d wf p =
      ap (window (λ i. d.buffer (index d i)) 0) (omega arith)
      ∙ window-cons (λ i. d.buffer (index d i)) 0 (d.size - 1)
      ∙ ap (λ (k : ℕ). d.buffer k ∷ window (λ i. d.buffer (index d i)) (0 + 1) (d.size - 1))
          (index-eq_mod d wf 0 (omega arith)
            ∙ ap (λ (k : ℕ). k % d.capacity) (omega arith)
            ∙ mod-eq_of_lt wf.top_fits)
      ∙ ap (λ (xs : List A). d.buffer d.top ∷ xs)
          (window_congr (λ i. d.buffer (index d i)) (λ i. d.buffer (index (advanced d) i)) (0 + 1) 0
            (d.size - 1) (λ i lt. ap d.buffer (same i lt)))
    where
      same : (i : ℕ) → i < d.size - 1 → index d (0 + 1 + i) ≡ index (advanced d) (0 + i)
      same i lt =
          index-eq_mod d wf (0 + 1 + i) (omega (arith, wf.fits))
          ∙ ap (λ (k : ℕ). k % d.capacity) (omega arith)
          ∙ sym (mod-add-mod (d.top + 1) d.capacity (0 + i))
          ∙ ap (λ (k : ℕ). (k + (0 + i)) % d.capacity)
              (sym (index-eq_mod d wf 1 (omega (arith, wf.fits))))
          ∙ sym (
              index-eq_mod (advanced d) (advanced-WellFormed d wf p) (0 + i)
                (omega (arith, wf.fits)))

  -- On a well-formed deque, `steal` takes the first value of the contents, and reports EMPTY only
  -- where they are empty; the deque stays well-formed.
  pub steal-Stolen : (d : MutexDeque A) → WellFormed d → Stolen d (steal d)
  unfolding steal
  steal-Stolen d wf = go (d.size == 0) refl
    where
      go :
          (nothing : Bool)
          → (d.size == 0) ≡ nothing
          → Stolen d (
              if nothing
              then (of_state StealState.empty, d)
              else (of_value (d.buffer d.top), advanced d))
      go true e =
          inl
            (refl, refl, window_empty (λ i. d.buffer (index d i)) 0 d.size ((==_iff d.size 0).0 e))
      go false e =
          let more : 0 < d.size = ground arith in
          inr (d.buffer d.top, refl, advanced-WellFormed d wf more, advanced-contents d wf more)

-- The loop of `pop_bottom` has ended where its fuel covers the target it starts from: its condition
-- does not hold of what it gives.
pub shrink_target-stops :
    (fuel min_capacity size target : ℕ)
    → target ≤ fuel
    → let r = shrink_target fuel min_capacity size target in
      (ltb min_capacity r && ltb size (r / 4)) ≡ false
unfolding shrink_target
shrink_target-stops zero min_capacity size target le = ground arith
shrink_target-stops (suc fuel) min_capacity size target le =
    go (λ small. shrink_target-stops fuel min_capacity size (target / 2) small)
      (ltb min_capacity target && ltb size (target / 4)) refl
  where
    go :
        (target / 2 ≤ fuel
          → (ltb min_capacity (shrink_target fuel min_capacity size (target / 2))
              && ltb size (shrink_target fuel min_capacity size (target / 2) / 4))
            ≡ false)
        → (more : Bool) → (ltb min_capacity target && ltb size (target / 4)) ≡ more
        → let r = if more then shrink_target fuel min_capacity size (target / 2) else target in
          (ltb min_capacity r && ltb size (r / 4)) ≡ false
    go rest true e = rest (ground arith)
    go rest false e = e
