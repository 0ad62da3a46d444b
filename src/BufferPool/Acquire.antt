-- ===== src/BufferPool/Acquire.antt =====
-- The scan of src/buffer_pool.h for a free record.
use lock_free_deque.Prelude.{
  ℕ, zero, suc, ◌+◌, ◌≤◌, ◌<◌, ◌≡◌, ◌≢◌, refl, subst, Option, none, some, Bool, true, false,
  if◌then◌else◌, update, arith,
}
use native.Mathlib.Decide.{ℕ_discrete}
use lock_free_deque.CircularArray.{reset_for_reuse}
use lock_free_deque.Deque.State.{Flag, available, owned, lent, SizeClassRange}
use lock_free_deque.Deque.Owner.{find_range, is_available}
use lock_free_deque.BufferPool.{Pool, scan, acquired, try_acquire}

pub available-is_available : (f : Flag) → is_available f ≡ true → f ≡ available
available-is_available available e = refl
available-is_available owned e = absurd (cc)
available-is_available lent e = absurd (cc)

not-is_available : (f : Flag) → is_available f ≡ false → f ≢ available
not-is_available f e same = absurd (cc)

-- Record `r` is the first available one from `i` on, with `left` records to go.
abbrev pub First : (ℕ → Flag) → ℕ → ℕ → ℕ → Type 0
First flags i left r =
    (i ≤ r)
    × (r < i + left)
    × (flags r ≡ available)
    × ((j : ℕ) → i ≤ j → j < r → flags j ≢ available)

abbrev pub NoneFree : (ℕ → Flag) → ℕ → ℕ → Type 0
NoneFree flags i left = (j : ℕ) → i ≤ j → j < i + left → flags j ≢ available

module _ (flags : ℕ → Flag) where
  scan-First : (i left r : ℕ) → scan flags i left ≡ some r → First flags i left r
  unfolding scan
  scan-First i zero r e = absurd (cc)
  scan-First i (suc left) r e =
      go (λ found. scan-First (i + 1) left r found) (is_available (flags i)) refl e
    where
      go :
          (scan flags (i + 1) left ≡ some r → First flags (i + 1) left r)
          → (free : Bool) → is_available (flags i) ≡ free
          → (if free then some i else scan flags (i + 1) left) ≡ some r
          → First flags i (suc left) r
      go rest true free found =
          let same : i ≡ r = cc in
          (
            omega arith,
            omega arith,
            subst (λ (q : ℕ). flags q ≡ available) same (available-is_available (flags i) free),
            λ j ge lt. absurd (omega arith),
          )
      go rest false free found =
          let (ge, lt, at, before) = rest found in
          (
            omega arith,
            omega arith,
            at,
            λ j j_ge j_lt. elim (ℕ_discrete i j) [
              | yes e ↦ subst (λ (q : ℕ). flags q ≢ available) e (not-is_available (flags i) free)
              | no ne ↦ before j (omega arith) j_lt
            ],
          )

  scan-NoneFree : (i left : ℕ) → scan flags i left ≡ none → NoneFree flags i left
  unfolding scan
  scan-NoneFree i zero e j ge lt = absurd (omega arith)
  scan-NoneFree i (suc left) e j ge lt =
      go (λ found. scan-NoneFree (i + 1) left found) (is_available (flags i)) refl e j ge lt
    where
      go :
          (scan flags (i + 1) left ≡ none → NoneFree flags (i + 1) left)
          → (free : Bool) → is_available (flags i) ≡ free
          → (if free then some i else scan flags (i + 1) left) ≡ none
          → NoneFree flags i (suc left)
      go rest true free found j ge lt = absurd (cc)
      go rest false free found j ge lt = elim (ℕ_discrete i j) [
        | yes e ↦ subst (λ (q : ℕ). flags q ≢ available) e (not-is_available (flags i) free)
        | no ne ↦ rest found j (omega arith) (omega arith)
      ]

module _ {A : Type 0} where
  -- The pool after record `r` was claimed.
  abbrev pub claimed : Pool A → ℕ → Pool A
  claimed pool r = record pool {
    arrays = update pool.arrays r (reset_for_reuse (pool.arrays r));
    flags = update pool.flags r owned;
  }

  -- What `try_acquire` promises: the first available record of the size class, reset and claimed,
  -- and no record only where none of the class is available.
  abbrev pub Acquires : Pool A → ℕ → Option (Pool A × ℕ) → Type 0
  Acquires pool log_size none =
      (range : SizeClassRange)
      → find_range pool.ranges log_size ≡ some range
      → NoneFree pool.flags range.begin range.count
  Acquires pool log_size (some (pool', r)) =
      (range : SizeClassRange) × (find_range pool.ranges log_size ≡ some range)
      × First pool.flags range.begin range.count r
      × (pool' ≡ claimed pool r)

  acquired-Acquires :
      (pool : Pool A) (log_size : ℕ) (range : SizeClassRange)
      → find_range pool.ranges log_size ≡ some range
      → (r : Option ℕ) → scan pool.flags range.begin range.count ≡ r
      → Acquires pool log_size (acquired pool r)
  acquired-Acquires pool log_size range found none e = λ range' found'.
      subst (λ (q : SizeClassRange). NoneFree pool.flags q.begin q.count) (same range' found')
        (scan-NoneFree pool.flags range.begin range.count e)
    where
      same :
          (range' : SizeClassRange) → find_range pool.ranges log_size ≡ some range' → range ≡ range'
      same range' found' = cc
  acquired-Acquires pool log_size range found (some r) e =
      (range, found, scan-First pool.flags range.begin range.count r e, refl)

  -- `try_acquire` claims and resets the first available record of the size class, and gives nothing
  -- only where no record of the class is available.
  pub try_acquire-Acquires :
      (pool : Pool A) (log_size : ℕ) → Acquires pool log_size (try_acquire pool log_size)
  unfolding try_acquire
  try_acquire-Acquires pool log_size = go (find_range pool.ranges log_size) refl
    where
      go :
          (at : Option SizeClassRange)
          → find_range pool.ranges log_size ≡ at
          → Acquires pool log_size (elim at [
            | none ↦ none
            | some range ↦ acquired pool (scan pool.flags range.begin range.count)
          ])
      go none at = λ range found. absurd (cc)
      go (some range) at = acquired-Acquires pool log_size range at _ refl
