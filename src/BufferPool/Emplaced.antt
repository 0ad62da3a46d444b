-- ===== src/BufferPool/Emplaced.antt =====
-- What `emplace` of src/buffer_pool.h adds to a pool, and the ranges of its size classes.
use lock_free_deque.Prelude.{
  ℕ, zero, suc, ◌+◌, ◌≤◌, ◌<◌, ◌≡◌, ◌≢◌, refl, ap, ◌∙◌, subst, List, [], ◌∷◌, some, update,
  update_self, update_ne, arith,
}
use native.Mathlib.Decide.{ℕ_discrete}
use lock_free_deque.CircularArray.{CircularArray, new_array}
use lock_free_deque.Deque.State.{available, SizeClassRange}
use lock_free_deque.Deque.Owner.{find_range}
use lock_free_deque.BufferPool.{Pool, emplace_back, emplace, empty_ranges, set_range}

pub find_range-set_range_self :
    (ranges : List SizeClassRange) (i : ℕ) (range old : SizeClassRange)
    → find_range ranges i ≡ some old
    → find_range (set_range ranges i range) i ≡ some range
unfolding find_range set_range
find_range-set_range_self [] i range old e = absurd (cc)
find_range-set_range_self (r ∷ ranges) zero range old e = refl
find_range-set_range_self (r ∷ ranges) (suc i) range old e =
    find_range-set_range_self ranges i range old e

pub find_range-set_range_ne :
    (ranges : List SizeClassRange) (i j : ℕ) (range : SizeClassRange)
    → i ≢ j
    → find_range (set_range ranges i range) j ≡ find_range ranges j
unfolding find_range set_range
find_range-set_range_ne [] i j range ne = refl
find_range-set_range_ne (r ∷ ranges) zero zero range ne = absurd (ne refl)
find_range-set_range_ne (r ∷ ranges) zero (suc j) range ne = refl
find_range-set_range_ne (r ∷ ranges) (suc i) zero range ne = refl
find_range-set_range_ne (r ∷ ranges) (suc i) (suc j) range ne =
    find_range-set_range_ne ranges i j range (λ e. ne (ap suc e))

pub find_range-empty_ranges :
    (n i : ℕ) (range : SizeClassRange)
    → find_range (empty_ranges n) i ≡ some range
    → range ≡ record { begin = 0; count = 0 }
unfolding find_range empty_ranges
find_range-empty_ranges zero i range e = absurd (cc)
find_range-empty_ranges (suc n) zero range e = cc
find_range-empty_ranges (suc n) (suc i) range e = find_range-empty_ranges n i range e

module _ {A : Type 0} where
  -- The records of a range exist, are available, and have its size.
  abbrev pub Filled : Pool A → ℕ → SizeClassRange → Type 0
  Filled pool log_size range =
      (range.begin + range.count ≤ pool.size)
      × ((j : ℕ)
          → range.begin ≤ j
          → j < range.begin + range.count
          → ((pool.arrays j).log_size ≡ log_size) × (pool.flags j ≡ available))

  abbrev pub Stocked : Pool A → Type 0
  Stocked pool =
      (log_size : ℕ) (range : SizeClassRange)
      → find_range pool.ranges log_size ≡ some range
      → Filled pool log_size range

  -- The records that `emplace` adds are of the given size, and the older ones stay.
  pub record Emplaced (log_size n : ℕ) (pool pool' : Pool A) : Type 0 where
    pub longer : pool'.size ≡ pool.size + n
    pub older :
        (j : ℕ) → j < pool.size → (pool'.arrays j ≡ pool.arrays j) × (pool'.flags j ≡ pool.flags j)
    pub newer :
        (j : ℕ)
        → pool.size ≤ j
        → j < pool.size + n
        → ((pool'.arrays j).log_size ≡ log_size) × (pool'.flags j ≡ available)
    pub same_ranges : pool'.ranges ≡ pool.ranges

  pub emplace-Emplaced :
      (zero_value : A) (log_size n : ℕ) (pool : Pool A)
      → Emplaced log_size n pool (emplace zero_value log_size n pool)
  unfolding emplace
  emplace-Emplaced zero_value log_size zero pool = record {
    longer = omega arith;
    older = λ j lt. (refl, refl);
    newer = λ j ge lt. absurd (omega arith);
    same_ranges = refl;
  }
  emplace-Emplaced zero_value log_size (suc n) pool =
      let rest = emplace-Emplaced zero_value log_size n (emplace_back zero_value pool log_size) in
      record {
        longer = omega (arith, rest.longer);
        older = λ j lt.
            let (a, f) = rest.older j (omega arith) in
            (
              a ∙ update_ne pool.arrays pool.size j _ (omega arith),
              f ∙ update_ne pool.flags pool.size j available (omega arith),
            );
        newer = λ j ge lt. elim (ℕ_discrete pool.size j) [
          | yes e ↦
              let (a, f) = rest.older j (omega arith) in
              (
                ap (λ (c : CircularArray A). c.log_size)
                    (a
                      ∙ subst
                          (λ (q : ℕ).
                            update pool.arrays pool.size (new_array zero_value log_size) q
                            ≡ new_array zero_value log_size)
                          e (update_self pool.arrays pool.size (new_array zero_value log_size))),
                f
                    ∙ subst (λ (q : ℕ). update pool.flags pool.size available q ≡ available) e
                        (update_self pool.flags pool.size available),
              )
          | no ne ↦ rest.newer j (omega arith) (omega arith)
        ];
        same_ranges = rest.same_ranges;
      }

  pub Filled-Emplaced :
      {log_size n : ℕ} {pool pool' : Pool A}
      → Emplaced log_size n pool pool'
      → (l : ℕ) (range : SizeClassRange) → Filled pool l range
      → Filled pool' l range
  Filled-Emplaced new l range (fits, records) = (
    omega (arith, new.longer),
    λ j ge lt.
        let (a, f) = new.older j (omega arith) in
        let (same_size, free) = records j ge lt in
        (ap (λ (c : CircularArray A). c.log_size) a ∙ same_size, f ∙ free),
  )
