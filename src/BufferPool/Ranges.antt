-- ===== src/BufferPool/Ranges.antt =====
-- The size classes of a pool that src/buffer_pool.h builds.
use lock_free_deque.Prelude.{
  ℕ, ◌+◌, ◌≡◌, refl, ap, sym, ◌∙◌, subst, List, [], ◌∷◌, Option, none, some, Bool, true, false,
  ◌==◌, if◌then◌else◌, ltb, arith,
}
use native.Mathlib.Decide.{ℕ_discrete}
use lock_free_deque.Deque.State.{SizeClassRange}
use lock_free_deque.Deque.Owner.{find_range}
use lock_free_deque.BufferPool.{
  SizeClassConfig, PoolError, duplicate_size_class, Result, Pool, emplace, add_size_class,
  add_size_classes, construct, check_config, empty_ranges, set_range, empty_pool, out_of_range,
  too_long, build, error, ok,
}
use lock_free_deque.BufferPool.Emplaced.{
  find_range-set_range_self, find_range-set_range_ne, find_range-empty_ranges, Filled, Stocked,
  Emplaced, emplace-Emplaced, Filled-Emplaced,
}

module _ {A : Type 0} where
  add_size_class-Stocked :
      (zero_value : A) (pool : Pool A) (entry : SizeClassConfig) (old : SizeClassRange)
      → find_range pool.ranges entry.log_size ≡ some old
      → Stocked pool
      → Stocked (add_size_class zero_value pool entry)
  unfolding add_size_class
  add_size_class-Stocked zero_value pool entry old found ordered l range e =
      elim (ℕ_discrete entry.log_size l) [
        | yes same ↦
            subst (λ (n : ℕ). Filled added n range) same
              (subst (Filled added entry.log_size) (is_fresh same)
                (omega (arith, new.longer), new.newer))
        | no ne ↦ Filled-Emplaced new l range (
            ordered l range (
              sym (find_range-set_range_ne pool.ranges entry.log_size l fresh ne)
              ∙ ap (λ (rs : List SizeClassRange). find_range rs l) (sym new.same_ranges)
              ∙ e))
      ]
    where
      fresh : SizeClassRange
      fresh = record { begin = pool.size; count = entry.count }

      before : Pool A
      before = record pool { ranges = set_range pool.ranges entry.log_size fresh }

      added : Pool A
      added = emplace zero_value entry.log_size entry.count before

      new : Emplaced entry.log_size entry.count before added
      new = emplace-Emplaced zero_value entry.log_size entry.count before

      at_entry : find_range added.ranges entry.log_size ≡ some fresh
      at_entry =
          ap (λ (rs : List SizeClassRange). find_range rs entry.log_size) new.same_ranges
          ∙ find_range-set_range_self pool.ranges entry.log_size fresh old found

      is_fresh : entry.log_size ≡ l → fresh ≡ range
      is_fresh same = cc (at_entry)

  add_size_classes-Stocked :
      (zero_value : A) (pool pool' : Pool A) (config : List SizeClassConfig)
      → Stocked pool
      → add_size_classes zero_value pool config ≡ ok pool'
      → Stocked pool'
  unfolding add_size_classes
  add_size_classes-Stocked zero_value pool pool' [] ordered e =
      subst Stocked (ok-injective e) ordered
    where
      ok-injective : {p q : Pool A} → ◌≡◌ {A = Result PoolError (Pool A)} (ok p) (ok q) → p ≡ q
      ok-injective e = cc
  add_size_classes-Stocked zero_value pool pool' (entry ∷ config) ordered e =
      found
        (λ range at.
          add_size_classes-Stocked zero_value (add_size_class zero_value pool entry) pool' config
            (add_size_class-Stocked zero_value pool entry range at ordered))
        (find_range pool.ranges entry.log_size) refl e
    where
      Rest : Type 0
      Rest =
          add_size_classes zero_value (add_size_class zero_value pool entry) config ≡ ok pool'
          → Stocked pool'

      fits :
          (fresh : Bool)
          → Rest
          → (if fresh
              then add_size_classes zero_value (add_size_class zero_value pool entry) config
              else error duplicate_size_class)
            ≡ ok pool'
          → Stocked pool'
      fits true rest e = rest e
      fits false rest e = absurd (cc)

      found :
          ((range : SizeClassRange) → find_range pool.ranges entry.log_size ≡ some range → Rest)
          → (at : Option SizeClassRange) → find_range pool.ranges entry.log_size ≡ at
          → elim at [
            | none ↦ error out_of_range
            | some range ↦
                if range.count == 0
                then add_size_classes zero_value (add_size_class zero_value pool entry) config
                else error duplicate_size_class
          ]
            ≡ ok pool'
          → Stocked pool'
      found rest none at e = absurd (cc)
      found rest (some range) at e = fits (range.count == 0) (rest range at) e

  empty_pool-Stocked : (zero_value : A) (n : ℕ) → Stocked (empty_pool zero_value (empty_ranges n))
  empty_pool-Stocked zero_value n l range e =
      subst (Filled (empty_pool zero_value (empty_ranges n)) l)
        (sym (find_range-empty_ranges n l range e)) (omega arith, λ j ge lt. absurd (omega arith))

  construct-Stocked :
      (zero_value : A) (max_records : ℕ) (config : List SizeClassConfig) (pool : Pool A)
      → construct zero_value max_records config ≡ ok pool
      → Stocked pool
  unfolding construct
  construct-Stocked zero_value max_records [] pool e = absurd (cc)
  construct-Stocked zero_value max_records (entry ∷ config) pool e =
      checked (check_config 0 0 (entry ∷ config)) e
    where
      fits :
          (total largest_log_size : ℕ) (long : Bool)
          → (if long
              then error too_long
              else add_size_classes zero_value
                  (empty_pool zero_value (empty_ranges (largest_log_size + 1)))
                  (entry ∷ config))
            ≡ ok pool
          → Stocked pool
      fits total largest_log_size true built = absurd (cc)
      fits total largest_log_size false built =
          add_size_classes-Stocked zero_value
            (empty_pool zero_value (empty_ranges (largest_log_size + 1))) pool (entry ∷ config)
            (empty_pool-Stocked zero_value (largest_log_size + 1)) built

      checked :
          (check : Result PoolError (ℕ × ℕ))
          → build zero_value max_records (entry ∷ config) check ≡ ok pool
          → Stocked pool
      checked (error e) built = absurd (cc)
      checked (ok (total, largest_log_size)) built =
          fits total largest_log_size (ltb max_records total) built

  -- Of a pool that was built, each size class names records that exist, that have its size, and
  -- that are available.
  pub construct-Filled :
      (zero_value : A) (max_records : ℕ) (config : List SizeClassConfig) (pool : Pool A)
      → construct zero_value max_records config ≡ ok pool
      → (log_size : ℕ) (range : SizeClassRange) → find_range pool.ranges log_size ≡ some range
      → Filled pool log_size range
  construct-Filled zero_value max_records config pool built =
      construct-Stocked zero_value max_records config pool built
