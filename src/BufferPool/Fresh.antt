-- ===== src/BufferPool/Fresh.antt =====
-- The constructor of src/buffer_pool.h makes every record available.
use lock_free_deque.Prelude.{
  ℕ, zero, suc, ◌+◌, ◌≡◌, refl, ◌∙◌, subst, List, [], ◌∷◌, Option, none, some, Bool, true, false,
  if◌then◌else◌, ltb, ◌==◌, update, update_self, update_ne,
}
use native.Mathlib.Decide.{ℕ_discrete}
use lock_free_deque.Deque.State.{available, SizeClassRange}
use lock_free_deque.Deque.Owner.{find_range}
use lock_free_deque.BufferPool.{
  SizeClassConfig, PoolError, duplicate_size_class, out_of_range, too_long, build, Result, error,
  ok, Pool, check_config, empty_ranges, emplace_back, emplace, add_size_class, add_size_classes,
  empty_pool, construct,
}

module _ {A : Type 0} where
  abbrev pub AllFree : Pool A → Type 0
  AllFree pool = (j : ℕ) → pool.flags j ≡ available

  emplace-AllFree :
      (zero_value : A) (log_size n : ℕ) (pool : Pool A)
      → AllFree pool
      → AllFree (emplace zero_value log_size n pool)
  unfolding emplace
  emplace-AllFree zero_value log_size zero pool free = free
  emplace-AllFree zero_value log_size (suc n) pool free =
      emplace-AllFree zero_value log_size n (emplace_back zero_value pool log_size) (λ j.
        elim (ℕ_discrete pool.size j) [
          | yes e ↦
              subst (λ (q : ℕ). update pool.flags pool.size available q ≡ available) e
                (update_self pool.flags pool.size available)
          | no ne ↦ update_ne pool.flags pool.size j available ne ∙ free j
        ])

  add_size_class-AllFree :
      (zero_value : A) (pool : Pool A) (entry : SizeClassConfig)
      → AllFree pool
      → AllFree (add_size_class zero_value pool entry)
  unfolding add_size_class
  add_size_class-AllFree zero_value pool entry free =
      emplace-AllFree zero_value entry.log_size entry.count _ free

  add_size_classes-AllFree :
      (zero_value : A) (pool pool' : Pool A) (config : List SizeClassConfig)
      → AllFree pool
      → add_size_classes zero_value pool config ≡ ok pool'
      → AllFree pool'
  unfolding add_size_classes
  add_size_classes-AllFree zero_value pool pool' [] free e =
      let same : pool ≡ pool' = cc in subst AllFree same free
  add_size_classes-AllFree zero_value pool pool' (entry ∷ config) free e =
      found
        (add_size_classes-AllFree zero_value (add_size_class zero_value pool entry) pool' config
          (add_size_class-AllFree zero_value pool entry free))
        (find_range pool.ranges entry.log_size) e
    where
      Rest : Type 0
      Rest =
          add_size_classes zero_value (add_size_class zero_value pool entry) config ≡ ok pool'
          → AllFree pool'

      fits :
          Rest
          → (fresh : Bool)
          → (if fresh
              then add_size_classes zero_value (add_size_class zero_value pool entry) config
              else error duplicate_size_class)
            ≡ ok pool'
          → AllFree pool'
      fits rest true e = rest e
      fits rest false e = absurd (cc)

      found :
          Rest
          → (at : Option SizeClassRange)
          → elim at [
            | none ↦ error out_of_range
            | some range ↦
                if range.count == 0
                then add_size_classes zero_value (add_size_class zero_value pool entry) config
                else error duplicate_size_class
          ]
            ≡ ok pool'
          → AllFree pool'
      found rest none e = absurd (cc)
      found rest (some range) e = fits rest (range.count == 0) e

  pub construct-AllFree :
      (zero_value : A) (max_records : ℕ) (config : List SizeClassConfig) (pool : Pool A)
      → construct zero_value max_records config ≡ ok pool
      → AllFree pool
  unfolding construct
  construct-AllFree zero_value max_records [] pool e = absurd (cc)
  construct-AllFree zero_value max_records (entry ∷ config) pool e =
      checked (check_config 0 0 (entry ∷ config)) e
    where
      fits :
          (total largest_log_size : ℕ) (long : Bool)
          → (if long
              then error too_long
              else add_size_classes zero_value
                  (empty_pool zero_value (empty_ranges (largest_log_size + 1)))
                  (entry ∷ config))
            ≡ ok pool
          → AllFree pool
      fits total largest_log_size true built = absurd (cc)
      fits total largest_log_size false built =
          add_size_classes-AllFree zero_value
            (empty_pool zero_value (empty_ranges (largest_log_size + 1))) pool (entry ∷ config)
            (λ j. refl) built

      checked :
          (check : Result PoolError (ℕ × ℕ))
          → build zero_value max_records (entry ∷ config) check ≡ ok pool
          → AllFree pool
      checked (error e) built = absurd (cc)
      checked (ok (total, largest_log_size)) built =
          fits total largest_log_size (ltb max_records total) built
