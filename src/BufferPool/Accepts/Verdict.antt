-- ===== src/BufferPool/Accepts/Verdict.antt =====
-- When the constructor of src/buffer_pool.h accepts a configuration, and when it refuses one.
use lock_free_deque.Prelude.{
  ℕ, ◌+◌, ◌≤◌, ◌<◌, ◌≡◌, ltb, ltb→lt, ltb→le, Bool, true, false, if◌then◌else◌, refl, sym, ap,
  subst, inl, inr, List, [], ◌∷◌, Option, none, some, arith,
}
use lock_free_deque.Deque.State.{SizeClassRange}
use lock_free_deque.Deque.Owner.{find_range}
use lock_free_deque.BufferPool.{
  SizeClassConfig, PoolError, Result, error, ok, Pool, empty_ranges, empty_pool, check_config,
  add_size_classes, construct, build, too_long,
}
use lock_free_deque.BufferPool.Emplaced.{find_range-empty_ranges}
use lock_free_deque.BufferPool.Accepts.{AllValid, Refused, Verdict}
use lock_free_deque.BufferPool.Accepts.Checks.{AllBelow, Checked, check_config-Checked}
use lock_free_deque.BufferPool.Accepts.Classes.{
  Used, Sorted, count_of, length-empty_ranges, add_size_classes-Sorted,
}

-- No size class of a new pool has records.
not-Used : (n l : ℕ) → Used (empty_ranges n) l → ⊥
not-Used n l used = at (find_range (empty_ranges n) l) refl used
  where
    at : (o : Option SizeClassRange) → find_range (empty_ranges n) l ≡ o → 0 < count_of o → ⊥
    at none e lt = omega arith
    at (some range) e lt =
        omega (arith, ap (λ (r : SizeClassRange). r.count) (find_range-empty_ranges n l range e))

module _ {A : Type 0} where
  -- Where memory does not run out, and a vector holds `max_records` records at most: if the
  -- constructor of the pool builds one, then each size class of the configuration has records and a
  -- `log_size` of at most `max_log_size()`, no `log_size` is there twice, and the pool has the records
  -- of all of them, a number that `std::size_t` and the vector hold. If it throws, the configuration
  -- gives it the reason: it has no size class, or one that is out of these bounds, or one that is
  -- there twice, or more records than `std::size_t` or the vector holds. It never indexes `ranges_`
  -- out of range.
  pub construct-Verdict :
      (zero_value : A) (max_records : ℕ) (config : List SizeClassConfig)
      → Verdict max_records config (construct zero_value max_records config)
  unfolding construct
  construct-Verdict zero_value max_records [] = refl
  construct-Verdict zero_value max_records (entry ∷ config) =
      checked (check_config 0 0 (entry ∷ config))
        (check_config-Checked 0 0 (entry ∷ config) (omega arith))
    where
      laid_out :
          (total n : ℕ) (valid : AllValid (entry ∷ config)) (result : Result PoolError (Pool A))
          → Checked 0 0 (entry ∷ config) (ok (total, n))
          → total ≤ max_records
          → Sorted (empty_pool zero_value (empty_ranges (n + 1))) (entry ∷ config) result
          → Verdict max_records (entry ∷ config) result
      laid_out total n valid (ok pool) (valid', sum, fits, grows, below) room
            (distinct, apart, size) =
          (valid, omega arith, omega arith, distinct, omega (arith, size))
      laid_out total n valid (error e) facts room (same, inl repeats) =
          subst (Refused max_records (entry ∷ config)) (sym same) repeats
      laid_out total n valid (error e) facts room (same, inr (l, used, has)) =
          absurd (not-Used (n + 1) l used)

      fits :
          (total n : ℕ) (long : Bool)
          → ltb max_records total ≡ long
          → Checked 0 0 (entry ∷ config) (ok (total, n))
          → Verdict max_records (entry ∷ config) (
              if long
              then error too_long
              else add_size_classes zero_value
                  (empty_pool zero_value (empty_ranges (n + 1)))
                  (entry ∷ config))
      fits total n true e (valid, sum, small, grows, below) =
          omega (arith, ltb→lt max_records total e)
      fits total n false e (valid, sum, small, grows, below) =
          laid_out total n valid _ (valid, sum, small, grows, below) (ltb→le max_records total e)
            (add_size_classes-Sorted zero_value (empty_pool zero_value (empty_ranges (n + 1)))
              (entry ∷ config) valid
              (subst (λ (k : ℕ). AllBelow k (entry ∷ config)) (sym (length-empty_ranges (n + 1)))
                below))

      checked :
          (result : Result PoolError (ℕ × ℕ))
          → Checked 0 0 (entry ∷ config) result
          → Verdict max_records
              (entry ∷ config)
              (build zero_value max_records (entry ∷ config) result)
      checked (error e) (inl (same, bad)) =
          subst (Refused max_records (entry ∷ config)) (sym same) bad
      checked (error e) (inr (same, over)) =
          subst (Refused max_records (entry ∷ config)) (sym same) (omega arith)
      checked (ok (total, n)) facts = fits total n (ltb max_records total) refl facts
