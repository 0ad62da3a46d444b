-- ===== src/BufferPool.antt =====
-- src/buffer_pool.h: the construction of the pool, and its scan for a free record, by itself. How
-- the scan runs among other threads is in Deque/Owner.antt, one compare-and-swap to a step.
-- `records_` is a map from the indices below its size.
pub mod Emplaced
pub mod Ranges
pub mod Acquire
pub mod Fresh
pub mod Accepts
use Prim.Native.Nat.{max}
use lock_free_deque.Prelude.{
  ℕ, zero, suc, ◌+◌, ◌-◌, List, [], ◌∷◌, Option, none, some, Bool, ◌||◌, ltb, ◌==◌, if◌then◌else◌,
  update,
}
use lock_free_deque.CircularArray.{CircularArray, new_array, reset_for_reuse}
use lock_free_deque.Deque.State.{Flag, available, owned, SizeClassRange}
use lock_free_deque.Deque.Owner.{find_range, is_available}

-- `BufferPool::SizeClassConfig`
pub record SizeClassConfig : Type 0 where
  pub log_size : ℕ
  pub count : ℕ

-- What the constructor throws; `too_long` is thrown by `records_.reserve`. `out_of_range` is an index outside `ranges_`, which it does not test.
pub data PoolError : Type 0 where
  no_size_class invalid_size_class too_many_records too_long : PoolError
  duplicate_size_class out_of_range : PoolError

pub data Result (E X : Type 0) : Type 0 where
  error : E → Result E X
  ok : X → Result E X

-- `ranges_`, `records_` and `records_.size()`
pub record Pool (A : Type 0) : Type 0 where
  pub ranges : List SizeClassRange
  pub arrays : ℕ → CircularArray A
  pub flags : ℕ → Flag
  pub size : ℕ

-- The largest `std::size_t`.
abbrev pub size_max : ℕ
size_max = 18446744073709551615

-- `max_log_size()`: the digits of `std::size_t` and of `std::int64_t` are 64 and 63.
abbrev pub max_log_size : ℕ
max_log_size = if ltb (64 - 2) (63 - 2) then 64 - 2 else 63 - 2

-- The first loop of the constructor: `total` and `largest_log_size`.
unfoldable pub check_config : ℕ → ℕ → List SizeClassConfig → Result PoolError (ℕ × ℕ)
check_config total largest_log_size [] = ok (total, largest_log_size)
check_config total largest_log_size (entry ∷ config) =
    if entry.count == 0 || ltb max_log_size entry.log_size
    then error invalid_size_class
    else if ltb (size_max - total) entry.count
    then error too_many_records
    else check_config (total + entry.count) (max largest_log_size entry.log_size) config

-- `ranges_.resize(n)` on an empty vector.
unfoldable pub empty_ranges : ℕ → List SizeClassRange
empty_ranges zero = []
empty_ranges (suc n) = record { begin = 0; count = 0 } ∷ empty_ranges n

unfoldable pub set_range : List SizeClassRange → ℕ → SizeClassRange → List SizeClassRange
set_range [] i range = []
set_range (r ∷ ranges) zero range = range ∷ ranges
set_range (r ∷ ranges) (suc i) range = r ∷ set_range ranges i range

module _ {A : Type 0} where
  -- One `records_.emplace_back`. The slots start with the value `zero_value`, a default `T`.
  abbrev pub emplace_back : A → Pool A → ℕ → Pool A
  emplace_back zero_value pool log_size = record pool {
    arrays = update pool.arrays pool.size (new_array zero_value log_size);
    flags = update pool.flags pool.size available;
    size = pool.size + 1;
  }

  -- The innermost loop.
  unfoldable pub emplace : A → ℕ → ℕ → Pool A → Pool A
  emplace zero_value log_size zero pool = pool
  emplace zero_value log_size (suc n) pool =
      emplace zero_value log_size n (emplace_back zero_value pool log_size)

  -- One round of the second loop, without its test.
  unfoldable pub add_size_class : A → Pool A → SizeClassConfig → Pool A
  add_size_class zero_value pool entry =
      emplace zero_value entry.log_size entry.count (record pool {
        ranges =
            set_range pool.ranges entry.log_size
              (record { begin = pool.size; count = entry.count });
      })

  -- The second loop of the constructor.
  unfoldable pub add_size_classes : A → Pool A → List SizeClassConfig → Result PoolError (Pool A)
  unfolding add_size_class
  add_size_classes zero_value pool [] = ok pool
  add_size_classes zero_value pool (entry ∷ config) = elim (find_range pool.ranges entry.log_size) [
    | none ↦ error out_of_range
    | some range ↦
        if range.count == 0
        then add_size_classes zero_value (add_size_class zero_value pool entry) config
        else error duplicate_size_class
  ]

  abbrev pub empty_pool : A → List SizeClassRange → Pool A
  empty_pool zero_value ranges = record {
    ranges = ranges;
    arrays = λ i. new_array zero_value 0;
    flags = λ i. available;
    size = 0;
  }

  -- `records_.reserve(total)` and the second loop.
  abbrev pub build :
      A → ℕ → List SizeClassConfig → Result PoolError (ℕ × ℕ) → Result PoolError (Pool A)
  build zero_value max_records config (error e) = error e
  build zero_value max_records config (ok (total, largest_log_size)) =
      if ltb max_records total
      then error too_long
      else add_size_classes zero_value (empty_pool zero_value (empty_ranges (largest_log_size + 1)))
          config

  -- `BufferPool(config)`, where memory does not run out. `max_records` is what
  -- `records_.max_size()` gives: `reserve` throws for more. The `ranges_`, at most 62, fit their vector.
  unfoldable pub construct : A → ℕ → List SizeClassConfig → Result PoolError (Pool A)
  unfolding check_config empty_ranges add_size_classes
  construct zero_value max_records [] = error no_size_class
  construct zero_value max_records (entry ∷ config) =
      build zero_value max_records (entry ∷ config) (check_config 0 0 (entry ∷ config))

-- The loop of `try_acquire`, from record `i` on with `left` records to go: the one it claims.
unfoldable pub scan : (ℕ → Flag) → ℕ → ℕ → Option ℕ
scan flags i zero = none
scan flags i (suc left) = if is_available (flags i) then some i else scan flags (i + 1) left

module _ {A : Type 0} where
  -- `try_acquire(log_size)`, which nobody interrupts: the pool after it, and the buffer.
  abbrev pub acquired : Pool A → Option ℕ → Option (Pool A × ℕ)
  acquired pool none = none
  acquired pool (some i) = some (
    record pool {
      arrays = update pool.arrays i (reset_for_reuse (pool.arrays i));
      flags = update pool.flags i owned;
    },
    i,
  )

  unfoldable pub try_acquire : Pool A → ℕ → Option (Pool A × ℕ)
  unfolding scan
  try_acquire pool log_size = elim (find_range pool.ranges log_size) [
    | none ↦ none
    | some range ↦ acquired pool (scan pool.flags range.begin range.count)
  ]
