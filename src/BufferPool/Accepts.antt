-- ===== src/BufferPool/Accepts.antt =====
-- Which configurations the constructor of src/buffer_pool.h accepts, and why it refuses the others,
-- said without its loops.
pub mod Checks
pub mod Classes
pub mod Verdict
use lock_free_deque.Prelude.{ℕ, ◌+◌, ◌≤◌, ◌<◌, ◌≡◌, ◌⊎◌, List, [], ◌∷◌}
use lock_free_deque.BufferPool.{
  SizeClassConfig, PoolError, no_size_class, invalid_size_class, too_many_records, too_long,
  duplicate_size_class, out_of_range, Result, error, ok, Pool, size_max, max_log_size,
}

-- The records that a configuration asks for.
abbrev pub total_count : List SizeClassConfig → ℕ
total_count [] = 0
total_count (entry ∷ config) = entry.count + total_count config

abbrev pub AllValid : List SizeClassConfig → Type 0
AllValid [] = Unit
AllValid (entry ∷ config) = (0 < entry.count) × (entry.log_size ≤ max_log_size) × AllValid config

abbrev pub SomeInvalid : List SizeClassConfig → Type 0
SomeInvalid [] = ⊥
SomeInvalid (entry ∷ config) =
    ((entry.count ≡ 0) ⊎ (max_log_size < entry.log_size)) ⊎ SomeInvalid config

-- A size class is in a configuration.
abbrev pub Has : ℕ → List SizeClassConfig → Type 0
Has log_size [] = ⊥
Has log_size (entry ∷ config) = (entry.log_size ≡ log_size) ⊎ Has log_size config

abbrev pub Distinct : List SizeClassConfig → Type 0
Distinct [] = Unit
Distinct (entry ∷ config) = (Has entry.log_size config → ⊥) × Distinct config

abbrev pub Repeats : List SizeClassConfig → Type 0
Repeats [] = ⊥
Repeats (entry ∷ config) = Has entry.log_size config ⊎ Repeats config

-- Why a configuration is refused, where the vector holds `max_records` at most. The index outside
-- `ranges_` never happens.
abbrev pub Refused : ℕ → List SizeClassConfig → PoolError → Type 0
Refused max_records config no_size_class = config ≡ []
Refused max_records config invalid_size_class = SomeInvalid config
Refused max_records config too_many_records = size_max < total_count config
Refused max_records config duplicate_size_class = Repeats config
Refused max_records config too_long = max_records < total_count config
Refused max_records config out_of_range = ⊥

module _ {A : Type 0} where
  abbrev pub Verdict : ℕ → List SizeClassConfig → Result PoolError (Pool A) → Type 0
  Verdict max_records config (error e) = Refused max_records config e
  Verdict max_records config (ok pool) =
      AllValid config
      × (total_count config ≤ size_max)
      × (total_count config ≤ max_records)
      × Distinct config
      × (pool.size ≡ total_count config)
