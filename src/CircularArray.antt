-- ===== src/CircularArray.antt =====
-- src/circular_array.h: a power-of-two array of slots, read and written at logical indices.
-- A buffer is named by its number in the pool, so a pointer is an `Option ℕ`. The slots are a map
-- from physical indices; `index` stays below `size`.
pub mod Slots
use lock_free_deque.Prelude.{ℕ, ◌-◌, ◌^◌, bit_and, Option, none, some, update, ltb, if◌then◌else◌}

-- `class CircularArray`. The mark is the lowest index that `store` was given; `none` is the
-- maximal `std::uint64_t`, a value above every logical index.
pub record CircularArray (A : Type 0) : Type 0 where
  pub log_size : ℕ
  pub segment : ℕ → A
  pub low_water_mark : Option ℕ
  pub prev : Option ℕ

-- `std::min` on marks.
abbrev pub min_mark : Option ℕ → Option ℕ → Option ℕ
min_mark none m = m
min_mark (some i) none = some i
min_mark (some i) (some j) = if ltb j i then some j else some i

module _ {A : Type 0} where
  -- The constructor. Every slot starts with a default `T`.
  abbrev pub new_array : A → ℕ → CircularArray A
  new_array zero_value log_size = record {
    log_size = log_size;
    segment = λ i. zero_value;
    low_water_mark = none;
    prev = none;
  }

  abbrev pub size : CircularArray A → ℕ
  size c = 2 ^ c.log_size

  -- `i & (size() - 1)`
  unfoldable pub index : CircularArray A → ℕ → ℕ
  index c i = bit_and i (size c - 1)

  unfoldable pub load : CircularArray A → ℕ → A
  load c i = c.segment (index c i)

  unfoldable pub store_no_mark : CircularArray A → ℕ → A → CircularArray A
  store_no_mark c i value = record c { segment = update c.segment (index c i) value }

  abbrev pub store : CircularArray A → ℕ → A → CircularArray A
  store c i value = record (store_no_mark c i value) {
    low_water_mark = min_mark c.low_water_mark (some i);
  }

  abbrev pub reset_for_reuse : CircularArray A → CircularArray A
  reset_for_reuse c = record c { low_water_mark = none; prev = none }
