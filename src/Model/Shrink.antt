-- ===== src/Model/Shrink.antt =====
-- The functions of model/deque_model.c that follow `prev` pointers, and the threads of the two owners.
-- A loop that would outrun its fuel, or follow a null pointer, fails.
use lock_free_deque.Prelude.{
  ℕ, zero, suc, ◌+◌, ◌/◌, Option, none, some, Bool, true, false, ◌&&◌, ltb, ◌==◌, if◌then◌else◌,
}
use lock_free_deque.Prelude.Int.{
  ℤ, pos, negsuc, ◌+ℤ◌, ◌-ℤ◌, is_negative, is_positive, pos_part, to_u64,
}
use lock_free_deque.Model.Program.{
  Array, DequeName, original, borrower, load_active, load_bottom, load_top, store_active,
  store_bottom, init_deque, load_mark, load_prev, store_mark, store_cached_top, Program, returns,
  fails, ◌>>=◌, ◌>>◌, perform, assert,
}
use lock_free_deque.Model.Deque.{
  empty, int64_max, log_size, same_array, capacity, slot_load, try_acquire, release_array, copy,
  cas_top, push_bottom,
}

-- `K`
abbrev pub shrink_factor : ℕ
shrink_factor = 4

-- `deque->min_log_size`
abbrev pub min_log_size : DequeName → ℕ
min_log_size original = 2
min_log_size borrower = 3

-- The first loop of `shrink_into`, with `n` rounds to go: the destination and the lowest mark.
abbrev pub descend : ℕ → Array → ℕ → Program (Array × ℕ)
descend zero destination low = returns (destination, low)
descend (suc n) destination low = perform (load_prev destination) >>= λ prev. elim prev [
  | none ↦ fails
  | some p ↦ perform (load_mark p) >>= λ mark. descend n p (if ltb mark low then mark else low)
]

-- `start` of `shrink_into`
abbrev pub copy_start : ℤ → ℕ → ℕ → ℕ
copy_start bottom top low =
    if low == int64_max then to_u64 bottom else if ltb low top then top else low

-- `shrink_into` after its first loop.
abbrev pub fill_smaller : Array → ℤ → ℕ → Array × ℕ → Program Array
fill_smaller source bottom top (destination, low) = do
  mark ← perform (load_mark destination)
  if ltb low mark then perform (store_mark destination low) else returns tt
  copy source destination (copy_start bottom top low)
      (pos_part (bottom -ℤ pos (copy_start bottom top low)))
  returns destination

abbrev pub shrink_into : Array → ℤ → ℕ → ℕ → Program Array
shrink_into source bottom top num_shrink = do
  low ← perform (load_mark source)
  found ← descend num_shrink source low
  fill_smaller source bottom top found

-- The condition of the loop in `perhaps_shrink`.
abbrev pub is_sparse : DequeName → ℤ → ℕ → Array → Bool
is_sparse deque b t cursor =
    ltb (min_log_size deque) (log_size cursor)
    && is_negative (b -ℤ pos t -ℤ pos (capacity cursor / shrink_factor))

-- The loop in `perhaps_shrink` that counts `num_shrink`.
abbrev pub count_shrink : ℕ → DequeName → ℤ → ℕ → Array → ℕ → Program ℕ
count_shrink zero deque b t cursor num_shrink = fails
count_shrink (suc fuel) deque b t cursor num_shrink =
    if is_sparse deque b t cursor
    then perform (load_prev cursor) >>= (λ prev. elim prev [
      | none ↦ returns num_shrink
      | some p ↦ count_shrink fuel deque b t p (num_shrink + 1)
    ])
    else returns num_shrink

-- The loop in `perhaps_shrink` that returns the arrays from `discarded` to `new_array`.
abbrev pub release_until : ℕ → Array → Array → Program (Unit {0})
release_until zero new_array discarded = fails
release_until (suc fuel) new_array discarded =
    if same_array discarded new_array
    then returns tt
    else perform (load_prev discarded) >>= λ next.
        release_array discarded
        >> elim next [ none ↦ fails | some p ↦ release_until fuel new_array p ]

-- `perhaps_shrink` once `num_shrink` is known. The fuel is the number of arrays.
abbrev pub shrink : DequeName → ℤ → ℕ → Array → ℕ → Program (Unit {0})
shrink deque b t array zero = returns tt
shrink deque b t array (suc n) = do
  new_array ← shrink_into array b t (suc n)
  perform (store_active deque new_array)
  perform (store_bottom deque (b +ℤ pos (capacity new_array)))
  top_snapshot ← perform (load_top deque)
  won ← cas_top deque top_snapshot (top_snapshot + capacity new_array)
  if won then returns tt else perform (store_bottom deque b)
  release_until 2 new_array array

abbrev pub perhaps_shrink : DequeName → ℤ → ℕ → Program (Unit {0})
perhaps_shrink deque b t = do
  array ← perform (load_active deque)
  num_shrink ← count_shrink 2 deque b t array 0
  shrink deque b t array num_shrink

-- The end of `pop_bottom` for the last value.
abbrev pub take_last : DequeName → ℕ → ℤ → Bool → Program ℤ
take_last deque t value won = do
  perform (store_bottom deque (pos (t + 1)))
  if won then returns value else returns empty

-- `pop_bottom` where the deque is not empty.
abbrev pub take_bottom : DequeName → ℤ → ℕ → ℤ → Program ℤ
take_bottom deque b t value =
    if is_positive (b -ℤ pos t)
    then perhaps_shrink deque b t >> returns value
    else cas_top deque t (t + 1) >>= take_last deque t value

abbrev pub pop_bottom : DequeName → Program ℤ
pop_bottom deque = do
  bottom ← perform (load_bottom deque)
  let b = bottom -ℤ pos 1
  array ← perform (load_active deque)
  perform (store_bottom deque b)
  t ← perform (load_top deque)
  perform (store_cached_top deque t)
  if is_negative (b -ℤ pos t)
      then perform (store_bottom deque (pos t)) >> returns empty
      else slot_load array (to_u64 b) >>= take_bottom deque b t

-- `release_chain`. The fuel is one more than the arrays in the chain.
abbrev pub release_chain : ℕ → Option Array → Program (Unit {0})
release_chain zero cursor = fails
release_chain (suc fuel) none = returns tt
release_chain (suc fuel) (some cursor) = do
  next ← perform (load_prev cursor)
  release_array cursor
  release_chain fuel next

-- `owner_results`
abbrev pub owner_main : Program (ℤ × ℤ × ℤ)
owner_main = do
  first ← pop_bottom original
  second ← pop_bottom original
  third ← pop_bottom original
  returns (first, second, third)

-- `pushed == 0`
abbrev pub is_zero : ℤ → Bool
is_zero (pos n) = n == 0
is_zero (negsuc n) = false

-- `borrower_main`, with the record that it has acquired: `borrower_acquired`.
abbrev pub lend_to : Option Array → Program Bool
lend_to none = returns false
lend_to (some record_) = do
  perform (init_deque borrower record_)
  pushed ← push_bottom borrower (pos 100)
  assert (is_zero pushed)
  returns true

abbrev pub borrower_main : Program Bool
borrower_main = try_acquire 3 >>= lend_to
