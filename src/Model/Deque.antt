-- ===== src/Model/Deque.antt =====
-- The functions of model/deque_model.c, one access at a time. A value is an `int`. `top` is never
-- negative, and neither is an index at which a slot is read or written.
use lock_free_deque.Prelude.{
  ℕ, zero, suc, ◌+◌, ◌-◌, ◌%◌, ◌^◌, bit_and, Option, none, some, Bool, true, false, not, ltb, ◌==◌,
  if◌then◌else◌,
}
use lock_free_deque.Prelude.Int.{
  ℤ, pos, negsuc, ◌+ℤ◌, ◌-ℤ◌, is_negative, is_positive, pos_part, to_u64,
}
use lock_free_deque.Model.Program.{
  Array, small, large, DequeName, load_active, load_bottom, load_top, store_active, store_bottom,
  cas_on_top, load_slot, store_slot, cas_owned, store_owned, load_mark, store_mark, store_prev,
  load_cached_top, store_cached_top, Program, returns, ◌>>=◌, ◌>>◌, perform, assert,
}

-- `EMPTY`, `ABORT`, `NO_BUFFER`, and the value of a slot that nothing was stored in.
abbrev pub empty : ℤ
empty = negsuc 0

abbrev pub abort : ℤ
abort = negsuc 1

abbrev pub no_buffer : ℤ
no_buffer = negsuc 2

abbrev pub uninitialized : ℤ
uninitialized = negsuc 98

-- `INT64_MAX`
abbrev pub int64_max : ℕ
int64_max = 9223372036854775807

-- `array->log_size`
abbrev pub log_size : Array → ℕ
log_size small = 2
log_size large = 3

abbrev pub same_array : Array → Array → Bool
same_array small small = true
same_array small large = false
same_array large small = false
same_array large large = true

abbrev pub capacity : Array → ℕ
capacity array = 2 ^ log_size array

abbrev pub slot_load : Array → ℕ → Program ℤ
slot_load array i = perform (load_slot array (bit_and i (capacity array - 1)))

abbrev pub slot_store_no_mark : Array → ℕ → ℤ → Program (Unit {0})
slot_store_no_mark array i value = perform (store_slot array (bit_and i (capacity array - 1)) value)

abbrev pub slot_store : Array → ℕ → ℤ → Program (Unit {0})
slot_store array i value = do
  slot_store_no_mark array i value
  low_water_mark ← perform (load_mark array)
  if ltb i low_water_mark then perform (store_mark array i) else returns tt

-- The end of `try_acquire`, after its compare-and-swap on `record->owned`.
abbrev pub acquired : Array → Bool → Program (Option Array)
acquired array true = do
  perform (store_prev array none)
  perform (store_mark array int64_max)
  returns (some array)
acquired array false = returns none

abbrev pub try_acquire : ℕ → Program (Option Array)
try_acquire size = if size == 3 then perform (cas_owned large) >>= acquired large else returns none

abbrev pub release_array : Array → Program (Unit {0})
release_array array = do perform (store_prev array none); perform (store_owned array false)

-- The loop of `grow_into` and of `shrink_into`, from index `i` on with `n` values to go.
abbrev pub copy : Array → Array → ℕ → ℕ → Program (Unit {0})
copy source destination i zero = returns tt
copy source destination i (suc n) = do
  value ← slot_load source i
  slot_store_no_mark destination i value
  copy source destination (i + 1) n

abbrev pub grow_into : Array → Array → ℤ → ℕ → Program Array
grow_into source destination bottom top = do
  assert (not (same_array destination source))
  assert (log_size destination == log_size source + 1)
  perform (store_prev destination (some source))
  copy source destination top (pos_part (bottom -ℤ pos top))
  returns destination

abbrev pub cas_top : DequeName → ℕ → ℕ → Program Bool
cas_top deque expected desired = perform (cas_on_top deque expected desired)

-- `b - t >= capacity(array) - 1`
abbrev pub is_full : Array → ℤ → ℕ → Bool
is_full array b t = not (is_negative (b -ℤ pos t -ℤ pos (capacity array - 1)))

-- The end of `push_bottom`, where the array has room.
abbrev pub place : DequeName → Array → ℤ → ℤ → Program ℤ
place deque array b value = do
  slot_store array (to_u64 b) value
  perform (store_bottom deque (b +ℤ pos 1))
  returns (pos 0)

-- The part of `push_bottom` that acquires a larger array.
abbrev pub place_in_larger : DequeName → Array → ℤ → ℕ → ℤ → Option Array → Program ℤ
place_in_larger deque array b t value none = returns no_buffer
place_in_larger deque array b t value (some destination) = do
  grown ← grow_into array destination b t
  perform (store_active deque grown)
  place deque grown b value

-- The part of `push_bottom` that loads `top`.
abbrev pub refresh : DequeName → Array → ℤ → ℤ → Program ℤ
refresh deque array b value = do
  t ← perform (load_top deque)
  perform (store_cached_top deque t)
  if is_full array b t
      then try_acquire (log_size array + 1) >>= place_in_larger deque array b t value
      else place deque array b value

abbrev pub push_bottom : DequeName → ℤ → Program ℤ
push_bottom deque value = do
  b ← perform (load_bottom deque)
  array ← perform (load_active deque)
  cached_top ← perform (load_cached_top deque)
  if is_full array b cached_top then refresh deque array b value else place deque array b value

-- The part of `steal` after `size % capacity(array) == 0`.
abbrev pub recheck : DequeName → ℕ → Array → Array → Program ℤ
recheck deque t old_array array = do
  top_snapshot ← perform (load_top deque)
  if not (same_array array old_array)
      then returns abort
      else if not (t == top_snapshot)
      then returns abort
      else returns empty

-- The part of `steal` that reads the slot and claims it.
abbrev pub claim : DequeName → ℕ → ℤ → Program ℤ
claim deque t value = do won ← cas_top deque t (t + 1); if won then returns value else returns abort

abbrev pub take : DequeName → ℕ → Array → Program ℤ
take deque t array = do value ← slot_load array t; claim deque t value

-- The tests of `steal` on `size`.
abbrev pub judge : DequeName → ℕ → Array → ℤ → Array → Program ℤ
judge deque t old_array b array =
    if is_positive (b -ℤ pos t)
    then if pos_part (b -ℤ pos t) % capacity array == 0
      then recheck deque t old_array array
      else take deque t array
    else returns empty

abbrev pub steal : DequeName → Program ℤ
steal deque = do
  t ← perform (load_top deque)
  old_array ← perform (load_active deque)
  b ← perform (load_bottom deque)
  array ← perform (load_active deque)
  judge deque t old_array b array
