-- ===== src/Deque/State.antt =====
-- The shared memory of src/work_stealing_deque.h, and where its threads can stand in the code.
-- Indices are integers without a bound: they must not overflow (README.md). `top_` starts at 0 and
-- only grows, so it is a natural number; `bottom_` is -1 for a moment when a pop finds nothing.
use lock_free_deque.Prelude.{ℕ, List, Option}
use lock_free_deque.Prelude.Int.{ℤ}
use lock_free_deque.StealResult.{StealResult, PushResult}
use lock_free_deque.CircularArray.{CircularArray}

-- `Record::state`: kAvailable, and kOwned by this deque or lent to another user of the pool. The
-- code cannot tell the last two apart: it only ever compares a flag with kAvailable.
pub data Flag : Type 0 where
  available owned lent : Flag

-- `BufferPool::SizeClassRange`
pub record SizeClassRange : Type 0 where
  pub begin : ℕ
  pub count : ℕ

-- Where the owner stands, a shared access at a time, with the live locals: `x` the value, `b`, `t`
-- and `a` as in the code, `d` the destination of a copy, `i` a loop's counter.
pub data OwnerPc (A : Type 0) : Type 0 where
  idle : OwnerPc A
  push_start : (x : A) → OwnerPc A
  push_refresh : (x : A) (b : ℤ) (a : ℕ) → OwnerPc A  -- before the load of `top_`
  push_acquire : (x : A) (b : ℤ) (t a i left : ℕ) → OwnerPc A  -- in the scan of `try_acquire`
  push_copy : (x : A) (b : ℤ) (a d i : ℕ) → OwnerPc A  -- in the loop of `grow_into`
  push_publish : (x : A) (b : ℤ) (d : ℕ) → OwnerPc A
  push_store : (x : A) (b : ℤ) (a : ℕ) → OwnerPc A
  push_bottom : (x : A) (b : ℤ) → OwnerPc A
  pop_start : OwnerPc A
  pop_refresh : (b : ℤ) (a : ℕ) → OwnerPc A  -- before the load of `top_`
  pop_empty : (t : ℕ) → OwnerPc A
  pop_load : (b : ℤ) (t a : ℕ) → OwnerPc A
  pop_cas : (x : A) (t : ℕ) → OwnerPc A
  pop_won : (x : A) (t : ℕ) → OwnerPc A
  pop_lost : (t : ℕ) → OwnerPc A
  shrink_start : (x : A) (b : ℤ) (t : ℕ) → OwnerPc A
  shrink_copy : (x : A) (b : ℤ) (a d i : ℕ) → OwnerPc A  -- in the last loop of `shrink`
  shrink_publish : (x : A) (b : ℤ) (a d : ℕ) → OwnerPc A
  shrink_shift : (x : A) (b : ℤ) (a d : ℕ) → OwnerPc A
  shrink_snapshot : (x : A) (b : ℤ) (a d : ℕ) → OwnerPc A
  shrink_cas : (x : A) (b : ℤ) (a d snapshot : ℕ) → OwnerPc A
  shrink_restore : (x : A) (b : ℤ) (a d : ℕ) → OwnerPc A
  shrink_release : (x : A) (discarded d : ℕ) → OwnerPc A
  fault : OwnerPc A  -- a null pointer was followed

-- Where a thief stands in `steal`.
pub data ThiefPc (A : Type 0) : Type 0 where
  idle : ThiefPc A
  start : ThiefPc A
  got_top : (t : ℕ) → ThiefPc A
  got_array : (t old_array : ℕ) → ThiefPc A
  got_bottom : (t old_array : ℕ) (b : ℤ) → ThiefPc A
  recheck : (t old_array a : ℕ) → ThiefPc A  -- the modulus is 0
  reading : (t a : ℕ) → ThiefPc A  -- before the speculative load of the slot
  claiming : (t : ℕ) (x : A) → ThiefPc A  -- before the CAS on `top_`

-- A call that has returned, with its argument and its result.
pub data Event (A : Type 0) : Type 0 where
  push_returned : (x : A) → PushResult → Event A
  pop_returned : Option A → Event A
  steal_returned : StealResult A → Event A

-- The pool's `ranges_` and records, the members of the deque, the threads, and the calls that have
-- returned, the latest first.
pub record Machine (A : Type 0) : Type 0 where
  pub ranges : List SizeClassRange
  pub arrays : ℕ → CircularArray A
  pub flags : ℕ → Flag
  pub active : ℕ
  pub bottom : ℤ
  pub top : ℕ
  pub cached_top : ℕ
  pub min_log_size : ℕ
  pub owner : OwnerPc A
  pub thieves : ℕ → ThiefPc A
  pub trace : List (Event A)
