-- ===== src/Deque/Invariant/Tests.antt =====
-- The tests of src/work_stealing_deque.h on integers, read as orders of natural numbers.
use lock_free_deque.Prelude.{
  ℕ, ◌+◌, ◌-◌, ◌%◌, ◌*◌, ◌≤◌, ◌<◌, ◌≡◌, true, false, ap, ◌∙◌, ◌==◌, ==_iff, arith,
}
use lock_free_deque.Prelude.Int.{ℤ, pos, sub_ℕ, ◌-ℤ◌, is_positive, is_negative, pos_part}
use lock_free_deque.CircularArray.{CircularArray, size}
use lock_free_deque.CircularArray.Slots.{size-pos}
use lock_free_deque.Deque.Owner.{is_full, is_sparse}

module _ {A : Type 0} (c : CircularArray A) (b : ℤ) (hi t : ℕ) (e : b ≡ pos hi) (le : t ≤ hi) where
  pub is_full-false : is_full c b t ≡ false → hi + 1 < t + size c
  is_full-false h = ground (arith, size-pos c)

  pub is_full-true : is_full c b t ≡ true → t + size c ≤ hi + 1
  is_full-true h = ground (arith, size-pos c)

  pub is_sparse-true :
      (low : ℕ) → is_sparse c low b t ≡ true → (low < c.log_size) × (4 * (hi - t) + 4 ≤ size c)
  is_sparse-true low h = ground (arith, size-pos c)

pub is_positive_iff-lt : (t hi : ℕ) → is_positive (pos hi -ℤ pos t) ≡ true → t < hi
is_positive_iff-lt t hi h = ground arith

pub not-is_positive : (b : ℤ) (t hi : ℕ) → b ≡ pos hi → is_positive (b -ℤ pos t) ≡ false → hi ≤ t
not-is_positive b t hi e h = ground arith

-- `bottom_` one below the end, while a pop is under way.
pub positive-pred : (t hi : ℕ) → is_positive (sub_ℕ hi 1 -ℤ pos t) ≡ true → t < hi
positive-pred t hi h = ground arith

pub negative-pred :
    (b : ℤ) (t hi : ℕ) → b ≡ sub_ℕ hi 1 → t ≤ hi → is_negative (b -ℤ pos t) ≡ true → t ≡ hi
negative-pred b t hi e le h = ground arith

pub not-negative-pred :
    (b : ℤ) (t hi : ℕ)
    → b ≡ sub_ℕ hi 1
    → is_negative (b -ℤ pos t) ≡ false
    → (t < hi) × (b ≡ pos (hi - 1))
not-negative-pred b t hi e h = ground arith

pub positive-lt : (b : ℤ) (t n : ℕ) → b ≡ pos n → is_positive (b -ℤ pos t) ≡ true → t < n
positive-lt b t n e h = ground arith

distance : (b : ℤ) (t n : ℕ) → b ≡ pos (t + n) → pos_part (b -ℤ pos t) ≡ n
distance b t n e = ground arith

pub shift_is_whole :
    (b : ℤ) (t n : ℕ) → 0 < n → b ≡ pos (t + n) → (pos_part (b -ℤ pos t) % n == 0) ≡ true
shift_is_whole b t n p e =
    (==_iff (pos_part (b -ℤ pos t) % n) 0).1
      (ap (λ (k : ℕ). k % n) (distance b t n e) ∙ grind (arith, p))
