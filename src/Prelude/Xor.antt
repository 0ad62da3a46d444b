-- ===== src/Prelude/Xor.antt =====
-- Only equal numbers have the exclusive or 0, and it needs no more digits than they.
use Prim.Native.Nat.{ℕ, zero, suc, ◌/◌, ◌%◌, ◌^◌, ◌≤◌, ◌<◌, differ, bit_xor}
use mathlib.Core.Path.{◌≡◌, refl}
use native.Mathlib.Nat.{pow-suc}
use native.Mathlib.Omega.{arith}
use lock_free_deque.Prelude.Bits.{zero-bit_xor, bit_xor-suc}

same_digit : (x y : ℕ) → x < 2 → y < 2 → differ x y ≡ 0 → x ≡ y
same_digit zero y p q e = omega arith
same_digit (suc zero) zero p q e = e
same_digit (suc zero) (suc zero) p q e = refl
same_digit (suc zero) (suc (suc y)) p q e = absurd (omega arith)
same_digit (suc (suc x)) y p q e = absurd (omega arith)

digit : (x y : ℕ) → x < 2 → y < 2 → differ x y < 2
digit zero y p q = q
digit (suc zero) zero p q = p
digit (suc zero) (suc zero) p q = omega arith
digit (suc zero) (suc (suc y)) p q = absurd (omega arith)
digit (suc (suc x)) y p q = absurd (omega arith)

same_number : (n a b : ℕ) → a ≤ n → bit_xor a b ≡ 0 → a ≡ b
same_number n zero b le e = omega (arith, zero-bit_xor b)
same_number zero (suc a) b le e = absurd (omega arith)
same_number (suc n) (suc a) b le e =
    let halves = same_number n (suc a / 2) (b / 2) (omega arith) (omega (arith, bit_xor-suc a b)) in
    let low =
      same_digit (suc a % 2) (b % 2) (omega arith) (omega arith) (omega (arith, bit_xor-suc a b)) in
    omega (arith, halves, low)

-- Only equal numbers have no digit in which they differ.
pub bit_xor_zero : (a b : ℕ) → bit_xor a b ≡ 0 → a ≡ b
bit_xor_zero a b e = same_number a a b (omega arith) e

pub bit_xor-lt : (k a b : ℕ) → a < 2 ^ k → b < 2 ^ k → bit_xor a b < 2 ^ k
bit_xor-lt k zero b p q = omega (arith, zero-bit_xor b)
bit_xor-lt zero (suc a) b p q = absurd (omega arith)
bit_xor-lt (suc k) (suc a) b p q = omega (
  arith,
  bit_xor-suc a b,
  pow-suc 2 k,
  bit_xor-lt k (suc a / 2) (b / 2) (omega (arith, pow-suc 2 k)) (omega (arith, pow-suc 2 k)),
  digit (suc a % 2) (b % 2) (omega arith) (omega arith),
)
