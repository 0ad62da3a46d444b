-- ===== src/Prelude/Bits.antt =====
-- The native operations on binary digits, one digit at a time, and what masks and the exclusive or
-- of two numbers amount to.
use Prim.Native.Nat.{
  ℕ, zero, suc, ◌+◌, ◌-◌, ◌*◌, ◌/◌, ◌%◌, ◌^◌, ◌≤◌, ◌<◌, min, differ, digits, bitwise, bit_and,
  bit_xor, bit_and-bitwise, bit_xor-bitwise,
}
use mathlib.Core.Path.{◌≡◌, refl, ap, sym, ◌∙◌}
use native.Mathlib.Nat.{
  mul_assoc, mod-lt, pow-suc, one-le-pow, div-add-mod, mul-add-mod_self_left, mod-eq_of_lt, mod-one,
}
use native.Mathlib.Omega.{arith}

-- An operation on digits, and what it does where the first number has run out of them.
module _ (rest : ℕ → ℕ) (op : ℕ → ℕ → ℕ) where
  -- A count of steps that covers the first number is as good as any other.
  steps_enough : (n m a b : ℕ) → a ≤ n → a ≤ m → digits rest op n a b ≡ digits rest op m a b
  steps_enough zero m (suc a) b p q = absurd (omega arith)
  steps_enough (suc n) zero (suc a) b p q = absurd (omega arith)
  steps_enough zero zero zero b p q = refl
  steps_enough zero (suc m) zero b p q = refl
  steps_enough (suc n) zero zero b p q = refl
  steps_enough (suc n) (suc m) zero b p q = refl
  steps_enough (suc n) (suc m) (suc a) b p q =
      ap (λ (high : ℕ). high * 2 + op (suc a % 2) (b % 2))
        (steps_enough n m (suc a / 2) (b / 2) (omega arith) (omega arith))

  -- The lowest digit apart.
  bitwise-suc :
      (a b : ℕ)
      → bitwise rest op (suc a) b ≡ bitwise rest op (suc a / 2) (b / 2) * 2 + op (suc a % 2) (b % 2)
  bitwise-suc a b =
      ap (λ (high : ℕ). high * 2 + op (suc a % 2) (b % 2))
        (steps_enough a (suc a / 2) (suc a / 2) (b / 2) (omega arith) (omega arith))

zero-bit_and : (b : ℕ) → bit_and 0 b ≡ 0
zero-bit_and b = bit_and-bitwise 0 b

pub bit_and-suc :
    (a b : ℕ) → bit_and (suc a) b ≡ bit_and (suc a / 2) (b / 2) * 2 + min (suc a % 2) (b % 2)
bit_and-suc a b =
    bit_and-bitwise (suc a) b
    ∙ bitwise-suc (λ y. 0) min a b
    ∙ ap (λ (high : ℕ). high * 2 + min (suc a % 2) (b % 2))
        (sym (bit_and-bitwise (suc a / 2) (b / 2)))

pub zero-bit_xor : (b : ℕ) → bit_xor 0 b ≡ b
zero-bit_xor b = bit_xor-bitwise 0 b

pub bit_xor-suc :
    (a b : ℕ) → bit_xor (suc a) b ≡ bit_xor (suc a / 2) (b / 2) * 2 + differ (suc a % 2) (b % 2)
bit_xor-suc a b =
    bit_xor-bitwise (suc a) b
    ∙ bitwise-suc (λ y. y) differ a b
    ∙ ap (λ (high : ℕ). high * 2 + differ (suc a % 2) (b % 2))
        (sym (bit_xor-bitwise (suc a / 2) (b / 2)))

and_bounded : (n a b : ℕ) → a ≤ n → bit_and a b ≤ b
and_bounded n zero b le = omega (arith, zero-bit_and b)
and_bounded zero (suc a) b le = absurd (omega arith)
and_bounded (suc n) (suc a) b le =
    ground (arith, bit_and-suc a b, and_bounded n (suc a / 2) (b / 2) (omega arith))

-- A mask bounds what it lets through.
pub bit_and-le : (a b : ℕ) → bit_and a b ≤ b
bit_and-le a b = and_bounded a a b (omega arith)

-- The remainder by an even number, from that of the half.
mod-double : (a m : ℕ) → 0 < m → a % (2 * m) ≡ a / 2 % m * 2 + a % 2
mod-double a m p =
    ap (λ (n : ℕ). n % (2 * m)) split
    ∙ mul-add-mod_self_left (2 * m) (a / 2 / m) (a / 2 % m * 2 + a % 2)
    ∙ mod-eq_of_lt (omega (arith, mod-lt (a / 2) p))
  where
    split : a ≡ 2 * m * (a / 2 / m) + (a / 2 % m * 2 + a % 2)
    split = omega (arith, div-add-mod (a / 2) m, mul_assoc 2 m (a / 2 / m))

-- `a & (2^k - 1)` is the remainder of `a` by `2^k`.
pub bit_and_mask : (k a : ℕ) → bit_and a (2 ^ k - 1) ≡ a % 2 ^ k
bit_and_mask zero a = omega (arith, bit_and-le a 0, mod-one a)
bit_and_mask (suc k) zero = omega (arith, zero-bit_and (2 ^ suc k - 1), one-le-pow (suc k) 2)
bit_and_mask (suc k) (suc a) = omega (
  arith,
  bit_and-suc a (2 ^ suc k - 1),
  ap (λ (half : ℕ). bit_and (suc a / 2) half) halved,
  bit_and_mask k (suc a / 2),
  ap (λ (m : ℕ). suc a % m) doubled,
  mod-double (suc a) (2 ^ k) (one-le-pow k 2 (omega arith)),
  one-le-pow k 2 (omega arith),
)
  where
    doubled : 2 ^ suc k ≡ 2 * 2 ^ k
    doubled = omega (arith, pow-suc 2 k)

    halved : (2 ^ suc k - 1) / 2 ≡ 2 ^ k - 1
    halved = omega (arith, pow-suc 2 k, one-le-pow k 2 (omega arith))
