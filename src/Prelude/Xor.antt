-- ===== src/Prelude/Xor.antt =====
-- Exclusive or at variables: its lowest digit, its bound, and that it loses nothing.
use Prim.Native.Nat.{
  ℕ, zero, suc, ◌+◌, ◌*◌, ◌/◌, ◌%◌, ◌^◌, ◌≤◌, ◌<◌, bit_xor, digits, differ, bit_xor-bitwise,
}
use mathlib.Core.Path.{◌≡◌, refl}
use native.Mathlib.Nat.{pow-suc}
use native.Mathlib.Omega.{arith}

differ-mod : (x y : ℕ) → x < 2 → y < 2 → differ x y ≡ (x + y) % 2
differ-mod zero y h k = omega arith
differ-mod (suc zero) zero h k = refl
differ-mod (suc zero) (suc zero) h k = refl
differ-mod (suc zero) (suc (suc y)) h k = absurd (omega arith)
differ-mod (suc (suc x)) y h k = absurd (omega arith)

-- The fuel of the digits does not matter once it is enough.
xor_fuel :
    (n m a b : ℕ) → a ≤ n → a ≤ m → digits (λ y. y) differ n a b ≡ digits (λ y. y) differ m a b
xor_fuel zero zero a b p q = refl
xor_fuel zero (suc m) zero b p q = refl
xor_fuel zero (suc m) (suc a) b p q = absurd (omega arith)
xor_fuel (suc n) zero zero b p q = refl
xor_fuel (suc n) zero (suc a) b p q = absurd (omega arith)
xor_fuel (suc n) (suc m) zero b p q = refl
xor_fuel (suc n) (suc m) (suc a) b p q =
    omega (arith, xor_fuel n m (suc a / 2) (b / 2) (omega arith) (omega arith))

zero-bit_xor : (b : ℕ) → bit_xor 0 b ≡ b
zero-bit_xor b = bit_xor-bitwise 0 b

pub bit_xor_step : (a b : ℕ) → bit_xor a b ≡ bit_xor (a / 2) (b / 2) * 2 + (a + b) % 2
bit_xor_step zero b = omega (arith, zero-bit_xor b, zero-bit_xor (b / 2))
bit_xor_step (suc a) b = omega (
  arith,
  bit_xor-bitwise (suc a) b,
  bit_xor-bitwise (suc a / 2) (b / 2),
  xor_fuel a (suc a / 2) (suc a / 2) (b / 2) (omega arith) (omega arith),
  differ-mod (suc a % 2) (b % 2) (omega arith) (omega arith),
)

-- Two words of `k` bits give a word of `k` bits.
pub bit_xor-lt : (k a b : ℕ) → a < 2 ^ k → b < 2 ^ k → bit_xor a b < 2 ^ k
bit_xor-lt zero zero b p q = omega (arith, zero-bit_xor b)
bit_xor-lt zero (suc a) b p q = absurd (omega arith)
bit_xor-lt (suc k) a b p q = omega (
  arith,
  bit_xor_step a b,
  pow-suc 2 k,
  bit_xor-lt k (a / 2) (b / 2) (omega (arith, pow-suc 2 k)) (omega (arith, pow-suc 2 k)),
)

-- Different words stay different under exclusive or with a third.
pub bit_xor_cancel_left : (k a b c : ℕ) → b < 2 ^ k → c < 2 ^ k → bit_xor a b ≡ bit_xor a c → b ≡ c
bit_xor_cancel_left zero a b c p q e = omega arith
bit_xor_cancel_left (suc k) a b c p q e = omega (
  arith,
  bit_xor_step a b,
  bit_xor_step a c,
  pow-suc 2 k,
  bit_xor_cancel_left k (a / 2) (b / 2) (c / 2) (omega (arith, pow-suc 2 k))
      (omega (arith, pow-suc 2 k)) (omega (arith, bit_xor_step a b, bit_xor_step a c)),
)

pub bit_xor_cancel_right : (k a b c : ℕ) → a < 2 ^ k → b < 2 ^ k → bit_xor a c ≡ bit_xor b c → a ≡ b
bit_xor_cancel_right zero a b c p q e = omega arith
bit_xor_cancel_right (suc k) a b c p q e = omega (
  arith,
  bit_xor_step a c,
  bit_xor_step b c,
  pow-suc 2 k,
  bit_xor_cancel_right k (a / 2) (b / 2) (c / 2) (omega (arith, pow-suc 2 k))
      (omega (arith, pow-suc 2 k)) (omega (arith, bit_xor_step a c, bit_xor_step b c)),
)
