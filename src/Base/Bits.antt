-- ===== src/Base/Bits.antt =====
-- Exclusive or, digit by digit.
pub use Prim.Native.Nat.{bit_xor}
use Prim.Native.Nat.{
  ℕ, zero, suc, ◌+◌, ◌*◌, ◌/◌, ◌%◌, ◌^◌, ◌≤◌, ◌<◌, bit_xor, digits, differ, bit_xor-bitwise,
}
use mathlib.Core.Path.{◌≡◌, refl}
use native.Mathlib.Omega.{arith}

abbrev xor_digits : ℕ → ℕ → ℕ → ℕ
xor_digits n a b = digits (λ b. b) differ n a b

xor_digits_fuel : (n m a b : ℕ) → a ≤ n → a ≤ m → xor_digits n a b ≡ xor_digits m a b
xor_digits_fuel zero zero a b p q = refl
xor_digits_fuel zero (suc m) zero b p q = refl
xor_digits_fuel zero (suc m) (suc a) b p q = absurd (omega arith)
xor_digits_fuel (suc n) zero zero b p q = refl
xor_digits_fuel (suc n) zero (suc a) b p q = absurd (omega arith)
xor_digits_fuel (suc n) (suc m) zero b p q = refl
xor_digits_fuel (suc n) (suc m) (suc a) b p q =
    omega (arith, xor_digits_fuel n m (suc a / 2) (b / 2) (omega arith) (omega arith))

differ-zero : (y : ℕ) → differ 0 y ≡ y
differ-zero y = refl

zero-bit_xor : (b : ℕ) → bit_xor 0 b ≡ b
zero-bit_xor b = bit_xor-bitwise 0 b

bit_xor_step : (a b : ℕ) → bit_xor a b ≡ bit_xor (a / 2) (b / 2) * 2 + differ (a % 2) (b % 2)
bit_xor_step zero b = omega (arith, zero-bit_xor b, zero-bit_xor (b / 2))
bit_xor_step (suc a) b = omega (
  arith,
  bit_xor-bitwise (suc a) b,
  bit_xor-bitwise (suc a / 2) (b / 2),
  xor_digits_fuel a (suc a / 2) (suc a / 2) (b / 2) (omega arith) (omega arith),
)

-- Of two digits.
differ-digits : (x y : ℕ) → x < 2 → y < 2 → (differ x y < 2) × (differ x y ≡ 0 → x ≡ y)
differ-digits zero y p q = (q, λ e. omega (arith, e))
differ-digits (suc x) zero p q = (p, λ e. omega (arith, e))
differ-digits (suc zero) (suc zero) p q = (omega arith, λ e. refl)
differ-digits (suc zero) (suc (suc y)) p q = absurd (omega arith)
differ-digits (suc (suc x)) (suc y) p q = absurd (omega arith)

eq_fuel : (n a b : ℕ) → a ≤ n → bit_xor a b ≡ 0 → a ≡ b
eq_fuel zero zero b h e = omega (arith, zero-bit_xor b, e)
eq_fuel zero (suc a) b h e = absurd (omega arith)
eq_fuel (suc n) zero b h e = omega (arith, zero-bit_xor b, e)
eq_fuel (suc n) (suc a) b h e =
    let step = bit_xor_step (suc a) b in
    let bits = differ-digits (suc a % 2) (b % 2) (omega arith) (omega arith) in
    let halves = eq_fuel n (suc a / 2) (b / 2) (omega arith) (omega (arith, step, e)) in
    omega (arith, halves, bits.1 (omega (arith, step, e)))

-- Only equal numbers cancel.
pub bit_xor-eq_zero : (a b : ℕ) → bit_xor a b ≡ 0 → a ≡ b
bit_xor-eq_zero a b = eq_fuel a a b (omega arith)

pub bit_xor-lt : (k a b : ℕ) → a < 2 ^ k → b < 2 ^ k → bit_xor a b < 2 ^ k
bit_xor-lt zero a b p q = let none : a ≡ 0 = omega arith in rw none (omega (arith, zero-bit_xor b))
bit_xor-lt (suc k) a b p q =
    let double : 2 ^ suc k ≡ 2 * 2 ^ k = omega arith in
    let step = bit_xor_step a b in
    let bits = differ-digits (a % 2) (b % 2) (omega arith) (omega arith) in
    let half = bit_xor-lt k (a / 2) (b / 2) (omega (arith, double)) (omega (arith, double)) in
    omega (arith, step, bits.0, half, double)
