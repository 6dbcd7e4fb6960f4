-- ===== src/Crypto/Bits.antt =====
-- When `|` and `^` of natural numbers are 0.
use Prim.Native.Nat.{
  ℕ, zero, suc, ◌+◌, ◌*◌, ◌/◌, ◌%◌, ◌≤◌, ◌<◌, max, differ, bit_or, bit_xor, digits, bit_or-bitwise,
  bit_xor-bitwise,
}
use mathlib.Core.Path.{◌≡◌, refl}
use mathlib.Core.Logic.{◌↔◌}
use native.Mathlib.Omega.{arith}

-- An operation on binary digits that leaves the second number where the first has run out.
module _ (f : ℕ → ℕ → ℕ) (unit : (y : ℕ) → f 0 y ≡ y) where
  abbrev by_digits : ℕ → ℕ → ℕ → ℕ
  by_digits n a b = digits (λ b. b) f n a b

  by_digits_fuel : (n m a b : ℕ) → a ≤ n → a ≤ m → by_digits n a b ≡ by_digits m a b
  by_digits_fuel zero zero a b p q = refl
  by_digits_fuel zero (suc m) zero b p q = refl
  by_digits_fuel zero (suc m) (suc a) b p q = absurd (omega arith)
  by_digits_fuel (suc n) zero zero b p q = refl
  by_digits_fuel (suc n) zero (suc a) b p q = absurd (omega arith)
  by_digits_fuel (suc n) (suc m) zero b p q = refl
  by_digits_fuel (suc n) (suc m) (suc a) b p q =
      omega (arith, by_digits_fuel n m (suc a / 2) (b / 2) (omega arith) (omega arith))

  by_digits-step :
      (a b : ℕ) → by_digits a a b ≡ by_digits (a / 2) (a / 2) (b / 2) * 2 + f (a % 2) (b % 2)
  by_digits-step zero b = omega (arith, unit (b % 2))
  by_digits-step (suc a) b =
      omega (arith, by_digits_fuel a (suc a / 2) (suc a / 2) (b / 2) (omega arith) (omega arith))

bit_or-step : (a b : ℕ) → bit_or a b ≡ bit_or (a / 2) (b / 2) * 2 + max (a % 2) (b % 2)
bit_or-step a b = omega (
  arith,
  bit_or-bitwise a b,
  bit_or-bitwise (a / 2) (b / 2),
  by_digits-step max (λ y. omega arith) a b,
)

bit_xor-step : (a b : ℕ) → bit_xor a b ≡ bit_xor (a / 2) (b / 2) * 2 + differ (a % 2) (b % 2)
bit_xor-step a b = omega (
  arith,
  bit_xor-bitwise a b,
  bit_xor-bitwise (a / 2) (b / 2),
  by_digits-step differ (λ y. refl) a b,
)

differ_digits : (x y : ℕ) → x < 2 → y < 2 → differ x y ≡ 0 → x ≡ y
differ_digits zero zero p q h = refl
differ_digits zero (suc y) p q h = absurd (omega arith)
differ_digits (suc x) zero p q h = absurd (omega arith)
differ_digits (suc zero) (suc zero) p q h = refl
differ_digits (suc (suc x)) (suc y) p q h = absurd (omega arith)
differ_digits (suc zero) (suc (suc y)) p q h = absurd (omega arith)

differ_self : (x : ℕ) → differ x x ≡ 0
differ_self zero = refl
differ_self (suc x) = differ_self x

or_zeros : (a b : ℕ) → (a ≡ 0) × (b ≡ 0) → bit_or a b ≡ 0
or_zeros a b h = rw (h.0, h.1) refl

or_below : (k a b : ℕ) → a + b ≤ k → bit_or a b ≡ 0 → (a ≡ 0) × (b ≡ 0)
or_below zero a b h e = omega arith
or_below (suc k) a b h e =
    let step = bit_or-step a b in
    let halves = or_below k (a / 2) (b / 2) (omega arith) (omega arith) in omega arith

pub bit_or-eq-zero : (a b : ℕ) → (bit_or a b ≡ 0) ↔ ((a ≡ 0) × (b ≡ 0))
bit_or-eq-zero a b = (or_below (a + b) a b (omega arith), or_zeros a b)

xor_below : (k a b : ℕ) → a + b ≤ k → bit_xor a b ≡ 0 → a ≡ b
xor_below zero a b h e = omega arith
xor_below (suc k) a b h e =
    let step = bit_xor-step a b in
    let halves = xor_below k (a / 2) (b / 2) (omega arith) (omega arith) in
    let digits = differ_digits (a % 2) (b % 2) (omega arith) (omega arith) (omega arith) in
    omega arith

same_below : (k a : ℕ) → a ≤ k → bit_xor a a ≡ 0
same_below zero zero h = refl
same_below zero (suc a) h = absurd (omega arith)
same_below (suc k) a h =
    omega (arith, bit_xor-step a a, differ_self (a % 2), same_below k (a / 2) (omega arith))

-- Numbers differ in no digit exactly when they are the same.
pub bit_xor-eq-zero : (a b : ℕ) → (bit_xor a b ≡ 0) ↔ (a ≡ b)
bit_xor-eq-zero a b =
    (xor_below (a + b) a b (omega arith), λ e. rw e (same_below b b (omega arith)))
