-- ===== src/Base/Bits.antt =====
-- When `|` and `^` of two numbers are 0.
use Prim.Native.Nat.{
  ℕ, zero, suc, ◌+◌, ◌*◌, ◌/◌, ◌%◌, ◌≤◌, max, bit_or, bit_xor, digits, differ, bit_or-bitwise,
  bit_xor-bitwise,
}
use mathlib.Core.Path.{◌≡◌, refl, sym, ap, ◌∙◌}
use native.Mathlib.Omega.{arith}

module _ (z : ℕ → ℕ) (f : ℕ → ℕ → ℕ) where
  digits-zero : (count b : ℕ) → digits z f count 0 b ≡ z b
  digits-zero zero b = refl
  digits-zero (suc count) b = refl

  -- The recursion over the digits does not depend on its count of digits, if that is large enough.
  digits_count : (k l a b : ℕ) → a ≤ k → a ≤ l → digits z f k a b ≡ digits z f l a b
  digits_count k l zero b p q = digits-zero k b ∙ sym (digits-zero l b)
  digits_count zero l (suc a) b p q = absurd (omega arith)
  digits_count (suc k) zero (suc a) b p q = absurd (omega arith)
  digits_count (suc k) (suc l) (suc a) b p q =
      let ih = digits_count k l (suc a / 2) (b / 2) (omega arith) (omega arith) in
      ap (λ high. high * 2 + f (suc a % 2) (b % 2)) ih

bit_or_step :
    (a b : ℕ) → bit_or (suc a) b ≡ bit_or (suc a / 2) (b / 2) * 2 + max (suc a % 2) (b % 2)
bit_or_step a b = omega (
  arith,
  bit_or-bitwise (suc a) b,
  bit_or-bitwise (suc a / 2) (b / 2),
  digits_count (λ b. b) max a (suc a / 2) (suc a / 2) (b / 2) (omega arith) (omega arith),
)

pub bit_xor_step :
    (a b : ℕ) → bit_xor (suc a) b ≡ bit_xor (suc a / 2) (b / 2) * 2 + differ (suc a % 2) (b % 2)
bit_xor_step a b = omega (
  arith,
  bit_xor-bitwise (suc a) b,
  bit_xor-bitwise (suc a / 2) (b / 2),
  digits_count (λ b. b) differ a (suc a / 2) (suc a / 2) (b / 2) (omega arith) (omega arith),
)

differ-eq-zero : (x y : ℕ) → differ x y ≡ 0 → x ≡ y
differ-eq-zero zero y h = sym h
differ-eq-zero (suc x) zero h = absurd (omega arith)
differ-eq-zero (suc x) (suc y) h = ap suc (differ-eq-zero x y h)

differ_self : (x : ℕ) → differ x x ≡ 0
differ_self zero = refl
differ_self (suc x) = differ_self x

xor-eq-zero_fuel : (n a b : ℕ) → a ≤ n → bit_xor a b ≡ 0 → a ≡ b
xor-eq-zero_fuel n zero b h e = omega (arith, bit_xor-bitwise 0 b)
xor-eq-zero_fuel zero (suc a) b h e = absurd (omega arith)
xor-eq-zero_fuel (suc n) (suc a) b h e =
    let high : suc a / 2 ≡ b / 2 =
      xor-eq-zero_fuel n (suc a / 2) (b / 2) (omega arith) (omega (arith, bit_xor_step a b)) in
    let low : suc a % 2 ≡ b % 2 = differ-eq-zero _ _ (omega (arith, bit_xor_step a b)) in
    omega arith

pub bit_xor-eq-zero : (a b : ℕ) → bit_xor a b ≡ 0 → a ≡ b
bit_xor-eq-zero a b e = xor-eq-zero_fuel a a b (omega arith) e

xor_self_fuel : (n a : ℕ) → a ≤ n → bit_xor a a ≡ 0
xor_self_fuel n zero h = refl
xor_self_fuel zero (suc a) h = absurd (omega arith)
xor_self_fuel (suc n) (suc a) h = omega (
  arith,
  bit_xor_step a (suc a),
  xor_self_fuel n (suc a / 2) (omega arith),
  differ_self (suc a % 2),
)

pub bit_xor_self : (a : ℕ) → bit_xor a a ≡ 0
bit_xor_self a = xor_self_fuel a a (omega arith)

or-eq-zero_fuel : (n a b : ℕ) → a ≤ n → bit_or a b ≡ 0 → (a ≡ 0) × (b ≡ 0)
or-eq-zero_fuel n zero b h e = (refl, omega (arith, bit_or-bitwise 0 b))
or-eq-zero_fuel zero (suc a) b h e = absurd (omega arith)
or-eq-zero_fuel (suc n) (suc a) b h e =
    let ih = or-eq-zero_fuel n (suc a / 2) (b / 2) (omega arith) (omega (arith, bit_or_step a b)) in
    absurd (omega (arith, bit_or_step a b, ih))

pub bit_or-eq-zero : (a b : ℕ) → bit_or a b ≡ 0 → (a ≡ 0) × (b ≡ 0)
bit_or-eq-zero a b e = or-eq-zero_fuel a a b (omega arith) e
