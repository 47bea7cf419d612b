-- ===== src/Prelude/Bits.antt =====
-- When an exclusive or, and an or, of binary numbers is zero.
use Prim.Native.Nat.{
  ℕ, zero, suc, ◌/◌, ◌%◌, ◌≤◌, max, bit_or, bit_xor, digits, differ, bit_or-bitwise,
  bit_xor-bitwise,
}
use mathlib.Core.Path.{◌≡◌, refl, sym, ◌∙◌}
use native.Mathlib.Omega.{arith}

differ-zero : (a b : ℕ) → differ a b ≡ 0 → a ≡ b
differ-zero zero b h = omega (arith, h)
differ-zero (suc a) zero h = absurd (omega (arith, h))
differ-zero (suc a) (suc b) h = omega (arith, differ-zero a b h)

differ-same : (a : ℕ) → differ a a ≡ 0
differ-same zero = refl
differ-same (suc a) = differ-same a

abbrev xor_digits : ℕ → ℕ → ℕ → ℕ
xor_digits n a b = digits (λ b. b) differ n a b

abbrev or_digits : ℕ → ℕ → ℕ → ℕ
or_digits n a b = digits (λ b. b) max n a b

xor_digits-zero : (n a b : ℕ) → a ≤ n → xor_digits n a b ≡ 0 → a ≡ b
xor_digits-zero zero a b le h = omega arith
xor_digits-zero (suc n) zero b le h = omega arith
xor_digits-zero (suc n) (suc a) b le h =
    let high : xor_digits n (suc a / 2) (b / 2) ≡ 0 = omega arith in
    let low : differ (suc a % 2) (b % 2) ≡ 0 = omega arith in
    omega (
      arith,
      xor_digits-zero n (suc a / 2) (b / 2) (omega arith) high,
      differ-zero (suc a % 2) (b % 2) low,
    )

xor_digits-same : (n a : ℕ) → a ≤ n → xor_digits n a a ≡ 0
xor_digits-same zero a le = omega arith
xor_digits-same (suc n) zero le = refl
xor_digits-same (suc n) (suc a) le =
    omega (arith, xor_digits-same n (suc a / 2) (omega arith), differ-same (suc a % 2))

or_digits-zero : (n a b : ℕ) → a ≤ n → or_digits n a b ≡ 0 → (a ≡ 0) × (b ≡ 0)
or_digits-zero zero a b le h = (omega arith, omega arith)
or_digits-zero (suc n) zero b le h = (refl, h)
or_digits-zero (suc n) (suc a) b le h =
    let high : or_digits n (suc a / 2) (b / 2) ≡ 0 = omega arith in
    let low : max (suc a % 2) (b % 2) ≡ 0 = omega arith in
    absurd (omega (arith, or_digits-zero n (suc a / 2) (b / 2) (omega arith) high, low))

pub bit_xor-zero : (a b : ℕ) → bit_xor a b ≡ 0 → a ≡ b
bit_xor-zero a b h = xor_digits-zero a a b (omega arith) (sym (bit_xor-bitwise a b) ∙ h)

pub bit_xor-same : (a : ℕ) → bit_xor a a ≡ 0
bit_xor-same a = bit_xor-bitwise a a ∙ xor_digits-same a a (omega arith)

pub bit_or-zero : (a b : ℕ) → bit_or a b ≡ 0 → (a ≡ 0) × (b ≡ 0)
bit_or-zero a b h = or_digits-zero a a b (omega arith) (sym (bit_or-bitwise a b) ∙ h)
