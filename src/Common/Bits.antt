-- ===== src/Common/Bits.antt =====
-- Exclusive or at variables: its lowest digit, its range, and that it undoes itself.
use Prim.Native.Nat.{ℕ, zero, suc, ◌+◌, ◌-◌, ◌*◌, ◌/◌, ◌%◌, ◌^◌, ◌≤◌, ◌<◌}
use Prim.Native.Nat.{bit_xor, digits, bitwise, differ, bit_xor-bitwise}
use mathlib.Core.Path.{◌≡◌, refl, ap, ◌∙◌}
use native.Mathlib.Nat.{pow-suc}
use native.Mathlib.Omega.{arith}

-- The sum of two numbers digit by digit, which is what the native operation means.
abbrev xor_digits : ℕ → ℕ → ℕ → ℕ
xor_digits fuel a b = digits (λ y. y) differ fuel a b

spare_round : (fuel b a : ℕ) → a ≤ fuel → xor_digits (suc fuel) a b ≡ xor_digits fuel a b
spare_round fuel b zero small = spare_zero fuel b
  where
    spare_zero : (fuel b : ℕ) → xor_digits (suc fuel) zero b ≡ xor_digits fuel zero b
    spare_zero zero b = refl
    spare_zero (suc fuel) b = refl
spare_round zero b (suc a) small = absurd (omega arith)
spare_round (suc fuel) b (suc a) small =
    omega (arith, spare_round fuel (b / 2) (suc a / 2) (omega arith))

spare_rounds : (more a b fuel : ℕ) → fuel ≡ more + a → xor_digits fuel a b ≡ xor_digits a a b
spare_rounds zero a b fuel sum = ap (λ n. xor_digits n a b) (omega arith)
spare_rounds (suc more) a b fuel sum =
    let one_less : fuel ≡ suc (more + a) = omega arith in
    ap (λ n. xor_digits n a b) one_less
    ∙ spare_round (more + a) b a (omega arith)
    ∙ spare_rounds more a b (more + a) refl

differ_sum : (x y : ℕ) → x < 2 → y < 2 → differ x y ≡ (x + y) % 2
differ_sum zero zero p q = refl
differ_sum zero (suc zero) p q = refl
differ_sum (suc zero) zero p q = refl
differ_sum (suc zero) (suc zero) p q = refl
differ_sum (suc (suc x)) y p q = absurd (omega arith)
differ_sum zero (suc (suc y)) p q = absurd (omega arith)
differ_sum (suc zero) (suc (suc y)) p q = absurd (omega arith)

differ_digits : (a b : ℕ) → differ (a % 2) (b % 2) ≡ (a + b) % 2
differ_digits a b = omega (arith, differ_sum (a % 2) (b % 2) (omega arith) (omega arith))

xor_suc :
    (a b : ℕ)
    → bitwise (λ y. y) differ (suc a) b
      ≡ bitwise (λ y. y) differ (suc a / 2) (b / 2) * 2 + differ (suc a % 2) (b % 2)
xor_suc a b =
    let half = suc a / 2 in
    let fuel : xor_digits a half (b / 2) ≡ xor_digits half half (b / 2) =
      spare_rounds (a - half) half (b / 2) a (omega arith) in
    omega (arith, fuel)

pub bit_xor_step : (a b : ℕ) → bit_xor a b ≡ bit_xor (a / 2) (b / 2) * 2 + (a + b) % 2
bit_xor_step zero b = simp bit_xor-bitwise (omega arith)
bit_xor_step (suc a) b = rw (← differ_digits (suc a) b) (simp bit_xor-bitwise (xor_suc a b))

pub bit_xor-lt : (k a b : ℕ) → a < 2 ^ k → b < 2 ^ k → bit_xor a b < 2 ^ k
bit_xor-lt zero zero b p q = simp bit_xor-bitwise (omega arith)
bit_xor-lt zero (suc a) b p q = absurd (omega arith)
bit_xor-lt (suc k) a b p q = omega (
  arith,
  bit_xor_step a b,
  pow-suc 2 k,
  bit_xor-lt k (a / 2) (b / 2) (omega (arith, pow-suc 2 k)) (omega (arith, pow-suc 2 k)),
)

cancel_right_below : (n a b c : ℕ) → a ≤ n → b ≤ n → bit_xor a c ≡ bit_xor b c → a ≡ b
cancel_right_below zero a b c p q e = omega arith
cancel_right_below (suc n) a b c p q e = omega (
  arith,
  bit_xor_step a c,
  bit_xor_step b c,
  cancel_right_below n (a / 2) (b / 2) (c / 2) (omega arith) (omega arith)
      (omega (arith, bit_xor_step a c, bit_xor_step b c)),
)

pub bit_xor_cancel_right : (a b c : ℕ) → bit_xor a c ≡ bit_xor b c → a ≡ b
bit_xor_cancel_right a b c e = cancel_right_below (a + b) a b c (omega arith) (omega arith) e

cancel_left_below : (n a b c : ℕ) → b ≤ n → c ≤ n → bit_xor a b ≡ bit_xor a c → b ≡ c
cancel_left_below zero a b c p q e = omega arith
cancel_left_below (suc n) a b c p q e = omega (
  arith,
  bit_xor_step a b,
  bit_xor_step a c,
  cancel_left_below n (a / 2) (b / 2) (c / 2) (omega arith) (omega arith)
      (omega (arith, bit_xor_step a b, bit_xor_step a c)),
)

pub bit_xor_cancel_left : (a b c : ℕ) → bit_xor a b ≡ bit_xor a c → b ≡ c
bit_xor_cancel_left a b c e = cancel_left_below (b + c) a b c (omega arith) (omega arith) e
