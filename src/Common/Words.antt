-- ===== src/Common/Words.antt =====
-- 32-bit words in memory: four bytes, lowest first, and `int32_t` as two's complement.
use Prim.Native.Nat.{ℕ, ◌+◌, ◌-◌, ◌*◌, ◌/◌, ◌%◌, ◌^◌, ◌<◌}
use mathlib.Core.Path.{◌≡◌}
use mathlib.Core.Bool.{Bool, true, false}
use mathlib.Core.List.{[], ◌∷◌, ◌++◌}
use native.Mathlib.Omega.{arith}
use android_vendor_extra_fac.Common.Tests.{ltb, ◌==◌, if◌then◌else◌}
use android_vendor_extra_fac.Common.Lists.{Bytes}

-- A signed integer; `negsuc n` is -(n + 1).
pub data ℤ : Type 0 where
  pos : ℕ → ℤ
  negsuc : ℕ → ℤ

abbrev pub int_eq : ℤ → ℤ → Bool
int_eq (pos a) (pos b) = a == b
int_eq (pos a) (negsuc b) = false
int_eq (negsuc a) (pos b) = false
int_eq (negsuc a) (negsuc b) = a == b

-- `a < b`.
abbrev pub int_lt : ℤ → ℤ → Bool
int_lt (pos a) (pos b) = ltb a b
int_lt (pos a) (negsuc b) = false
int_lt (negsuc a) (pos b) = true
int_lt (negsuc a) (negsuc b) = ltb b a

pub int_eq→eq : (a b : ℤ) → int_eq a b ≡ true → a ≡ b
int_eq→eq a b h = ground arith

pub int_eq_refl : (a : ℤ) → int_eq a a ≡ true
int_eq_refl (pos a) = ground arith
int_eq_refl (negsuc a) = ground arith

abbrev pub IsInt32 : ℤ → Type 0
IsInt32 (pos n) = n < 2 ^ 31
IsInt32 (negsuc n) = n < 2 ^ 31

abbrev pub IsByte : ℕ → Type 0
IsByte b = b < 256

-- The bit pattern of an `int32_t`, and the integer that a pattern stands for.
abbrev pub to_word : ℤ → ℕ
to_word (pos n) = n % 2 ^ 32
to_word (negsuc n) = 2 ^ 32 - 1 - n % 2 ^ 32

abbrev pub of_word : ℕ → ℤ
of_word w = if ltb w (2 ^ 31) then pos w else negsuc (2 ^ 32 - 1 - w)

pub of_word-to_word : (i : ℤ) → IsInt32 i → of_word (to_word i) ≡ i
of_word-to_word (pos n) h = ground arith
of_word-to_word (negsuc n) h = ground arith

pub to_word-lt : (i : ℤ) → to_word i < 2 ^ 32
to_word-lt (pos n) = omega arith
to_word-lt (negsuc n) = omega arith

-- The four bytes of a word as a little-endian machine stores it.
abbrev pub le_bytes : ℕ → Bytes
le_bytes w = (w % 256) ∷ (w / 256 % 256) ∷ (w / 65536 % 256) ∷ (w / 16777216 % 256) ∷ []

abbrev pub le_word : Bytes → ℕ
le_word (a ∷ b ∷ c ∷ d ∷ rest) = a + b * 256 + c * 65536 + d * 16777216
le_word _ = 0

pub le_word-le_bytes : (w : ℕ) (rest : Bytes) → w < 2 ^ 32 → le_word (le_bytes w ++ rest) ≡ w
le_word-le_bytes w rest h = omega arith
