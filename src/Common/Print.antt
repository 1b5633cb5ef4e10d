-- ===== src/Common/Print.antt =====
-- Integers in decimal digits.
use Prim.Native.Nat.{ℕ, zero, suc, ◌+◌, ◌/◌, ◌%◌}
use mathlib.Core.List.{[], ◌∷◌, ◌++◌}
use android_vendor_extra_fac.Common.Tests.{ltb, if◌then◌else◌}
use android_vendor_extra_fac.Common.Lists.{Bytes}
use android_vendor_extra_fac.Common.Words.{ℤ, pos, negsuc}

-- `std::to_string`, for numbers of at most `fuel` + 1 digits.
unfoldable pub digits : ℕ → ℕ → Bytes
digits zero n = (48 + n % 10) ∷ []
digits (suc fuel) n =
    let front = digits fuel (n / 10) in
    if ltb n 10 then (48 + n) ∷ [] else front ++ ((48 + n % 10) ∷ [])

unfoldable pub to_string : ℤ → Bytes
unfolding digits
to_string (pos n) = digits 9 n
to_string (negsuc n) = 45 ∷ digits 9 (n + 1)
