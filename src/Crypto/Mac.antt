-- ===== src/Crypto/Mac.antt =====
-- The MAC of default/CryptoClient.cpp, made by an operation with the MAC key.
use android_vendor_extra_fac.Common.{
  ℕ, ◌≡◌, ◌↔◌, refl, sym, ap, ◌∙◌, Bool, true, false, not, [], ◌∷◌, Option, none, some, arith,
  if◌then◌else◌, Bytes, length, take, is_empty, bytes_eq, bytes_eq→eq, bytes_eq_refl, ◌==◌, ==_refl,
}
use android_vendor_extra_fac.Crypto.Keystore.{
  SecurityLevel, get_mac_key_descriptor, mac_key_params, sign_params,
}
use android_vendor_extra_fac.Crypto.Operations.{open_operation, run_operation}

-- The empty vector stands for a failure.
abbrev pub bytes_or_empty : Option Bytes → Bytes
bytes_or_empty none = []
bytes_or_empty (some bytes) = bytes

-- `CRYPTO_memcmp` of the first `size` bytes is 0.
abbrev pub memcmp_equal : Bytes → Bytes → ℕ → Bool
memcmp_equal a b size = bytes_eq (take size a) (take size b)

take_all : (xs : Bytes) → take (length xs) xs ≡ xs
take_all [] = refl
take_all (x ∷ xs) = ap (◌∷◌ x) (take_all xs)

take_same : (xs ys : Bytes) → (length xs == length ys) ≡ true → take (length xs) ys ≡ ys
take_same xs ys e =
    let same : length xs ≡ length ys = ground arith in ap (λ n. take n ys) same ∙ take_all ys

-- Where the sizes are the same, all bytes are compared.
memcmp_equal_all :
    (xs ys : Bytes)
    → (length xs == length ys) ≡ true
    → memcmp_equal xs ys (length xs) ≡ bytes_eq xs ys
memcmp_equal_all xs ys e = rw (take_all xs, take_same xs ys e) refl

module _ (level : SecurityLevel) where
  unfoldable pub sign_with_hmac_key : Bytes → level.State → Bytes × level.State
  unfolding open_operation run_operation
  sign_with_hmac_key bytes k =
      let (operation, k1) =
        open_operation level get_mac_key_descriptor mac_key_params sign_params k in
      if not (level.is_available k) then ([], k) else elim operation [
        | none ↦ ([], k1)
        | some (op, response) ↦
            let (mac, k2) = run_operation level op bytes k1 in (bytes_or_empty mac, k2)
      ]

  unfoldable pub generate_mac : Bytes → level.State → Bytes × level.State
  generate_mac bytes k = if is_empty bytes then ([], k) else sign_with_hmac_key bytes k

  unfoldable pub verify_mac : Bytes → Bytes → level.State → Bool × level.State
  verify_mac bytes mac k =
      let (calculated, k1) = sign_with_hmac_key bytes k in
      if is_empty mac
      then (false, k)
      else if is_empty calculated
      then (false, k1)
      else if not (length mac == length calculated)
      then (false, k1)
      else (memcmp_equal mac calculated (length mac), k1)

  verify_mac_sound :
      (bytes mac : Bytes) (k : level.State)
      → (verify_mac bytes mac k).0 ≡ true
      → (is_empty mac ≡ false)
        × ((length mac == length (sign_with_hmac_key bytes k).0) ≡ true)
        × (memcmp_equal mac (sign_with_hmac_key bytes k).0 (length mac) ≡ true)
  unfolding verify_mac
  verify_mac_sound bytes mac k h = ground arith

  verify_mac_complete :
      (bytes mac : Bytes) (k : level.State)
      → is_empty mac ≡ false
      → mac ≡ (sign_with_hmac_key bytes k).0
      → (verify_mac bytes mac k).0 ≡ true
  unfolding verify_mac
  verify_mac_complete bytes mac k full same =
      let given : is_empty (sign_with_hmac_key bytes k).0 ≡ false = ap is_empty (sym same) ∙ full in
      let sizes : (length mac == length (sign_with_hmac_key bytes k).0) ≡ true =
        ap (λ (x : Bytes). length mac == length x) (sym same) ∙ ==_refl (length mac) in
      let equal : bytes_eq mac (sign_with_hmac_key bytes k).0 ≡ true =
        ap (bytes_eq mac) (sym same) ∙ bytes_eq_refl mac in
      let compared = memcmp_equal_all mac (sign_with_hmac_key bytes k).0 sizes ∙ equal in
      rw (full, given, sizes, compared) refl

  -- `verifyMac` takes a MAC exactly where it is not empty and the one that is computed anew.
  pub verify_mac_lem :
      (bytes mac : Bytes) (k : level.State)
      → ((verify_mac bytes mac k).0 ≡ true)
        ↔ ((is_empty mac ≡ false) × (mac ≡ (sign_with_hmac_key bytes k).0))
  verify_mac_lem bytes mac k = (
    λ h.
        let made = (sign_with_hmac_key bytes k).0 in
        let (full, sizes, same) = verify_mac_sound bytes mac k h in
        (full, bytes_eq→eq mac made (sym (memcmp_equal_all mac made sizes) ∙ same)),
    λ h. verify_mac_complete bytes mac k h.0 h.1,
  )
