-- ===== src/Crypto/Payload.antt =====
-- SerializeStoragePayload and ParseStoragePayload of default/CryptoClient.cpp: an encrypted template
-- as it stands in a file, the nonce with its length before the ciphertext.
use android_vendor_extra_fac.Common.{
  ℕ, ◌+◌, ◌-◌, ◌≤◌, ◌<◌, ◌%◌, ◌^◌, ◌≡◌, ◌≢◌, refl, sym, ap, ◌∙◌, false, not, ◌||◌, [], ◌∷◌, ◌++◌,
  Option, none, some, arith, ltb, leb, ◌==◌, not-lt→ltb, if◌then◌else◌, Bytes, length, take, drop,
  is_empty, length-append, length-take, length-drop, take-append, drop-append, take-append-drop,
}

abbrev storage_payload_version : ℕ
storage_payload_version = 1

abbrev max_nonce_size : ℕ
max_nonce_size = 32

-- A failure is the empty vector.
unfoldable pub serialize_storage_payload : Bytes → Bytes → Bytes
serialize_storage_payload nonce ciphertext =
    if is_empty nonce || ltb max_nonce_size (length nonce) || is_empty ciphertext
    then []
    else storage_payload_version ∷ (length nonce % 2 ^ 8) ∷ (nonce ++ ciphertext)

unfoldable pub parse_storage_payload : Bytes → Option (Bytes × Bytes)
parse_storage_payload [] = none
parse_storage_payload (version ∷ []) = none
parse_storage_payload (version ∷ nonce_len ∷ rest) =
    if ltb (2 + length rest) 3
    then none
    else if not (version == storage_payload_version)
    then none
    else if nonce_len == 0 || ltb max_nonce_size nonce_len
    then none
    else if leb (2 + length rest) (2 + nonce_len)
    then none
    else some (take nonce_len rest, drop nonce_len rest)

positive_not-is_empty : (xs : Bytes) → 0 < length xs → is_empty xs ≡ false
positive_not-is_empty [] h = absurd (omega arith)
positive_not-is_empty (x ∷ xs) h = refl

not_empty-positive : (xs : Bytes) → xs ≢ [] → 0 < length xs
not_empty-positive [] h = absurd (h refl)
not_empty-positive (x ∷ xs) h = omega arith

serialize_joined :
    (nonce ciphertext : Bytes)
    → 0 < length nonce
    → length nonce ≤ 32
    → 0 < length ciphertext
    → serialize_storage_payload nonce ciphertext ≡ 1 ∷ length nonce ∷ (nonce ++ ciphertext)
unfolding serialize_storage_payload
serialize_joined nonce ciphertext n m c =
    let small : length nonce % 2 ^ 8 ≡ length nonce = omega arith in
    rw
      (
        positive_not-is_empty nonce n,
        positive_not-is_empty ciphertext c,
        not-lt→ltb 32 (length nonce) m,
      )
      (rw (small) refl)

parse_joined :
    (nonce ciphertext : Bytes)
    → 0 < length nonce
    → length nonce ≤ 32
    → 0 < length ciphertext
    → parse_storage_payload (1 ∷ length nonce ∷ (nonce ++ ciphertext)) ≡ some (nonce, ciphertext)
unfolding parse_storage_payload
parse_joined nonce ciphertext n m c =
    let l = length-append nonce ciphertext in
    rw
      (
        take-append (length nonce) nonce ciphertext refl,
        drop-append (length nonce) nonce ciphertext refl,
      )
      (ground arith)

-- A nonce and a ciphertext that the code can put together come apart as they were.
pub parse_storage_payload-serialize_storage_payload :
    (nonce ciphertext : Bytes)
    → nonce ≢ []
    → length nonce ≤ 32
    → ciphertext ≢ []
    → parse_storage_payload (serialize_storage_payload nonce ciphertext) ≡ some (nonce, ciphertext)
parse_storage_payload-serialize_storage_payload nonce ciphertext n m c =
    let n1 = not_empty-positive nonce n in
    let c1 = not_empty-positive ciphertext c in
    rw (serialize_joined nonce ciphertext n1 m c1) (parse_joined nonce ciphertext n1 m c1)

parse_parts :
    (v n : ℕ) (rest nonce ciphertext : Bytes)
    → parse_storage_payload (v ∷ n ∷ rest) ≡ some (nonce, ciphertext)
    → (v ≡ 1)
      × (0 < n)
      × (n ≤ 32)
      × (n < length rest)
      × (take n rest ≡ nonce)
      × (drop n rest ≡ ciphertext)
unfolding parse_storage_payload
parse_parts v n rest nonce ciphertext h = ground arith

-- What is accepted is what `SerializeStoragePayload` makes of the two parts, so each payload stands
-- for one nonce and one ciphertext.
pub serialize_storage_payload-parse_storage_payload :
    (payload nonce ciphertext : Bytes)
    → parse_storage_payload payload ≡ some (nonce, ciphertext)
    → serialize_storage_payload nonce ciphertext ≡ payload
unfolding parse_storage_payload
serialize_storage_payload-parse_storage_payload [] nonce ciphertext h = cc
serialize_storage_payload-parse_storage_payload (v ∷ []) nonce ciphertext h = cc
serialize_storage_payload-parse_storage_payload (v ∷ n ∷ rest) nonce ciphertext h =
    let (one, low, high, long, front, back) = parse_parts v n rest nonce ciphertext h in
    let size : length nonce ≡ n = ap length (sym front) ∙ omega (arith, length-take n rest) in
    let left : length ciphertext ≡ length rest - n = ap length (sym back) ∙ length-drop n rest in
    let joined : nonce ++ ciphertext ≡ rest = rw⁻¹ (front, back) (take-append-drop n rest) in
    serialize_joined nonce ciphertext (omega arith) (omega arith) (omega arith)
    ∙ rw (size, joined, one) refl

-- A payload that is not empty has its two parts.
pub serialize_storage_payload_parts :
    (nonce ciphertext : Bytes)
    → serialize_storage_payload nonce ciphertext ≢ []
    → (nonce ≢ []) × (length nonce ≤ 32) × (ciphertext ≢ [])
unfolding serialize_storage_payload
serialize_storage_payload_parts [] ciphertext h = absurd (h refl)
serialize_storage_payload_parts (n ∷ nonce) [] h = ground arith
serialize_storage_payload_parts (n ∷ nonce) (c ∷ ciphertext) h = (λ e. cc, ground arith, λ e. cc)
