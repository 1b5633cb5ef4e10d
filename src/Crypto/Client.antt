-- ===== src/Crypto/Client.antt =====
-- The four operations of default/CryptoClient.cpp as its clients see them, with the laws that they
-- rely on proved from those of Keystore2.
use android_vendor_extra_fac.Common.{
  ℤ, ◌≡◌, ◌≢◌, refl, sym, ap, ◌∙◌, true, false, inl, inr, [], ◌∷◌, some, Bytes, length, is_empty,
  Bool-cases,
}
use android_vendor_extra_fac.Crypto.{Crypto, CryptoLaws}
use android_vendor_extra_fac.Crypto.Keystore.{
  SecurityLevel, get_mac_key_descriptor, get_storage_key_descriptor,
}
use android_vendor_extra_fac.Crypto.Mac.{
  sign_with_hmac_key, generate_mac, verify_mac, verify_mac_lem,
}
use android_vendor_extra_fac.Crypto.Cipher.{encrypt, decrypt}
use android_vendor_extra_fac.Crypto.Keys.{KeystoreLaws, Later}
use android_vendor_extra_fac.Crypto.Secrets.{sign_with_hmac_key_signed, sign_with_hmac_key_answers}
use android_vendor_extra_fac.Crypto.Ciphers.{encrypt-Kept, decrypt-Kept}
use android_vendor_extra_fac.Crypto.Deciphers.{encrypt_enciphered, decrypt_deciphered}

abbrev pub client : SecurityLevel → Crypto
client level = record {
  State = level.State;
  encrypt = encrypt level;
  decrypt = decrypt level;
  generate_mac = generate_mac level;
  verify_mac = verify_mac level;
}

module _ {level : SecurityLevel} (laws : KeystoreLaws level) where
  -- What encrypt made comes back from a decrypt for the same user, as long as the user's key was
  -- kept and the keystore answers: through the payload, the nonce and the two operations in chunks.
  pub decrypt-encrypt :
      (user : ℤ) (bytes : Bytes) (k l : level.State)
      → (encrypt level user bytes k).0 ≢ []
      → Later laws (encrypt level user bytes k).1 l
      → (decrypt level user (encrypt level user bytes k).0 l).0 ≡ bytes
  decrypt-encrypt user bytes k l full later =
      let (key, nonce, there, twelve, made) = encrypt_enciphered laws user bytes k full in
      decrypt_deciphered laws user key nonce bytes (encrypt level user bytes k).0 l twelve later.1
        (later.0 (get_storage_key_descriptor user) key there) full made

  generate_mac_signs :
      (bytes : Bytes) (k : level.State)
      → (generate_mac level bytes k).0 ≢ []
      → generate_mac level bytes k ≡ sign_with_hmac_key level bytes k
  unfolding generate_mac
  generate_mac_signs bytes k full = elim (Bool-cases (is_empty bytes)) [
    | inl e ↦
        let nothing : (generate_mac level bytes k).0 ≡ [] = rw (e) refl in absurd (full nothing)
    | inr e ↦ rw (e) refl
  ]

  signed :
      (bytes : Bytes) (k : level.State)
      → (generate_mac level bytes k).0 ≢ []
      → (key : laws.Key) × (laws.key_of get_mac_key_descriptor (generate_mac level bytes k).1
          ≡ some key)
        × ((generate_mac level bytes k).0 ≡ laws.sign key bytes)
  signed bytes k full =
      let same = generate_mac_signs bytes k full in
      let (key, there, made) =
        sign_with_hmac_key_signed laws bytes k (λ e. full (ap (λ r. r.0) same ∙ e)) in
      (
        key,
        ap (λ r. laws.key_of get_mac_key_descriptor r.1) same ∙ there,
        ap (λ r. r.0) same ∙ made,
      )

  pub generate_mac_size :
      (bytes : Bytes) (k : level.State)
      → (generate_mac level bytes k).0 ≢ []
      → length (generate_mac level bytes k).0 ≡ 32
  generate_mac_size bytes k full =
      let (key, there, made) = signed bytes k full in ap length made ∙ laws.sign_size key bytes

  -- A MAC that was generated is one of 32 bytes and verifies, as long as the key was kept and the
  -- keystore answers.
  pub verify_mac-generate_mac :
      (bytes : Bytes) (k l : level.State)
      → (generate_mac level bytes k).0 ≢ []
      → Later laws (generate_mac level bytes k).1 l
      → ((verify_mac level bytes (generate_mac level bytes k).0 l).0 ≡ true)
        × (length (generate_mac level bytes k).0 ≡ 32)
  verify_mac-generate_mac bytes k l full later =
      let (key, there, made) = signed bytes k full in
      let again =
        sign_with_hmac_key_answers laws bytes key l later.1
          (later.0 get_mac_key_descriptor key there) in
      (
        (verify_mac_lem level bytes (generate_mac level bytes k).0 l).1
            (not_empty (generate_mac level bytes k).0 full, made ∙ sym again),
        generate_mac_size bytes k full,
      )
    where
      not_empty : (xs : Bytes) → xs ≢ [] → is_empty xs ≡ false
      not_empty [] h = absurd (h refl)
      not_empty (x ∷ xs) h = refl

  unfoldable pub client_laws : CryptoLaws (client level)
  client_laws = record {
    Later = Later laws;
    encrypt-Later = λ user bytes k l later. (
      λ key secret h. later.0 key secret ((encrypt-Kept laws user bytes k).0 key secret h),
      later.1,
    );
    decrypt-Later = λ user bytes k l later. (
      λ key secret h. (decrypt-Kept laws user bytes l).0 key secret (later.0 key secret h),
      (decrypt-Kept laws user bytes l).1 later.1,
    );
    mac_size = generate_mac_size;
    verify_mac-generate_mac =
        λ bytes k l full later. (verify_mac-generate_mac bytes k l full later).0;
    decrypt-encrypt = decrypt-encrypt;
  }
