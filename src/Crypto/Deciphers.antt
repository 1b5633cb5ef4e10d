-- ===== src/Crypto/Deciphers.antt =====
-- What encrypt of default/CryptoClient.cpp made is taken apart by decrypt.
use android_vendor_extra_fac.Common.{
  ℤ, ◌≡◌, ◌≢◌, refl, sym, ap, ◌∙◌, subst, not, ◌||◌, inl, inr, [], Option, none, some, Bytes,
  length, is_empty, Bool-cases, Option-cases, some_injective,
}
use android_vendor_extra_fac.Crypto.Keystore.{
  SecurityLevel, get_storage_key_descriptor, storage_key_params, encrypt_params, decrypt_params,
  get_nonce_from_response,
}
use android_vendor_extra_fac.Crypto.Operations.{open_operation, run_operation}
use android_vendor_extra_fac.Crypto.Payload.{
  serialize_storage_payload, parse_storage_payload, parse_storage_payload-serialize_storage_payload,
  serialize_storage_payload_parts,
}
use android_vendor_extra_fac.Crypto.Mac.{bytes_or_empty}
use android_vendor_extra_fac.Crypto.Cipher.{payload, encrypt_with, encrypt, decrypt_parts, decrypt}
use android_vendor_extra_fac.Crypto.Keys.{KeystoreLaws}
use android_vendor_extra_fac.Crypto.Running.{create_operation-Kept, run_operation-Kept}
use android_vendor_extra_fac.Crypto.Computes.{run_operation_result, run_operation_answers}
use android_vendor_extra_fac.Crypto.Secrets.{created_all, open_operation_created}

module _ {level : SecurityLevel} (laws : KeystoreLaws level) where
  encrypt_with_result :
      (op : level.Operation) (answer : Option Bytes) (bytes : Bytes) (k : level.State)
      → (encrypt_with level op answer bytes k).0 ≢ []
      → (nonce ciphertext : Bytes) × (answer ≡ some nonce)
        × ((run_operation level op bytes k).0 ≡ some ciphertext)
        × (encrypt_with level op answer bytes k
            ≡ (serialize_storage_payload nonce ciphertext, (run_operation level op bytes k).1))
  unfolding encrypt_with
  encrypt_with_result op none bytes k h = absurd (h refl)
  encrypt_with_result op (some nonce) bytes k h =
      let (made, k1) = run_operation level op bytes k in
      let result = encrypt_with level op (some nonce) bytes k in
      elim (Bool-cases (is_empty nonce)) [
        | inl e ↦ let nothing : result.0 ≡ [] = rw (e) refl in absurd (h nothing)
        | inr e ↦
            let whole : result ≡ (payload nonce made, k1) = rw (e) refl in
            elim (Option-cases made) [
              | inl f ↦ absurd (h (ap (λ r. r.0) whole ∙ ap (payload nonce) f))
              | inr (ciphertext, f) ↦
                  (nonce, ciphertext, refl, f, whole ∙ ap (λ x. (payload nonce x, k1)) f)
            ]
      ]

  -- What was encrypted is the payload of a nonce and of the data enciphered with the user's key.
  pub encrypt_enciphered :
      (user : ℤ) (bytes : Bytes) (k : level.State)
      → (encrypt level user bytes k).0 ≢ []
      → (key : laws.Key) × (nonce : Bytes) × (laws.key_of
            (get_storage_key_descriptor user)
            (encrypt level user bytes k).1
          ≡ some key)
        × (length nonce ≡ 12)
        × ((encrypt level user bytes k).0
            ≡ serialize_storage_payload nonce (laws.encipher key nonce bytes))
  unfolding encrypt
  encrypt_enciphered user bytes k h =
      let descriptor = get_storage_key_descriptor user in
      let (operation, k1) = open_operation level descriptor storage_key_params encrypt_params k in
      let result = encrypt level user bytes k in
      elim (Bool-cases (not (level.is_available k) || is_empty bytes)) [
        | inl e ↦ let nothing : result.0 ≡ [] = rw (e) refl in absurd (h nothing)
        | inr e ↦ elim (Option-cases operation) [
          | inl f ↦ let nothing : result.0 ≡ [] = rw (e, f, encrypt) refl in absurd (h nothing)
          | inr ((op, response), f) ↦
              let whole : result
                  ≡ encrypt_with level op (get_nonce_from_response response) bytes k1 =
                rw (e, f, encrypt) refl in
              let (k0, made) =
                open_operation_created level descriptor storage_key_params encrypt_params response
                  op k f in
              let (nonce, ciphertext, given, ran, end) =
                encrypt_with_result op (get_nonce_from_response response) bytes k1
                  (λ x. h (ap (λ r. r.0) whole ∙ x)) in
              let (key, there, running, twelve) =
                laws.encrypting_Running user op nonce response k0 k1 made given in
              let same =
                run_operation_result laws op (λ x. some (laws.encipher key nonce x)) bytes
                  ciphertext k1 running ran in
              (
                key,
                nonce,
                ap (λ r. laws.key_of descriptor r.1) (whole ∙ end)
                    ∙ (run_operation-Kept laws op bytes k1).0 descriptor key there,
                twelve,
                ap (λ r. r.0) (whole ∙ end)
                    ∙ ap (serialize_storage_payload nonce) (sym (some_injective same)),
              )
        ]
      ]

  decrypt_parts_deciphered :
      (user : ℤ) (key : laws.Key) (nonce ciphertext bytes : Bytes) (k : level.State)
      → length nonce ≡ 12
      → laws.Answering k
      → laws.key_of (get_storage_key_descriptor user) k ≡ some key
      → laws.decipher key nonce ciphertext ≡ some bytes
      → (decrypt_parts level user nonce ciphertext k).0 ≡ bytes
  unfolding decrypt_parts
  decrypt_parts_deciphered user key nonce ciphertext bytes k twelve a there h =
      let descriptor = get_storage_key_descriptor user in
      let (op, response, k1, made, running) =
        laws.decrypting_Running user nonce key k twelve a there in
      let k1' = (level.create_operation descriptor (decrypt_params nonce) k).3 in
      let after : k1' ≡ k1 = ap (λ x. x.3) made in
      let whole : (decrypt_parts level user nonce ciphertext k).0
          ≡ bytes_or_empty (run_operation level op ciphertext k1').0 =
        rw
          (created_all level descriptor (decrypt_params nonce) response op k k1 made, decrypt_parts)
          refl in
      let done =
        run_operation_answers laws op (laws.decipher key nonce) ciphertext bytes k1'
          ((create_operation-Kept laws descriptor (decrypt_params nonce) k).1 a)
          (subst (λ x. laws.Running op (laws.decipher key nonce) [] [] x) (sym after) running) h in
      whole ∙ ap bytes_or_empty done

  -- A keystore that answers and still has the key deciphers what was enciphered.
  pub decrypt_deciphered :
      (user : ℤ) (key : laws.Key) (nonce bytes encrypted : Bytes) (k : level.State)
      → length nonce ≡ 12
      → laws.Answering k
      → laws.key_of (get_storage_key_descriptor user) k ≡ some key
      → encrypted ≢ []
      → encrypted ≡ serialize_storage_payload nonce (laws.encipher key nonce bytes)
      → (decrypt level user encrypted k).0 ≡ bytes
  unfolding decrypt
  decrypt_deciphered user key nonce bytes encrypted k twelve a there full made =
      let ciphertext = laws.encipher key nonce bytes in
      let (n, m, c) = serialize_storage_payload_parts nonce ciphertext (λ e. full (made ∙ e)) in
      let parsed : parse_storage_payload encrypted ≡ some (nonce, ciphertext) =
        ap parse_storage_payload made
        ∙ parse_storage_payload-serialize_storage_payload nonce ciphertext n m c in
      let whole : (decrypt level user encrypted k).0
          ≡ (decrypt_parts level user nonce ciphertext k).0 =
        rw (laws.is_available_answers k a, parsed) refl in
      whole
      ∙ decrypt_parts_deciphered user key nonce ciphertext bytes k twelve a there
          (laws.decipher-encipher key nonce bytes)
