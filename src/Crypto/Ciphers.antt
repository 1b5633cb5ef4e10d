-- ===== src/Crypto/Ciphers.antt =====
-- encrypt and decrypt of default/CryptoClient.cpp on a keystore that keeps its laws.
use android_vendor_extra_fac.Common.{
  ℤ, refl, not, ◌||◌, inl, inr, Option, none, some, Bytes, is_empty, Bool-cases, Option-cases,
}
use android_vendor_extra_fac.Crypto.Keystore.{
  SecurityLevel, get_storage_key_descriptor, storage_key_params, encrypt_params, decrypt_params,
  get_nonce_from_response,
}
use android_vendor_extra_fac.Crypto.Operations.{created, open_operation, run_operation}
use android_vendor_extra_fac.Crypto.Payload.{parse_storage_payload}
use android_vendor_extra_fac.Crypto.Cipher.{encrypt_with, encrypt, decrypt_parts, decrypt}
use android_vendor_extra_fac.Crypto.Keys.{KeystoreLaws, Kept, kept, Kept-trans, Kept-eq}
use android_vendor_extra_fac.Crypto.Running.{
  create_operation-Kept, open_operation-Kept, run_operation-Kept, abort-Kept,
}

module _ {level : SecurityLevel} (laws : KeystoreLaws level) where
  encrypt_with-Kept :
      (op : level.Operation) (nonce : Option Bytes) (bytes : Bytes) (k : level.State)
      → Kept laws k (encrypt_with level op nonce bytes k).1
  unfolding encrypt_with
  encrypt_with-Kept op none bytes k = abort-Kept laws op k
  encrypt_with-Kept op (some nonce) bytes k =
      let last = (encrypt_with level op (some nonce) bytes k).1 in
      elim (Bool-cases (is_empty nonce)) [
        | inl e ↦ Kept-eq laws k (level.abort op k) last (abort-Kept laws op k) (rw (e) refl)
        | inr e ↦
            let k1 = (run_operation level op bytes k).1 in
            Kept-eq laws k k1 last (run_operation-Kept laws op bytes k) (rw (e) refl)
      ]

  pub encrypt-Kept :
      (user : ℤ) (bytes : Bytes) (k : level.State) → Kept laws k (encrypt level user bytes k).1
  unfolding encrypt
  encrypt-Kept user bytes k =
      let key = get_storage_key_descriptor user in
      let (operation, k1) = open_operation level key storage_key_params encrypt_params k in
      let last = (encrypt level user bytes k).1 in
      let first = open_operation-Kept laws key storage_key_params encrypt_params k in
      elim (Bool-cases (not (level.is_available k) || is_empty bytes)) [
        | inl e ↦ Kept-eq laws k k last (kept laws k) (rw (e) refl)
        | inr e ↦ elim (Option-cases operation) [
          | inl f ↦ Kept-eq laws k k1 last first (rw (e, f, encrypt) refl)
          | inr ((op, response), f) ↦
              let nonce = get_nonce_from_response response in
              let k2 = (encrypt_with level op nonce bytes k1).1 in
              Kept-eq laws k k2 last
                (Kept-trans laws k k1 k2 first (encrypt_with-Kept op nonce bytes k1))
                (rw (e, f, encrypt) refl)
        ]
      ]

  decrypt_parts-Kept :
      (user : ℤ) (nonce ciphertext : Bytes) (k : level.State)
      → Kept laws k (decrypt_parts level user nonce ciphertext k).1
  unfolding decrypt_parts
  decrypt_parts-Kept user nonce ciphertext k =
      let key = get_storage_key_descriptor user in
      let (status, operation, response, k1) = level.create_operation key (decrypt_params nonce) k in
      let last = (decrypt_parts level user nonce ciphertext k).1 in
      let first = create_operation-Kept laws key (decrypt_params nonce) k in
      elim (Option-cases (created level status operation response)) [
        | inl e ↦ Kept-eq laws k k1 last first (rw (e, decrypt_parts) refl)
        | inr ((op, response'), e) ↦
            let k2 = (run_operation level op ciphertext k1).1 in
            Kept-eq laws k k2 last
              (Kept-trans laws k k1 k2 first (run_operation-Kept laws op ciphertext k1))
              (rw (e, decrypt_parts) refl)
      ]

  pub decrypt-Kept :
      (user : ℤ) (bytes : Bytes) (k : level.State) → Kept laws k (decrypt level user bytes k).1
  unfolding decrypt
  decrypt-Kept user bytes k =
      let last = (decrypt level user bytes k).1 in
      elim (Bool-cases (level.is_available k)) [
        | inr e ↦ Kept-eq laws k k last (kept laws k) (rw (e) refl)
        | inl e ↦ elim (Option-cases (parse_storage_payload bytes)) [
          | inl f ↦ Kept-eq laws k k last (kept laws k) (rw (e, f) refl)
          | inr ((nonce, ciphertext), f) ↦
              let k1 = (decrypt_parts level user nonce ciphertext k).1 in
              Kept-eq laws k k1 last (decrypt_parts-Kept user nonce ciphertext k) (rw (e, f) refl)
        ]
      ]
