-- ===== src/Crypto/Cipher.antt =====
-- encrypt and decrypt of default/CryptoClient.cpp, with a key for each user.
use android_vendor_extra_fac.Common.{
  ℤ, not, ◌||◌, [], Option, none, some, if◌then◌else◌, Bytes, is_empty,
}
use android_vendor_extra_fac.Crypto.Keystore.{
  SecurityLevel, get_storage_key_descriptor, storage_key_params, encrypt_params, decrypt_params,
  get_nonce_from_response,
}
use android_vendor_extra_fac.Crypto.Operations.{created, open_operation, run_operation}
use android_vendor_extra_fac.Crypto.Payload.{serialize_storage_payload, parse_storage_payload}
use android_vendor_extra_fac.Crypto.Mac.{bytes_or_empty}

-- The payload of a nonce and of what an operation made, if it made something.
abbrev pub payload : Bytes → Option Bytes → Bytes
payload nonce none = []
payload nonce (some ciphertext) = serialize_storage_payload nonce ciphertext

module _ (level : SecurityLevel) where
  -- Behind `createOperation`: without a nonce the operation is aborted.
  unfoldable pub encrypt_with :
      level.Operation → Option Bytes → Bytes → level.State → Bytes × level.State
  unfolding run_operation
  encrypt_with op none bytes k = ([], level.abort op k)
  encrypt_with op (some nonce) bytes k =
      let (ciphertext, k1) = run_operation level op bytes k in
      if is_empty nonce then ([], level.abort op k) else (payload nonce ciphertext, k1)

  unfoldable pub encrypt : ℤ → Bytes → level.State → Bytes × level.State
  unfolding open_operation encrypt_with
  encrypt user bytes k =
      let (operation, k1) =
        open_operation level (get_storage_key_descriptor user) storage_key_params encrypt_params
          k in
      if not (level.is_available k) || is_empty bytes then ([], k) else elim operation [
        | none ↦ ([], k1)
        | some (op, response) ↦ encrypt_with op (get_nonce_from_response response) bytes k1
      ]

  unfoldable pub decrypt_parts : ℤ → Bytes → Bytes → level.State → Bytes × level.State
  unfolding created run_operation
  decrypt_parts user nonce ciphertext k =
      let (status, operation, response, k1) =
        level.create_operation (get_storage_key_descriptor user) (decrypt_params nonce) k in
      elim (created level status operation response) [
        | none ↦ ([], k1)
        | some (op, response) ↦
            let (decrypted, k2) = run_operation level op ciphertext k1 in
            (bytes_or_empty decrypted, k2)
      ]

  unfoldable pub decrypt : ℤ → Bytes → level.State → Bytes × level.State
  unfolding decrypt_parts
  decrypt user encrypted_payload k =
      if not (level.is_available k)
      then ([], k)
      else elim (parse_storage_payload encrypted_payload) [
        | none ↦ ([], k)
        | some (nonce, ciphertext) ↦ decrypt_parts user nonce ciphertext k
      ]
