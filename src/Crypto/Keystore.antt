-- ===== src/Crypto/Keystore.antt =====
-- Keystore2 as default/CryptoClient.cpp calls it: key descriptors, key parameters, the security level
-- and what its messages say about keys.
use android_vendor_extra_fac.Common.{
  ℕ, ℤ, Bool, true, false, ◌||◌, List, [], ◌∷◌, ◌++◌, Option, none, some, Bytes, contains,
  to_string,
}

-- An `ndk::ScopedAStatus`: fine, or a failure with its message.
pub data Status : Type 0 where
  ok : Status
  failure : Bytes → Status

-- `KeyDescriptor`; the domain is always SELINUX and the blob empty.
pub record KeyDescriptor : Type 0 where
  pub nspace : ℕ
  pub alias : Bytes

pub data Algorithm : Type 0 where
  aes : Algorithm
  hmac : Algorithm

pub data KeyPurpose : Type 0 where
  encrypting : KeyPurpose
  decrypting : KeyPurpose
  signing : KeyPurpose
  verifying : KeyPurpose

-- `KeyParameter`, a tag with its value; the block mode is GCM, the padding NONE and the digest
-- SHA_2_256 wherever they are given.
pub data KeyParameter : Type 0 where
  algorithm : Algorithm → KeyParameter
  key_size : ℕ → KeyParameter
  purpose : KeyPurpose → KeyParameter
  block_mode_gcm : KeyParameter
  padding_none : KeyParameter
  digest_sha_2_256 : KeyParameter
  mac_length : ℕ → KeyParameter
  min_mac_length : ℕ → KeyParameter
  no_auth_required : Bool → KeyParameter
  nonce_param : Bytes → KeyParameter

-- `IKeystoreSecurityLevel` with its operations, of which a response can have none.
pub record SecurityLevel : Type 1 where
  pub State : Type 0
  pub Operation : Type 0
  pub is_available : State → Bool
  pub generate_key : KeyDescriptor → List KeyParameter → State → Status × State
  pub create_operation :
      KeyDescriptor
      → List KeyParameter
      → State
      → Status × Option Operation × List KeyParameter × State
  pub update : Operation → Bytes → State → Status × Option Bytes × State
  pub finish : Operation → State → Status × Option Bytes × State
  pub abort : Operation → State → State

abbrev pub keystore_namespace : ℕ
keystore_namespace = 65000

-- "extra_face_template_aes_gcm_v2_user_"
abbrev storage_alias_prefix : Bytes
storage_alias_prefix =
    101 ∷ 120 ∷ 116 ∷ 114 ∷ 97 ∷ 95 ∷ 102 ∷ 97 ∷ 99 ∷ 101 ∷ 95 ∷ 116 ∷ 101 ∷ 109 ∷ 112 ∷ 108 ∷ 97
    ∷ 116 ∷ 101 ∷ 95 ∷ 97 ∷ 101 ∷ 115 ∷ 95 ∷ 103 ∷ 99 ∷ 109 ∷ 95 ∷ 118 ∷ 50 ∷ 95 ∷ 117 ∷ 115 ∷ 101
    ∷ 114 ∷ 95 ∷ []

-- "extra_face_template_hmac_sha256_v2"
abbrev mac_alias : Bytes
mac_alias =
    101 ∷ 120 ∷ 116 ∷ 114 ∷ 97 ∷ 95 ∷ 102 ∷ 97 ∷ 99 ∷ 101 ∷ 95 ∷ 116 ∷ 101 ∷ 109 ∷ 112 ∷ 108 ∷ 97
    ∷ 116 ∷ 101 ∷ 95 ∷ 104 ∷ 109 ∷ 97 ∷ 99 ∷ 95 ∷ 115 ∷ 104 ∷ 97 ∷ 50 ∷ 53 ∷ 54 ∷ 95 ∷ 118 ∷ 50 ∷ []

unfoldable pub storage_alias_for_user : ℤ → Bytes
storage_alias_for_user user = storage_alias_prefix ++ to_string user

unfoldable pub get_storage_key_descriptor : ℤ → KeyDescriptor
unfolding storage_alias_for_user
get_storage_key_descriptor user = record {
  nspace = keystore_namespace;
  alias = storage_alias_for_user user;
}

unfoldable pub get_mac_key_descriptor : KeyDescriptor
get_mac_key_descriptor = record { nspace = keystore_namespace; alias = mac_alias }

unfoldable pub storage_key_params : List KeyParameter
storage_key_params =
    algorithm aes
    ∷ key_size 256
    ∷ purpose encrypting
    ∷ purpose decrypting
    ∷ block_mode_gcm
    ∷ padding_none
    ∷ min_mac_length 128
    ∷ no_auth_required true
    ∷ []

unfoldable pub mac_key_params : List KeyParameter
mac_key_params =
    algorithm hmac
    ∷ digest_sha_2_256
    ∷ key_size 256
    ∷ purpose signing
    ∷ purpose verifying
    ∷ min_mac_length 256
    ∷ no_auth_required true
    ∷ []

abbrev pub encrypt_params : List KeyParameter
encrypt_params = purpose encrypting ∷ block_mode_gcm ∷ padding_none ∷ mac_length 128 ∷ []

abbrev pub decrypt_params : Bytes → List KeyParameter
decrypt_params nonce =
    purpose decrypting ∷ block_mode_gcm ∷ padding_none ∷ mac_length 128 ∷ nonce_param nonce ∷ []

abbrev pub sign_params : List KeyParameter
sign_params = purpose signing ∷ digest_sha_2_256 ∷ mac_length 256 ∷ []

-- The first nonce among the parameters of a response.
unfoldable pub get_nonce_from_response : List KeyParameter → Option Bytes
get_nonce_from_response [] = none
get_nonce_from_response (nonce_param nonce ∷ params) = some nonce
get_nonce_from_response (param ∷ params) = get_nonce_from_response params

-- "KEY_NOT_FOUND"
abbrev key_not_found : Bytes
key_not_found = 75 ∷ 69 ∷ 89 ∷ 95 ∷ 78 ∷ 79 ∷ 84 ∷ 95 ∷ 70 ∷ 79 ∷ 85 ∷ 78 ∷ 68 ∷ []

-- "Failed to load key blob"
abbrev failed_to_load : Bytes
failed_to_load =
    70 ∷ 97 ∷ 105 ∷ 108 ∷ 101 ∷ 100 ∷ 32 ∷ 116 ∷ 111 ∷ 32 ∷ 108 ∷ 111 ∷ 97 ∷ 100 ∷ 32 ∷ 107 ∷ 101
    ∷ 121 ∷ 32 ∷ 98 ∷ 108 ∷ 111 ∷ 98 ∷ []

-- "does not exist"
abbrev does_not_exist : Bytes
does_not_exist =
    100 ∷ 111 ∷ 101 ∷ 115 ∷ 32 ∷ 110 ∷ 111 ∷ 116 ∷ 32 ∷ 101 ∷ 120 ∷ 105 ∷ 115 ∷ 116 ∷ []

-- "KEY_ALREADY_EXISTS"
abbrev key_already_exists : Bytes
key_already_exists =
    75 ∷ 69 ∷ 89 ∷ 95 ∷ 65 ∷ 76 ∷ 82 ∷ 69 ∷ 65 ∷ 68 ∷ 89 ∷ 95 ∷ 69 ∷ 88 ∷ 73 ∷ 83 ∷ 84 ∷ 83 ∷ []

-- "already exists"
abbrev already_exists : Bytes
already_exists = 97 ∷ 108 ∷ 114 ∷ 101 ∷ 97 ∷ 100 ∷ 121 ∷ 32 ∷ 101 ∷ 120 ∷ 105 ∷ 115 ∷ 116 ∷ 115 ∷ []

unfoldable pub looks_key_missing : Status → Bool
looks_key_missing ok = false
looks_key_missing (failure message) =
    contains key_not_found message
    || contains failed_to_load message
    || contains does_not_exist message

unfoldable pub looks_key_already_exists : Status → Bool
looks_key_already_exists ok = false
looks_key_already_exists (failure message) =
    contains key_already_exists message || contains already_exists message

abbrev pub is_ok : Status → Bool
is_ok ok = true
is_ok (failure message) = false

-- An output that is not there adds nothing.
abbrev pub output : Option Bytes → Bytes
output none = []
output (some bytes) = bytes
