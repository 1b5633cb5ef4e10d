-- ===== src/Crypto.antt =====
-- The interface of default/CryptoClient.cpp towards its clients, FaceTemplateSerializer.cpp and
-- FaceStorageManager.cpp: the four public operations over a state, which is the keystore's.
pub mod Payload
pub mod Keystore
pub mod Operations
pub mod Mac
pub mod Cipher
pub mod Keys
pub mod Running
pub mod Computes
pub mod Secrets
pub mod Ciphers
pub mod Deciphers
pub mod Client
use android_vendor_extra_fac.Common.{Bool, true, ◌≡◌, ◌≢◌, Bytes, length, [], ℤ}

-- `mCryptoClient`; an empty vector is the failure of `encrypt`, `decrypt` and `generateMac`.
pub record Crypto : Type 1 where
  pub State : Type 0
  pub encrypt : ℤ → Bytes → State → Bytes × State
  pub decrypt : ℤ → Bytes → State → Bytes × State
  pub generate_mac : Bytes → State → Bytes × State
  pub verify_mac : Bytes → Bytes → State → Bool × State

-- What clients rely on. `Later k l` says that `l` comes after `k`, with the keys of `k` still there
-- and the keystore answering.
pub record CryptoLaws (c : Crypto) : Type 1 where
  pub Later : c.State → c.State → Type 0
  pub encrypt-Later :
      (user : ℤ) (data' : Bytes) (k l : c.State) → Later (c.encrypt user data' k).1 l → Later k l
  pub decrypt-Later :
      (user : ℤ) (data' : Bytes) (k l : c.State) → Later k l → Later k (c.decrypt user data' l).1
  pub mac_size :
      (data' : Bytes) (k : c.State)
      → (c.generate_mac data' k).0 ≢ []
      → length (c.generate_mac data' k).0 ≡ 32
  pub verify_mac-generate_mac :
      (data' : Bytes) (k l : c.State)
      → (c.generate_mac data' k).0 ≢ []
      → Later (c.generate_mac data' k).1 l
      → (c.verify_mac data' (c.generate_mac data' k).0 l).0 ≡ true
  pub decrypt-encrypt :
      (user : ℤ) (data' : Bytes) (k l : c.State)
      → (c.encrypt user data' k).0 ≢ []
      → Later (c.encrypt user data' k).1 l
      → (c.decrypt user (c.encrypt user data' k).0 l).0 ≡ data'
