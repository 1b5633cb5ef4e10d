-- ===== src/Crypto/Keys.antt =====
-- What default/CryptoClient.cpp relies on in Keystore2: what an operation computes, that keys stay, and
-- when a call succeeds.
use android_vendor_extra_fac.Common.{
  ℕ, ◌≤◌, ℤ, ◌≡◌, subst, sym, true, List, [], ◌++◌, Option, none, some, Bytes, length,
}
use android_vendor_extra_fac.Crypto.Keystore.{
  ok, KeyDescriptor, KeyParameter, SecurityLevel, get_storage_key_descriptor,
  get_mac_key_descriptor, encrypt_params, decrypt_params, sign_params, get_nonce_from_response,
  looks_key_missing, output,
}

-- What Keystore2 takes in one update; more is TOO_MUCH_DATA.
abbrev pub max_input : ℕ
max_input = 32768

-- `Running op f taken given k` says that in the state `k` the operation computes `f`, was given the
-- bytes `taken` and answered with `given`. `Answering k` says that the keystore does what it is asked
-- to: it takes operations with keys that it has, and they fail only where `f` does
-- or an update is too large. KeyMint makes the nonce of an encryption, of 12 bytes, and takes no other
-- length of nonce for a decryption.
pub record KeystoreLaws (level : SecurityLevel) : Type 1 where
  pub Key : Type 0
  pub key_of : KeyDescriptor → level.State → Option Key
  pub encipher : Key → Bytes → Bytes → Bytes
  pub decipher : Key → Bytes → Bytes → Option Bytes
  pub sign : Key → Bytes → Bytes
  pub Running : level.Operation → (Bytes → Option Bytes) → Bytes → Bytes → level.State → Type 0
  pub Answering : level.State → Type 0
  pub decipher-encipher :
      (key : Key) (nonce bytes : Bytes) → decipher key nonce (encipher key nonce bytes) ≡ some bytes
  pub sign_size : (key : Key) (bytes : Bytes) → length (sign key bytes) ≡ 32
  -- What an operation that was created computes, with the key that is there.
  pub encrypting_Running :
      (user : ℤ) (op : level.Operation) (nonce : Bytes) (response : List KeyParameter)
      → (k k1 : level.State)
      → level.create_operation (get_storage_key_descriptor user) encrypt_params k
        ≡ (ok, some op, response, k1)
      → get_nonce_from_response response ≡ some nonce
      → (key : Key) × (key_of (get_storage_key_descriptor user) k1 ≡ some key)
        × Running op (λ bytes. some (encipher key nonce bytes)) [] [] k1
        × (length nonce ≡ 12)
  pub decrypting_Running :
      (user : ℤ) (nonce : Bytes) (key : Key) (k : level.State)
      → length nonce ≡ 12
      → Answering k
      → key_of (get_storage_key_descriptor user) k ≡ some key
      → (op : level.Operation) × (response : List KeyParameter) × (k1 : level.State)
        × (level.create_operation (get_storage_key_descriptor user) (decrypt_params nonce) k
            ≡ (ok, some op, response, k1))
        × Running op (decipher key nonce) [] [] k1
  pub signing_Running :
      (op : level.Operation) (response : List KeyParameter) (k k1 : level.State)
      → level.create_operation get_mac_key_descriptor sign_params k ≡ (ok, some op, response, k1)
      → (key : Key) × (key_of get_mac_key_descriptor k1 ≡ some key)
        × Running op (λ bytes. some (sign key bytes)) [] [] k1
  pub signing_answers :
      (key : Key) (k : level.State)
      → Answering k
      → key_of get_mac_key_descriptor k ≡ some key
      → (op : level.Operation) × (response : List KeyParameter) × (k1 : level.State)
        × (level.create_operation get_mac_key_descriptor sign_params k
            ≡ (ok, some op, response, k1))
  pub update_Running :
      (op : level.Operation) (f : Bytes → Option Bytes) (taken given bytes : Bytes)
      → (out : Option Bytes) (k k1 : level.State) → Running op f taken given k
      → level.update op bytes k ≡ (ok, out, k1)
      → Running op f (taken ++ bytes) (given ++ output out) k1
  pub finish_Running :
      (op : level.Operation) (f : Bytes → Option Bytes) (taken given : Bytes)
      → (out : Option Bytes) (k k1 : level.State) → Running op f taken given k
      → level.finish op k ≡ (ok, out, k1)
      → f taken ≡ some (given ++ output out)
  pub update_answers :
      (op : level.Operation) (f : Bytes → Option Bytes) (taken given bytes : Bytes)
      → (k : level.State) → length bytes ≤ max_input
      → Answering k
      → Running op f taken given k
      → (level.update op bytes k).0 ≡ ok
  pub finish_answers :
      (op : level.Operation) (f : Bytes → Option Bytes) (taken given result : Bytes)
      → (k : level.State) → Answering k
      → Running op f taken given k
      → f taken ≡ some result
      → (level.finish op k).0 ≡ ok
  pub is_available_answers : (k : level.State) → Answering k → level.is_available k ≡ true
  -- A missing key is missing; making one keeps the others, and the other calls keep all keys.
  pub create_missing :
      (key : KeyDescriptor) (params : List KeyParameter) (k : level.State)
      → looks_key_missing (level.create_operation key params k).0 ≡ true
      → key_of key (level.create_operation key params k).3 ≡ none
  pub generate_keeps :
      (new key : KeyDescriptor) (params : List KeyParameter) (secret : Key) (k : level.State)
      → key_of new k ≡ none
      → key_of key k ≡ some secret
      → key_of key (level.generate_key new params k).1 ≡ some secret
  pub create_keeps :
      (new key : KeyDescriptor) (params : List KeyParameter) (secret : Key) (k : level.State)
      → key_of key k ≡ some secret
      → key_of key (level.create_operation new params k).3 ≡ some secret
  pub update_keeps :
      (op : level.Operation) (bytes : Bytes) (key : KeyDescriptor) (secret : Key)
      → (k : level.State) → key_of key k ≡ some secret
      → key_of key (level.update op bytes k).2 ≡ some secret
  pub finish_keeps :
      (op : level.Operation) (key : KeyDescriptor) (secret : Key) (k : level.State)
      → key_of key k ≡ some secret
      → key_of key (level.finish op k).2 ≡ some secret
  pub abort_keeps :
      (op : level.Operation) (key : KeyDescriptor) (secret : Key) (k : level.State)
      → key_of key k ≡ some secret
      → key_of key (level.abort op k) ≡ some secret
  -- A keystore that answers goes on doing so.
  pub generate_Answering :
      (key : KeyDescriptor) (params : List KeyParameter) (k : level.State)
      → Answering k
      → Answering (level.generate_key key params k).1
  pub create_Answering :
      (key : KeyDescriptor) (params : List KeyParameter) (k : level.State)
      → Answering k
      → Answering (level.create_operation key params k).3
  pub update_Answering :
      (op : level.Operation) (bytes : Bytes) (k : level.State)
      → Answering k
      → Answering (level.update op bytes k).2
  pub finish_Answering :
      (op : level.Operation) (k : level.State) → Answering k → Answering (level.finish op k).2
  pub abort_Answering :
      (op : level.Operation) (k : level.State) → Answering k → Answering (level.abort op k)

module _ {level : SecurityLevel} (laws : KeystoreLaws level) where
  -- Every key of `k` is there in `l`, and a keystore that answered still does.
  abbrev pub Kept : level.State → level.State → Type 0
  Kept k l =
      ((key : KeyDescriptor) (secret : laws.Key)
        → laws.key_of key k ≡ some secret
        → laws.key_of key l ≡ some secret)
      × (laws.Answering k → laws.Answering l)

  abbrev pub Later : level.State → level.State → Type 0
  Later k l =
      ((key : KeyDescriptor) (secret : laws.Key)
        → laws.key_of key k ≡ some secret
        → laws.key_of key l ≡ some secret)
      × laws.Answering l

  pub kept : (k : level.State) → Kept k k
  kept k = (λ key secret h. h, λ a. a)

  pub Kept-trans : (k l m : level.State) → Kept k l → Kept l m → Kept k m
  Kept-trans k l m p q = (λ key secret h. q.0 key secret (p.0 key secret h), λ a. q.1 (p.1 a))

  pub Kept-eq : (k l m : level.State) → Kept k l → m ≡ l → Kept k m
  Kept-eq k l m p e = subst (λ x. Kept k x) (sym e) p
