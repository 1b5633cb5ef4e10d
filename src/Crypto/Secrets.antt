-- ===== src/Crypto/Secrets.antt =====
-- What the results of default/CryptoClient.cpp are made with: the MAC with the key that is there, the
-- payload with a key and a nonce.
use android_vendor_extra_fac.Common.{
  ◌≡◌, ◌≢◌, refl, sym, ap, ◌∙◌, subst, inl, inr, List, [], Option, none, some, Bytes, Bool-cases,
  Option-cases, none≢some, some_injective,
}
use android_vendor_extra_fac.Crypto.Keystore.{
  Status, ok, failure, KeyDescriptor, KeyParameter, SecurityLevel, get_mac_key_descriptor,
  mac_key_params, sign_params, looks_key_missing,
}
use android_vendor_extra_fac.Crypto.Operations.{
  created, generate_key, open_operation, run_operation,
}
use android_vendor_extra_fac.Crypto.Mac.{bytes_or_empty, sign_with_hmac_key}
use android_vendor_extra_fac.Crypto.Keys.{KeystoreLaws, Kept, kept, Kept-trans, Kept-eq}
use android_vendor_extra_fac.Crypto.Running.{
  create_operation-Kept, open_operation-Kept, run_operation-Kept,
}
use android_vendor_extra_fac.Crypto.Computes.{run_operation_result, run_operation_answers}

module _ (level : SecurityLevel) where
  created_parts :
      (status : Status) (operation : Option level.Operation) (params response : List KeyParameter)
      → (op : level.Operation) → created level status operation params ≡ some (op, response)
      → (status ≡ ok) × (operation ≡ some op) × (params ≡ response)
  unfolding created
  created_parts status none params response op h = cc
  created_parts ok (some op') params response op h = (refl, cc, cc)
  created_parts (failure message) (some op') params response op h = cc

  created_by :
      (key : KeyDescriptor) (params response : List KeyParameter) (op : level.Operation)
      → (k : level.State)
      → let (status, operation, response', k1) = level.create_operation key params k in
        created level status operation response' ≡ some (op, response)
        → level.create_operation key params k ≡ (ok, some op, response, k1)
  created_by key params response op k h =
      let (status, operation, response', k1) = level.create_operation key params k in
      let (s, o, r) = created_parts status operation response' response op h in rw⁻¹ (s, o, r) refl

  -- An operation that was opened was created, in one attempt or in the other.
  pub open_operation_created :
      (key : KeyDescriptor) (key_params params response : List KeyParameter)
      → (op : level.Operation) (k : level.State)
      → (open_operation level key key_params params k).0 ≡ some (op, response)
      → (k0 : level.State) × (level.create_operation key params k0
          ≡ (ok, some op, response, (open_operation level key key_params params k).1))
  unfolding open_operation
  open_operation_created key key_params params response op k h =
      let (status, operation, response1, k1) = level.create_operation key params k in
      let (generated, k2) = generate_key level key key_params k1 in
      let (status2, operation2, response2, k3) = level.create_operation key params k2 in
      let opened = open_operation level key key_params params k in
      elim (Option-cases (created level status operation response1)) [
        | inr (a, e) ↦
            let eq : opened ≡ (some a, k1) = rw (e, open_operation) refl in
            let given = e ∙ sym (ap (λ x. x.0) eq) ∙ h in
            (
              k,
              subst (λ x. level.create_operation key params k ≡ (ok, some op, response, x))
                  (sym (ap (λ x. x.1) eq)) (created_by key params response op k given),
            )
        | inl e ↦ elim (Bool-cases (looks_key_missing status)) [
          | inr f ↦
              let eq : opened ≡ (none, k1) = rw (e, open_operation) (rw (f) refl) in
              absurd (none≢some (sym (ap (λ x. x.0) eq) ∙ h))
          | inl f ↦ elim (Bool-cases generated) [
            | inr g ↦
                let eq : opened ≡ (none, k2) = rw (e, open_operation) (rw (f, g) refl) in
                absurd (none≢some (sym (ap (λ x. x.0) eq) ∙ h))
            | inl g ↦
                let eq : opened ≡ (created level status2 operation2 response2, k3) =
                  rw (e, open_operation) (rw (f, g) refl) in
                let given = sym (ap (λ x. x.0) eq) ∙ h in
                (
                  k2,
                  subst (λ x. level.create_operation key params k2 ≡ (ok, some op, response, x))
                      (sym (ap (λ x. x.1) eq)) (created_by key params response op k2 given),
                )
          ]
        ]
      ]

  pub created_all :
      (key : KeyDescriptor) (params response : List KeyParameter) (op : level.Operation)
      → (k k1 : level.State) → level.create_operation key params k ≡ (ok, some op, response, k1)
      → let (status, operation, response', k1') = level.create_operation key params k in
        created level status operation response' ≡ some (op, response)
  unfolding created
  created_all key params response op k k1 e =
      rw (ap (λ x. x.0) e, ap (λ x. x.1) e, ap (λ x. x.2) e) refl

  open_operation_opens :
      (key : KeyDescriptor) (key_params params response : List KeyParameter)
      → (op : level.Operation) (k k1 : level.State)
      → level.create_operation key params k ≡ (ok, some op, response, k1)
      → open_operation level key key_params params k ≡ (some (op, response), k1)
  unfolding open_operation
  open_operation_opens key key_params params response op k k1 e =
      rw (created_all key params response op k k1 e, open_operation)
        (ap (λ x. (some (op, response), x.3)) e)

module _ {level : SecurityLevel} (laws : KeystoreLaws level) where
  pub sign_with_hmac_key-Kept :
      (bytes : Bytes) (k : level.State) → Kept laws k (sign_with_hmac_key level bytes k).1
  unfolding sign_with_hmac_key
  sign_with_hmac_key-Kept bytes k =
      let (operation, k1) =
        open_operation level get_mac_key_descriptor mac_key_params sign_params k in
      let last = (sign_with_hmac_key level bytes k).1 in
      let first = open_operation-Kept laws get_mac_key_descriptor mac_key_params sign_params k in
      elim (Bool-cases (level.is_available k)) [
        | inr e ↦ Kept-eq laws k k last (kept laws k) (rw (e) refl)
        | inl e ↦ elim (Option-cases operation) [
          | inl f ↦ Kept-eq laws k k1 last first (rw (e, f, sign_with_hmac_key) refl)
          | inr ((op, response), f) ↦
              let k2 = (run_operation level op bytes k1).1 in
              Kept-eq laws k k2 last
                (Kept-trans laws k k1 k2 first (run_operation-Kept laws op bytes k1))
                (rw (e, f, sign_with_hmac_key) refl)
        ]
      ]

  -- A MAC that is not empty was signed with the key that is there behind it.
  pub sign_with_hmac_key_signed :
      (bytes : Bytes) (k : level.State)
      → (sign_with_hmac_key level bytes k).0 ≢ []
      → (key : laws.Key) × (laws.key_of get_mac_key_descriptor (sign_with_hmac_key level bytes k).1
          ≡ some key)
        × ((sign_with_hmac_key level bytes k).0 ≡ laws.sign key bytes)
  unfolding sign_with_hmac_key
  sign_with_hmac_key_signed bytes k h =
      let (operation, k1) =
        open_operation level get_mac_key_descriptor mac_key_params sign_params k in
      let signed = sign_with_hmac_key level bytes k in
      elim (Bool-cases (level.is_available k)) [
        | inr e ↦ let nothing : signed.0 ≡ [] = rw (e) refl in absurd (h nothing)
        | inl e ↦ elim (Option-cases operation) [
          | inl f ↦
              let nothing : signed.0 ≡ [] = rw (e, f, sign_with_hmac_key) refl in absurd (h nothing)
          | inr ((op, response), f) ↦
              let (mac, k2) = run_operation level op bytes k1 in
              let whole : signed ≡ (bytes_or_empty mac, k2) = rw (e, f, sign_with_hmac_key) refl in
              let (k0, made) =
                open_operation_created level get_mac_key_descriptor mac_key_params sign_params
                  response op k f in
              let (key, there, running) = laws.signing_Running op response k0 k1 made in
              elim (Option-cases mac) [
                | inl g ↦ absurd (h (ap (λ x. x.0) whole ∙ ap bytes_or_empty g))
                | inr (result, g) ↦
                    let same =
                      run_operation_result laws op (λ x. some (laws.sign key x)) bytes result k1
                        running g in
                    (
                      key,
                      ap (λ x. laws.key_of get_mac_key_descriptor x.1) whole
                          ∙ (run_operation-Kept laws op bytes k1).0 get_mac_key_descriptor key
                              there,
                      ap (λ x. x.0) whole ∙ ap bytes_or_empty (g ∙ sym same),
                    )
              ]
        ]
      ]

  pub sign_with_hmac_key_answers :
      (bytes : Bytes) (key : laws.Key) (k : level.State)
      → laws.Answering k
      → laws.key_of get_mac_key_descriptor k ≡ some key
      → (sign_with_hmac_key level bytes k).0 ≡ laws.sign key bytes
  unfolding sign_with_hmac_key
  sign_with_hmac_key_answers bytes key k a there =
      let (op, response, k1, made) = laws.signing_answers key k a there in
      let (key', there', running) = laws.signing_Running op response k k1 made in
      let (keys, answers) = create_operation-Kept laws get_mac_key_descriptor sign_params k in
      let after : (level.create_operation get_mac_key_descriptor sign_params k).3 ≡ k1 =
        ap (λ x. x.3) made in
      let kept_key : laws.key_of get_mac_key_descriptor k1 ≡ some key =
        subst (λ x. laws.key_of get_mac_key_descriptor x ≡ some key) after
          (keys get_mac_key_descriptor key there) in
      let same : key' ≡ key = some_injective (sym there' ∙ kept_key) in
      let done =
        run_operation_answers laws op (λ x. some (laws.sign key' x)) bytes (laws.sign key' bytes) k1
          (subst laws.Answering after (answers a)) running refl in
      let opened =
        open_operation_opens level get_mac_key_descriptor mac_key_params sign_params response op k
          k1 made in
      let whole : (sign_with_hmac_key level bytes k).0
          ≡ bytes_or_empty (run_operation level op bytes k1).0 =
        rw (laws.is_available_answers k a, ap (λ x. x.0) opened, sign_with_hmac_key)
          (ap (λ x. bytes_or_empty (run_operation level op bytes x.1).0) opened) in
      whole ∙ ap bytes_or_empty done ∙ ap (λ x. laws.sign x bytes) same
