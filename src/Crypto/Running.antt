-- ===== src/Crypto/Running.antt =====
-- How operations of default/CryptoClient.cpp run on a keystore that keeps its laws: keys stay, a run
-- that ends well has computed the operation's function, and on a keystore that answers it ends well.
use android_vendor_extra_fac.Common.{
  ℕ, zero, suc, ◌≡◌, refl, true, inl, inr, List, [], ◌∷◌, ◌++◌, none, Bytes, length, take, drop,
  Bool-cases, Option-cases,
}
use android_vendor_extra_fac.Crypto.Keystore.{
  Status, ok, failure, KeyDescriptor, KeyParameter, SecurityLevel, looks_key_missing, is_ok, output,
}
use android_vendor_extra_fac.Crypto.Operations.{
  created, generate_key, open_operation, chunk_size, feed, finish_operation, run_operation,
}
use android_vendor_extra_fac.Crypto.Keys.{KeystoreLaws, Kept, kept, Kept-trans, Kept-eq}

pub is_ok→ok : (s : Status) → is_ok s ≡ true → s ≡ ok
is_ok→ok ok h = refl
is_ok→ok (failure message) h = cc

module _ {level : SecurityLevel} (laws : KeystoreLaws level) where
  pub create_operation-Kept :
      (key : KeyDescriptor) (params : List KeyParameter) (k : level.State)
      → Kept laws k (level.create_operation key params k).3
  create_operation-Kept key params k = (
    λ other secret h. laws.create_keeps key other params secret k h,
    laws.create_Answering key params k,
  )

  update-Kept :
      (op : level.Operation) (bytes : Bytes) (k : level.State)
      → Kept laws k (level.update op bytes k).2
  update-Kept op bytes k =
      (λ key secret h. laws.update_keeps op bytes key secret k h, laws.update_Answering op bytes k)

  finish-Kept : (op : level.Operation) (k : level.State) → Kept laws k (level.finish op k).2
  finish-Kept op k =
      (λ key secret h. laws.finish_keeps op key secret k h, laws.finish_Answering op k)

  pub abort-Kept : (op : level.Operation) (k : level.State) → Kept laws k (level.abort op k)
  abort-Kept op k = (λ key secret h. laws.abort_keeps op key secret k h, laws.abort_Answering op k)

  generate_key-Kept :
      (key : KeyDescriptor) (params : List KeyParameter) (k : level.State)
      → laws.key_of key k ≡ none
      → Kept laws k (generate_key level key params k).1
  unfolding generate_key
  generate_key-Kept key params k missing =
      let made : Kept laws k (level.generate_key key params k).1 = (
        λ other secret h. laws.generate_keeps key other params secret k missing h,
        laws.generate_Answering key params k,
      ) in
      elim (Bool-cases (level.is_available k)) [
        | inr e ↦ rw (e) (kept laws k)
        | inl e ↦ elim (Bool-cases (is_ok (level.generate_key key params k).0)) [
          | inl f ↦ rw (e, f) made
          | inr f ↦ rw (e, f) made
        ]
      ]

  pub open_operation-Kept :
      (key : KeyDescriptor) (key_params params : List KeyParameter) (k : level.State)
      → Kept laws k (open_operation level key key_params params k).1
  unfolding open_operation
  open_operation-Kept key key_params params k =
      let (status, operation, response, k1) = level.create_operation key params k in
      let last = (open_operation level key key_params params k).1 in
      let first = create_operation-Kept key params k in
      elim (Option-cases (created level status operation response)) [
        | inr (op, e) ↦ Kept-eq laws k k1 last first (rw (e, open_operation) refl)
        | inl e ↦ elim (Bool-cases (looks_key_missing status)) [
          | inr f ↦ Kept-eq laws k k1 last first (rw (e, open_operation) (rw (f) refl))
          | inl f ↦
              let (generated, k2) = generate_key level key key_params k1 in
              let (status2, operation2, response2, k3) = level.create_operation key params k2 in
              let second : Kept laws k k2 =
                Kept-trans laws k k1 k2 first
                  (generate_key-Kept key key_params k1 (laws.create_missing key params k f)) in
              let third : Kept laws k k3 =
                Kept-trans laws k k2 k3 second (create_operation-Kept key params k2) in
              elim (Bool-cases generated) [
                | inr g ↦ Kept-eq laws k k2 last second (rw (e, open_operation) (rw (f, g) refl))
                | inl g ↦ Kept-eq laws k k3 last third (rw (e, open_operation) (rw (f, g) refl))
              ]
        ]
      ]

  pub feed-Kept :
      (fuel : ℕ) (op : level.Operation) (bytes accum : Bytes) (k : level.State)
      → Kept laws k (feed level fuel op bytes accum k).1
  unfolding feed
  feed-Kept zero op bytes accum k = kept laws k
  feed-Kept (suc fuel) op [] accum k = kept laws k
  feed-Kept (suc fuel) op (b ∷ bytes) accum k =
      let (status, out, k1) = level.update op (take chunk_size (b ∷ bytes)) k in
      let first = update-Kept op (take chunk_size (b ∷ bytes)) k in
      let rest = feed-Kept fuel op (drop chunk_size (b ∷ bytes)) (accum ++ output out) k1 in
      elim (Bool-cases (is_ok status)) [
        | inl e ↦ rw (e) (
            Kept-trans laws k k1
              (feed level fuel op (drop chunk_size (b ∷ bytes)) (accum ++ output out) k1).1 first
              rest)
        | inr e ↦ rw (e) (Kept-trans laws k k1 (level.abort op k1) first (abort-Kept op k1))
      ]

  finish_operation-Kept :
      (op : level.Operation) (accum : Bytes) (k : level.State)
      → Kept laws k (finish_operation level op accum k).1
  unfolding finish_operation
  finish_operation-Kept op accum k =
      let (status, out, k1) = level.finish op k in
      elim (Bool-cases (is_ok status)) [
        | inl e ↦ rw (e) (finish-Kept op k)
        | inr e ↦
            rw (e) (Kept-trans laws k k1 (level.abort op k1) (finish-Kept op k) (abort-Kept op k1))
      ]

  pub run_operation-Kept :
      (op : level.Operation) (bytes : Bytes) (k : level.State)
      → Kept laws k (run_operation level op bytes k).1
  unfolding run_operation
  run_operation-Kept op bytes k =
      let (fed, k1) = feed level (length bytes) op bytes [] k in
      let last = (run_operation level op bytes k).1 in
      let first = feed-Kept (length bytes) op bytes [] k in
      elim (Option-cases fed) [
        | inl e ↦ Kept-eq laws k k1 last first (rw (e, run_operation) refl)
        | inr (accum, e) ↦
            let k2 = (finish_operation level op accum k1).1 in
            Kept-eq laws k k2 last
              (Kept-trans laws k k1 k2 first (finish_operation-Kept op accum k1))
              (rw (e, run_operation) refl)
      ]
