-- ===== src/Crypto/Operations.antt =====
-- Operations of Keystore2 in default/CryptoClient.cpp: made with a key that is generated where it is
-- missing, fed in chunks and finished.
use android_vendor_extra_fac.Common.{
  ℕ, zero, suc, ◌≤◌, ◌≡◌, refl, Bool, true, false, not, List, [], ◌∷◌, ◌++◌, Option, none, some,
  arith, if◌then◌else◌, Bytes, length, take, drop, length-drop,
}
use android_vendor_extra_fac.Crypto.Keystore.{
  Status, ok, failure, KeyDescriptor, KeyParameter, SecurityLevel, looks_key_missing,
  looks_key_already_exists, is_ok, output,
}

abbrev pub chunk_size : ℕ
chunk_size = 4096

module _ (level : SecurityLevel) where
  -- The operation of a `createOperation` that went well, with the parameters of the response.
  unfoldable pub created :
      Status
      → Option level.Operation
      → List KeyParameter
      → Option (level.Operation × List KeyParameter)
  created status none params = none
  created ok (some op) params = some (op, params)
  created (failure message) (some op) params = none

  unfoldable pub generate_key : KeyDescriptor → List KeyParameter → level.State → Bool × level.State
  unfolding looks_key_already_exists
  generate_key key params k =
      let (status, k1) = level.generate_key key params k in
      if not (level.is_available k)
      then (false, k)
      else if is_ok status
      then (true, k1)
      else (looks_key_already_exists status, k1)

  -- `createOperation`, and once more where the key was missing and could be made.
  unfoldable pub open_operation :
      KeyDescriptor
      → List KeyParameter
      → List KeyParameter
      → level.State
      → Option (level.Operation × List KeyParameter) × level.State
  unfolding created looks_key_missing generate_key
  open_operation key key_params params k =
      let (status, operation, response, k1) = level.create_operation key params k in
      let (generated, k2) = generate_key key key_params k1 in
      let (status2, operation2, response2, k3) = level.create_operation key params k2 in
      elim (created status operation response) [
        | some op ↦ (some op, k1)
        | none ↦
            if not (looks_key_missing status)
            then (none, k1)
            else if not generated
            then (none, k2)
            else (created status2 operation2 response2, k3)
      ]

  -- The loop, with a round for each unit of fuel; `none` is a failed update.
  unfoldable pub feed :
      ℕ → level.Operation → Bytes → Bytes → level.State → Option Bytes × level.State
  feed zero op bytes accum k = (some accum, k)
  feed (suc fuel) op [] accum k = (some accum, k)
  feed (suc fuel) op (b ∷ bytes) accum k =
      let (status, out, k1) = level.update op (take chunk_size (b ∷ bytes)) k in
      let rest = feed fuel op (drop chunk_size (b ∷ bytes)) (accum ++ output out) k1 in
      if is_ok status then rest else (none, level.abort op k1)

  unfoldable pub finish_operation :
      level.Operation → Bytes → level.State → Option Bytes × level.State
  finish_operation op accum k =
      let (status, out, k1) = level.finish op k in
      if is_ok status then (some (accum ++ output out), k1) else (none, level.abort op k1)

  -- All of the data through an operation; `none` where an update or the end of it fails.
  unfoldable pub run_operation : level.Operation → Bytes → level.State → Option Bytes × level.State
  unfolding feed finish_operation
  run_operation op bytes k =
      let (fed, k1) = feed (length bytes) op bytes [] k in
      elim fed [ none ↦ (none, k1) | some accum ↦ finish_operation op accum k1 ]

  -- As many rounds as there are bytes are enough: more of them change nothing.
  pub feed_enough :
      (more fuel : ℕ) (op : level.Operation) (bytes accum : Bytes) (k : level.State)
      → length bytes ≤ fuel
      → length bytes ≤ more
      → feed fuel op bytes accum k ≡ feed more op bytes accum k
  unfolding feed
  feed_enough zero zero op [] accum k p q = refl
  feed_enough zero (suc fuel) op [] accum k p q = refl
  feed_enough (suc more) zero op [] accum k p q = refl
  feed_enough (suc more) (suc fuel) op [] accum k p q = refl
  feed_enough zero fuel op (b ∷ bytes) accum k p q = absurd (omega arith)
  feed_enough (suc more) zero op (b ∷ bytes) accum k p q = absurd (omega arith)
  feed_enough (suc more) (suc fuel) op (b ∷ bytes) accum k p q =
      let shorter = length-drop chunk_size (b ∷ bytes) in
      let (status, out, k1) = level.update op (take chunk_size (b ∷ bytes)) k in
      let rest =
        feed_enough more fuel op (drop chunk_size (b ∷ bytes)) (accum ++ output out) k1
          (omega (arith, shorter)) (omega (arith, shorter)) in
      rw (rest) refl
