-- ===== src/Template/Layout.antt =====
-- What the copies of `FaceTemplateSerializer::serialize` into the buffer add up to.
use mathlib.Core.List.{append-nil, append_assoc}
use native.Mathlib.Nat.{mod-eq_of_lt}
use android_vendor_extra_fac.Common.{
  ℕ, zero, suc, ◌+◌, ◌%◌, ◌^◌, ◌<◌, ◌≡◌, refl, ap, [], ◌∷◌, ◌++◌, arith, ltb, lt→ltb, Bytes, length,
  take, replicate, length-append, length-replicate, take-append, drop-append, take_all, to_word,
  le_bytes, if◌then◌else◌,
}
use android_vendor_extra_fac.Template.{FaceTemplate, calculate_checksum, memcpy, write_fields}

replicate_split {ℓ} :
    {A : Type ℓ} (n m k : ℕ) (a : A) → k ≡ n + m → replicate k a ≡ replicate n a ++ replicate m a
replicate_split zero m k a e = ap (λ i. replicate i a) (omega arith)
replicate_split (suc n) m zero a e = absurd (omega arith)
replicate_split (suc n) m (suc k) a e = ap (◌∷◌ a) (replicate_split n m k a (omega arith))

-- A copy to the end of what is written moves that end.
memcpy_fill :
    (done src : Bytes) (offset k m : ℕ)
    → length done ≡ offset
    → k ≡ length src + m
    → memcpy (done ++ replicate k 0) offset src ≡ (done ++ src) ++ replicate m 0
unfolding memcpy
memcpy_fill done src offset k m ho hk =
    let gap : Bytes = replicate (length src) 0 in
    let rest : Bytes = replicate m 0 in
    rw (
      take-append offset done (replicate k 0) ho,
      replicate_split {A = ℕ} (length src) m k 0 hk,
      ← append_assoc done gap rest,
      drop-append (offset + length src) (done ++ gap) rest
          (omega (arith, length-append done gap, length-replicate {A = ℕ} (length src) 0)),
      append_assoc done src rest,
    )

-- The copy of the template data is skipped where there is none.
memcpy_data :
    (done src : Bytes) (n k m : ℕ)
    → length done ≡ 16
    → length src ≡ n
    → k ≡ n + m
    → (if ltb 0 n then memcpy (done ++ replicate k 0) 16 (take n src) else done ++ replicate k 0)
      ≡ (done ++ src) ++ replicate m 0
memcpy_data done [] zero k m hd hs hk =
    rw (append-nil done) (ap (λ i. done ++ replicate i 0) (omega arith))
memcpy_data done [] (suc n) k m hd hs hk = absurd (omega arith)
memcpy_data done (x ∷ src) zero k m hd hs hk = absurd (omega arith)
memcpy_data done (x ∷ src) (suc n) k m hd hs hk =
    rw (lt→ltb 0 (suc n) (omega arith), take_all n src (omega arith))
      (memcpy_fill done (x ∷ src) 16 k m hd (omega arith))

-- The sixteen bytes in front of the template data.
abbrev pub header : FaceTemplate → Bytes
header t =
    ((le_bytes (t.version % 2 ^ 32) ++ le_bytes (to_word t.face_id))
      ++ le_bytes (to_word t.user_id))
    ++ le_bytes (length t.template_data)

-- What the checksum covers.
abbrev pub body : FaceTemplate → Bytes
body t = header t ++ t.template_data

-- For template data below 4 GiB the buffer is the fields one behind the other and their checksum.
pub write_fields_layout :
    (t : FaceTemplate)
    → length t.template_data < 2 ^ 32
    → write_fields t ≡ body t ++ le_bytes (calculate_checksum (body t))
unfolding write_fields
write_fields_layout t h =
    let n = length t.template_data in
    let p1 = le_bytes (t.version % 2 ^ 32) in
    let p2 = le_bytes (to_word t.face_id) in
    let p3 = le_bytes (to_word t.user_id) in
    let sum = le_bytes (calculate_checksum (body t)) in
    rw (
      mod-eq_of_lt h,
      memcpy_fill [] p1 0 (4 + 4 + 4 + 4 + n + 4) (12 + n + 4) refl (omega arith),
      memcpy_fill p1 p2 4 (12 + n + 4) (8 + n + 4) refl (omega arith),
      memcpy_fill (p1 ++ p2) p3 8 (8 + n + 4) (4 + n + 4) refl (omega arith),
      memcpy_fill ((p1 ++ p2) ++ p3) (le_bytes n) 12 (4 + n + 4) (n + 4) refl (omega arith),
      memcpy_data (header t) t.template_data n (n + 4) 4 refl refl refl,
      take-append (16 + n) (body t) (replicate 4 0) (omega arith),
      memcpy_fill (body t) sum (16 + n) 4 0 (omega arith) refl,
      append-nil (body t ++ sum),
      take_all (16 + n + 4) (body t ++ sum)
          (omega (arith, length-append (body t) sum, length-append (header t) t.template_data)),
    )
