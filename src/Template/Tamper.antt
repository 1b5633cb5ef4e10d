-- ===== src/Template/Tamper.antt =====
-- A stored template with one byte of its data changed, as FaceTemplateSerializer.cpp reads it.
use mathlib.Core.List.{append_assoc}
use android_vendor_extra_fac.Common.{
  ℕ, ◌+◌, ◌%◌, ◌^◌, ◌<◌, ◌≡◌, ◌≢◌, refl, sym, ap, ◌∙◌, zero, suc, [], to_word, ne→==, false, some,
  ◌∷◌, ◌++◌, arith, Bytes, length, get_elem?, set, set_split, length-set, length-append,
  set-append_left, set-append_right, All-append, IsByte, All, le_bytes,
}
use android_vendor_extra_fac.Crypto.{Crypto}
use android_vendor_extra_fac.Template.{
  FaceTemplate, calculate_checksum, write_fields, read_fields, mac_size, deserialize,
}
use android_vendor_extra_fac.Template.Checksum.{calculate_checksum-lt, calculate_checksum_one_byte}
use android_vendor_extra_fac.Template.Layout.{header, body, write_fields_layout}
use android_vendor_extra_fac.Template.RoundTrip.{IsCurrent, Holds, written, written-Holds}

-- A checksum that is not that of the bytes before it is refused.
read_fields_bad_sum :
    (current_version : ℕ) (bytes : Bytes) (t out : FaceTemplate) (sum : ℕ) (mac : Bytes)
    → Holds bytes t sum mac
    → sum ≢ calculate_checksum (body t)
    → (read_fields current_version bytes out).0 ≡ false
unfolding read_fields
read_fields_bad_sum current_version bytes t out sum mac h bad =
    rw (h.size, h.sum_place, h.covered, ne→== sum (calculate_checksum (body t)) bad) (ground arith)

-- `t` with the byte at `i` of its data overwritten.
abbrev changed : FaceTemplate → ℕ → ℕ → FaceTemplate
changed t i b = record t { template_data = set t.template_data i b }

length-get_elem? : (bytes : Bytes) (i a : ℕ) → get_elem? bytes i ≡ some a → i < length bytes
length-get_elem? [] i a e = cc
length-get_elem? (x ∷ xs) zero a e = omega arith
length-get_elem? (x ∷ xs) (suc i) a e = omega (arith, length-get_elem? xs i a e)

-- The header holds the size alone, which a change of a byte leaves.
sized_header : FaceTemplate → ℕ → Bytes
sized_header t n =
    ((le_bytes (t.version % 2 ^ 32) ++ le_bytes (to_word t.face_id))
      ++ le_bytes (to_word t.user_id))
    ++ le_bytes n

header-changed : (t : FaceTemplate) (i b : ℕ) → header t ≡ header (changed t i b)
unfolding sized_header
header-changed t i b = ap (sized_header t) (sym (length-set t.template_data i b))

changed_sum :
    (t : FaceTemplate) (i a b : ℕ)
    → All IsByte t.template_data
    → IsByte b
    → get_elem? t.template_data i ≡ some a
    → a ≢ b
    → calculate_checksum (body t) ≢ calculate_checksum (body (changed t i b))
changed_sum t i a b v hb at ne e =
    let (front, back, old, new) = set_split t.template_data i a b at in
    let bytes : All IsByte (front ++ a ∷ back) = rw old at v in
    let parts = All-append IsByte front (a ∷ back) bytes in
    calculate_checksum_one_byte (header t ++ front) a b back parts.1.0 hb parts.1.1 ne (
      rw
        (
          append_assoc (header t) front (a ∷ back),
          append_assoc (header t) front (b ∷ back),
          ← old,
          ← new,
        )
        (e
          ∙ ap (λ (h : Bytes). calculate_checksum (h ++ set t.template_data i b))
              (sym (header-changed t i b))))

changed-written :
    (t : FaceTemplate) (i b sum : ℕ) (mac : Bytes)
    → i < length t.template_data
    → set (written t sum mac) (16 + i) b ≡ written (changed t i b) sum mac
changed-written t i b sum mac h =
    let tail = le_bytes sum in
    set-append_left (body t ++ tail) mac (16 + i) b
      (omega (arith, length-append (body t) tail, length-append (header t) t.template_data))
    ∙ ap (λ (x : Bytes). x ++ mac)
        (set-append_left (body t) tail (16 + i) b
            (omega (arith, length-append (header t) t.template_data))
          ∙ ap (λ (x : Bytes). x ++ tail)
              (set-append_right (header t) t.template_data (16 + i) i b refl
                ∙ ap (λ (x : Bytes). x ++ set t.template_data i b) (header-changed t i b)))

module _ (crypto : Crypto) where
  deserialize_refused :
      (current_version : ℕ) (bytes : Bytes) (out : FaceTemplate) (k : crypto.State)
      → (read_fields current_version bytes out).0 ≡ false
      → (deserialize crypto current_version bytes out k).0 ≡ false
  unfolding deserialize
  deserialize_refused current_version bytes out k h = ground arith

  -- Where one byte of the template data of a stored template has been changed to another, the
  -- template is refused, also by a keystore that takes any MAC for good.
  pub deserialize_changed_byte :
      (current_version : ℕ) (t out : FaceTemplate) (mac : Bytes) (i a b : ℕ) (k : crypto.State)
      → IsCurrent current_version t
      → All IsByte t.template_data
      → IsByte b
      → get_elem? t.template_data i ≡ some a
      → a ≢ b
      → length mac ≡ mac_size
      → (deserialize crypto current_version (set (write_fields t ++ mac) (16 + i) b) out k).0
        ≡ false
  deserialize_changed_byte current_version t out mac i a b k cur v hb at ne size =
      let bytes = set (write_fields t ++ mac) (16 + i) b in
      let t' = changed t i b in
      let sum = calculate_checksum (body t) in
      let fits : length t'.template_data < 2 ^ 32 =
        omega (arith, cur.data_fits, length-set t.template_data i b) in
      let cur' : IsCurrent current_version t' = record {
        version = cur.version;
        version_fits = cur.version_fits;
        face_fits = cur.face_fits;
        user_fits = cur.user_fits;
        data_fits = fits;
      } in
      let whole : bytes ≡ written t' sum mac =
        ap (λ (x : Bytes). set (x ++ mac) (16 + i) b) (write_fields_layout t cur.data_fits)
        ∙ changed-written t i b sum mac (length-get_elem? t.template_data i a at) in
      let refused : (read_fields current_version bytes out).0 ≡ false = rw whole (
        read_fields_bad_sum current_version (written t' sum mac) t' out sum mac
          (written-Holds current_version t' sum mac cur' (calculate_checksum-lt (body t)) size)
          (changed_sum t i a b v hb at ne)) in
      deserialize_refused current_version bytes out k refused
