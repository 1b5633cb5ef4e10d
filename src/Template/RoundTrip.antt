-- ===== src/Template/RoundTrip.antt =====
-- A template that FaceTemplateSerializer.cpp serializes is read back as it was.
use mathlib.Core.List.{append_assoc}
use android_vendor_extra_fac.Common.{
  ℕ, ◌+◌, ◌-◌, ◌^◌, ◌≤◌, ◌<◌, ◌≡◌, ◌≢◌, refl, ap, ◌∙◌, Bool, true, [], ◌++◌, arith, Bytes, length,
  take, drop, length-append, take-append, drop-append, ==_iff, ==_refl, not-lt→ltb, IsInt32,
  to_word, to_word-lt, of_word, of_word-to_word, le_bytes, le_word, le_word-le_bytes,
}
use android_vendor_extra_fac.Crypto.{Crypto, CryptoLaws}
use android_vendor_extra_fac.Template.{
  FaceTemplate, calculate_checksum, write_fields, read_fields, mac_size, min_size, serialize,
  deserialize,
}
use android_vendor_extra_fac.Template.Checksum.{calculate_checksum-lt}
use android_vendor_extra_fac.Template.Layout.{header, body, write_fields_layout}

-- What a `FaceTemplate` object holds, and that its version is the one in use.
pub record IsCurrent (current_version : ℕ) (t : FaceTemplate) : Type 0 where
  pub version : t.version ≡ current_version
  pub version_fits : t.version < 2 ^ 32
  pub face_fits : IsInt32 t.face_id
  pub user_fits : IsInt32 t.user_id
  pub data_fits : length t.template_data < 2 ^ 32

-- The template as it comes back: the checksum and the MAC are those of the bytes.
abbrev pub stored : FaceTemplate → Bytes → FaceTemplate
stored t mac = record t { checksum = calculate_checksum (body t); mac = mac }

-- The places of a byte sequence where `deserialize` looks, and what stands there.
pub record Holds (bytes : Bytes) (t : FaceTemplate) (sum : ℕ) (mac : Bytes) : Type 0 where
  pub total : length bytes ≡ min_size + length t.template_data
  pub version : le_word bytes ≡ t.version
  pub face : of_word (le_word (drop 4 bytes)) ≡ t.face_id
  pub user : of_word (le_word (drop 8 bytes)) ≡ t.user_id
  pub size : le_word (drop 12 bytes) ≡ length t.template_data
  pub contents : take (length t.template_data) (drop 16 bytes) ≡ t.template_data
  pub sum_place : le_word (drop (16 + length t.template_data) bytes) ≡ sum
  pub covered : take (16 + length t.template_data) bytes ≡ body t
  pub mac_place : drop (length bytes - mac_size) bytes ≡ mac

-- A serialized template with the checksum `sum` in its place and `mac` behind it.
abbrev pub written : FaceTemplate → ℕ → Bytes → Bytes
written t sum mac = (body t ++ le_bytes sum) ++ mac

pub length-written :
    (t : FaceTemplate) (sum : ℕ) (mac : Bytes)
    → length mac ≡ mac_size
    → length (written t sum mac) ≡ min_size + length t.template_data
length-written t sum mac h = omega (
  arith,
  length-append (body t ++ le_bytes sum) mac,
  length-append (body t) (le_bytes sum),
  length-append (header t) t.template_data,
)

pub written-Holds :
    (current_version : ℕ) (t : FaceTemplate) (sum : ℕ) (mac : Bytes)
    → IsCurrent current_version t
    → sum < 2 ^ 32
    → length mac ≡ mac_size
    → Holds (written t sum mac) t sum mac
written-Holds current_version t sum mac v small h =
    let rest = (t.template_data ++ le_bytes sum) ++ mac in
    let n = length t.template_data in
    let assoc = append_assoc (body t) (le_bytes sum) mac in
    record {
      total = length-written t sum mac h;
      version = omega (arith, v.version_fits);
      face =
          rw
            (le_word-le_bytes (to_word t.face_id)
              (le_bytes (to_word t.user_id) ++ (le_bytes n ++ rest)) (to_word-lt t.face_id))
            (of_word-to_word t.face_id v.face_fits);
      user =
          rw (le_word-le_bytes (to_word t.user_id) (le_bytes n ++ rest) (to_word-lt t.user_id))
            (of_word-to_word t.user_id v.user_fits);
      size = le_word-le_bytes n rest v.data_fits;
      contents = rw append_assoc (take-append n t.template_data (le_bytes sum ++ mac) refl);
      sum_place =
          rw (assoc, drop-append (16 + n) (body t) (le_bytes sum ++ mac) (omega arith))
            (le_word-le_bytes sum mac small);
      covered = rw (assoc, take-append (16 + n) (body t) (le_bytes sum ++ mac) (omega arith));
      mac_place =
          drop-append (length (written t sum mac) - mac_size) (body t ++ le_bytes sum) mac
            (omega (arith, length-append (body t ++ le_bytes sum) mac));
    }

read_fields-Holds :
    (current_version : ℕ) (bytes : Bytes) (t out : FaceTemplate) (sum : ℕ) (mac : Bytes)
    → Holds bytes t sum mac
    → t.version ≡ current_version
    → sum ≡ calculate_checksum (body t)
    → read_fields current_version bytes out ≡ (true, stored t mac)
unfolding read_fields
read_fields-Holds current_version bytes t out sum mac h v c =
    let n = length t.template_data in
    rw (
      h.mac_place,
      h.version,
      h.face,
      h.user,
      h.size,
      h.contents,
      h.sum_place,
      h.covered,
      h.total,
      (==_iff t.version current_version).1 v,
      c,
      ==_refl (min_size + n),
      ==_refl (calculate_checksum (body t)),
    )

module _ (crypto : Crypto) where
  -- Behind a verified MAC the result is that of the fields.
  pub deserialize_verified :
      (current_version : ℕ) (bytes : Bytes) (out : FaceTemplate) (k : crypto.State)
      → min_size ≤ length bytes
      → (crypto.verify_mac
          (take (length bytes - mac_size) bytes)
          (drop (length bytes - mac_size) bytes)
          k).0
        ≡ true
      → ((deserialize crypto current_version bytes out k).0
          ≡ (read_fields current_version bytes out).0)
        × ((deserialize crypto current_version bytes out k).1
            ≡ (read_fields current_version bytes out).1)
  unfolding deserialize
  deserialize_verified current_version bytes out k long verified =
      rw (not-lt→ltb (length bytes) min_size long, verified) (refl, refl)

  pub serialize_mac :
      (t : FaceTemplate) (k : crypto.State)
      → (serialize crypto t k).0 ≢ []
      → ((crypto.generate_mac (write_fields t) k).0 ≢ [])
        × (serialize crypto t k ≡ (
          write_fields t ++ (crypto.generate_mac (write_fields t) k).0,
          (crypto.generate_mac (write_fields t) k).1,
        ))
  unfolding serialize
  serialize_mac t k h = ground arith

module _ (crypto : Crypto) (laws : CryptoLaws crypto) where
  -- What `serialize` wrote of a template of the version in use, with less than 4 GiB of bytes and ids
  -- of 32 bits, is accepted later on where the keys were kept and the keystore answers, whatever the
  -- caller's template held before, and comes back with the checksum and the MAC of the bytes.
  pub deserialize-serialize :
      (current_version : ℕ) (t out : FaceTemplate) (k l : crypto.State)
      → IsCurrent current_version t
      → (serialize crypto t k).0 ≢ []
      → laws.Later (serialize crypto t k).1 l
      → ((deserialize crypto current_version (serialize crypto t k).0 out l).0 ≡ true)
        × ((deserialize crypto current_version (serialize crypto t k).0 out l).1
            ≡ stored t (crypto.generate_mac (write_fields t) k).0)
  deserialize-serialize current_version t out k l v nonempty later =
      let buffer = write_fields t in
      let mac = (crypto.generate_mac buffer k).0 in
      let (given, parts) = serialize_mac crypto t k nonempty in
      let size : length mac ≡ mac_size = laws.mac_size buffer k given in
      let sum = calculate_checksum (body t) in
      let whole : buffer ++ mac ≡ written t sum mac =
        ap (λ (b : Bytes). b ++ mac) (write_fields_layout t v.data_fits) in
      let front : length (buffer ++ mac) - mac_size ≡ length buffer =
        omega (arith, length-append buffer mac) in
      let reads : read_fields current_version (buffer ++ mac) out ≡ (true, stored t mac) =
        rw whole (
          read_fields-Holds current_version (written t sum mac) t out sum mac
            (written-Holds current_version t sum mac v (calculate_checksum-lt (body t)) size)
            v.version refl) in
      let (valid, result) =
        deserialize_verified crypto current_version (buffer ++ mac) out l
          (omega (arith, ap length whole, length-written t sum mac size))
          (rw
            (
              front,
              take-append (length buffer) buffer mac refl,
              drop-append (length buffer) buffer mac refl,
            )
            (laws.verify_mac-generate_mac buffer k l given (rw parts at later))) in
      rw parts (
        valid ∙ ap (λ (r : Bool × FaceTemplate). r.0) reads,
        result ∙ ap (λ (r : Bool × FaceTemplate). r.1) reads,
      )
