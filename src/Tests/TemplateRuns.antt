-- ===== src/Tests/TemplateRuns.antt =====
-- Runs of FaceTemplateSerializer.cpp.
use android_vendor_extra_fac.Common.{
  ◌+◌, ◌≡◌, ◌≢◌, refl, true, false, [], ◌∷◌, ◌++◌, Bytes, length, replicate, set, arith, is_empty,
  le_bytes,
}
use android_vendor_extra_fac.Template.{
  hash_byte, hash_bytes, calculate_checksum, memcpy, write_fields, mac_size, serialize, deserialize,
}
use android_vendor_extra_fac.Template.Checksum.{calculate_checksum_one_byte}
use android_vendor_extra_fac.Template.Layout.{body, write_fields_layout}
use android_vendor_extra_fac.Template.RoundTrip.{IsCurrent, stored, deserialize-serialize}
use android_vendor_extra_fac.Template.Decode.{deserialize_accepts}
use android_vendor_extra_fac.Template.Tamper.{deserialize_changed_byte}
use android_vendor_extra_fac.Tests.Toys.{
  toy_crypto, toy_laws, toy_later, card, blank, fit_bytes, fit_bytes-All,
}

pub card-IsCurrent : IsCurrent 1 card
card-IsCurrent = record {
  version = refl;
  version_fits = omega arith;
  face_fits = omega arith;
  user_fits = omega arith;
  data_fits = omega arith;
}

-- The checksum of FNV-1a's published test vector "a".
hash_a : calculate_checksum (97 ∷ []) ≡ 3826002220
unfolding calculate_checksum hash_bytes hash_byte
hash_a = refl

not_empty : (xs : Bytes) → is_empty xs ≡ false → xs ≢ []
not_empty [] h e = cc
not_empty (x ∷ xs) h e = cc

card_serializes : is_empty (serialize toy_crypto card tt).0 ≡ false
unfolding serialize write_fields memcpy
card_serializes = refl

deserialize-serialize_example :
    ((deserialize toy_crypto 1 (serialize toy_crypto card tt).0 blank tt).0 ≡ true)
    × ((deserialize toy_crypto 1 (serialize toy_crypto card tt).0 blank tt).1
        ≡ stored card (replicate 32 7))
deserialize-serialize_example =
    deserialize-serialize toy_crypto toy_laws 1 card blank tt tt card-IsCurrent
      (not_empty (serialize toy_crypto card tt).0 card_serializes)
      (toy_later (serialize toy_crypto card tt).1 tt)

card_bytes_small : fit_bytes (serialize toy_crypto card tt).0 ≡ true
unfolding serialize write_fields memcpy calculate_checksum hash_bytes hash_byte
card_bytes_small = refl

deserialize_accepts_example :
    let t = (deserialize toy_crypto 1 (serialize toy_crypto card tt).0 blank tt).1 in
    (t.version ≡ 1)
    × ((serialize toy_crypto card tt).0 ≡ write_fields t ++ t.mac)
    × (length t.mac ≡ mac_size)
    × ((toy_crypto.verify_mac (write_fields t) t.mac tt).0 ≡ true)
deserialize_accepts_example =
    deserialize_accepts toy_crypto 1 (serialize toy_crypto card tt).0 blank tt
      (fit_bytes-All (serialize toy_crypto card tt).0 card_bytes_small)
      deserialize-serialize_example.0

deserialize_changed_byte_example :
    (deserialize toy_crypto 1 (set (write_fields card ++ replicate 32 7) (16 + 1) 6) blank tt).0
    ≡ false
deserialize_changed_byte_example =
    deserialize_changed_byte toy_crypto 1 card blank (replicate 32 7) 1 5 6 tt card-IsCurrent
      (fit_bytes-All (200 ∷ 5 ∷ 9 ∷ []) refl) (omega arith) refl (λ e. omega arith) refl

calculate_checksum_one_byte_example :
    calculate_checksum ((1 ∷ []) ++ 2 ∷ 4 ∷ []) ≢ calculate_checksum ((1 ∷ []) ++ 3 ∷ 4 ∷ [])
calculate_checksum_one_byte_example =
    calculate_checksum_one_byte (1 ∷ []) 2 3 (4 ∷ []) (omega arith) (omega arith)
      (fit_bytes-All (4 ∷ []) refl) (λ e. omega arith)

write_fields_layout_example :
    write_fields card ≡ body card ++ le_bytes (calculate_checksum (body card))
write_fields_layout_example = write_fields_layout card (omega arith)
