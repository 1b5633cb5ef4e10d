-- ===== src/Tests/StorageRuns.antt =====
-- Runs of FaceStorageManager.cpp and of the payload of CryptoClient.cpp.
use android_vendor_extra_fac.Common.{
  to_string, digits, contains, starts_with, ℕ, map, sym, subst, ◌≡◌, refl, true, [], ◌∷◌, replicate,
  pos, negsuc, arith, some,
}
use android_vendor_extra_fac.Crypto.Payload.{
  serialize_storage_payload, parse_storage_payload, parse_storage_payload-serialize_storage_payload,
  serialize_storage_payload-parse_storage_payload,
}
use android_vendor_extra_fac.Template.{
  FaceTemplate, serialize, deserialize, read_fields, write_fields, memcpy, calculate_checksum,
  hash_bytes, hash_byte,
}
use android_vendor_extra_fac.Template.RoundTrip.{stored}
use android_vendor_extra_fac.Storage.{
  is_face_file, read_file, deserialize_and_validate, load_plaintext, remove_existing,
  make_directory, make_user_directory, user_directory, file_path, plaintext_file_path, replace_file,
  save_template, load_template,
}
use android_vendor_extra_fac.Storage.SaveLoad.{IsUndisturbed, load_template-save_template}
use android_vendor_extra_fac.VendorCode.{initial}
use android_vendor_extra_fac.Storage.Listing.{
  load_all_templates_for_user, load_names, load_one, file_face_id, scan_int, scan_signed,
  scan_unsigned, scan_digits, is_loaded,
}
use android_vendor_extra_fac.Storage.Owned.{
  Owned, Listed, load_template-Owned, load_all_templates_for_user-Listed,
}
use android_vendor_extra_fac.Storage.Callbacks.{
  FloatMemory, Sized, load_embeddings, load_embeddings_keeps,
}
use android_vendor_extra_fac.Tests.Toys.{
  Files, toy_crypto, toy_laws, toy_later, toy_files, toy_files_laws, card, blank,
}
use android_vendor_extra_fac.Tests.TemplateRuns.{card-IsCurrent}

-- "-42"
to_string_negative : to_string (negsuc 41) ≡ 45 ∷ 52 ∷ 50 ∷ []
unfolding to_string digits
to_string_negative = refl

card_saved : (save_template toy_files toy_crypto card [] tt).0 ≡ true
unfolding save_template replace_file make_user_directory make_directory file_path
    plaintext_file_path user_directory to_string digits serialize write_fields memcpy
card_saved = refl

card-IsUndisturbed : IsUndisturbed toy_files toy_crypto card [] tt
card-IsUndisturbed = (λ e. refl, λ e. (refl, λ h. refl))

load_template-save_template_example :
    let (loaded, t, d1, l1) =
      load_template toy_files toy_crypto 1
        (pos 10)
        (pos 3)
        blank
        (save_template toy_files toy_crypto card [] tt).1
        tt in
    (loaded ≡ true) × (t ≡ stored card (replicate 32 7))
load_template-save_template_example =
    load_template-save_template toy_files toy_files_laws toy_crypto toy_laws 1 card blank [] tt tt
      card-IsCurrent card-IsUndisturbed card_saved
      (toy_later (save_template toy_files toy_crypto card [] tt).2 tt)

parse_storage_payload-serialize_storage_payload_example :
    parse_storage_payload (serialize_storage_payload (1 ∷ 2 ∷ []) (3 ∷ []))
    ≡ some (1 ∷ 2 ∷ [], 3 ∷ [])
parse_storage_payload-serialize_storage_payload_example =
    parse_storage_payload-serialize_storage_payload (1 ∷ 2 ∷ []) (3 ∷ []) (λ e. cc) (omega arith)
      (λ e. cc)

parsed : parse_storage_payload (1 ∷ 1 ∷ 8 ∷ 9 ∷ []) ≡ some (8 ∷ [], 9 ∷ [])
unfolding parse_storage_payload
parsed = refl

serialize_storage_payload-parse_storage_payload_example :
    serialize_storage_payload (8 ∷ []) (9 ∷ []) ≡ 1 ∷ 1 ∷ 8 ∷ 9 ∷ []
serialize_storage_payload-parse_storage_payload_example =
    serialize_storage_payload-parse_storage_payload (1 ∷ 1 ∷ 8 ∷ 9 ∷ []) (8 ∷ []) (9 ∷ []) parsed

abbrev saved_files : Files
saved_files = (save_template toy_files toy_crypto card [] tt).1

load_template-Owned_example :
    let t = (load_template toy_files toy_crypto 1 (pos 10) (pos 3) blank saved_files tt).1 in
    Owned toy_files toy_crypto 1 (pos 10) t × (t.face_id ≡ pos 3)
load_template-Owned_example =
    load_template-Owned toy_files toy_crypto 1 (pos 10) (pos 3) blank saved_files tt
      load_template-save_template_example.0

-- The saved template is found by its file's name.
card_listed :
    map
      (λ (t : FaceTemplate). t.face_id)
      (load_all_templates_for_user toy_files toy_crypto 1 (pos 10) blank saved_files tt).0
    ≡ pos 3 ∷ []
unfolding load_all_templates_for_user load_names load_one make_user_directory make_directory
    user_directory to_string digits is_face_file starts_with contains file_face_id scan_int
    scan_signed scan_unsigned scan_digits is_loaded load_template read_file deserialize_and_validate
    deserialize read_fields load_plaintext file_path plaintext_file_path remove_existing
    replace_file save_template serialize write_fields memcpy calculate_checksum hash_bytes hash_byte
card_listed = refl

load_all_templates_for_user-Listed_example :
    Listed toy_files toy_crypto 1
      (pos 10)
      []
      (load_all_templates_for_user toy_files toy_crypto 1 (pos 10) blank saved_files tt).0
load_all_templates_for_user-Listed_example =
    load_all_templates_for_user-Listed toy_files toy_crypto 1 (pos 10) blank saved_files tt

-- Version 2 does not take the template of version 1.
none_listed :
    (load_all_templates_for_user toy_files toy_crypto 2 (pos 10) blank saved_files tt).0 ≡ []
unfolding load_all_templates_for_user load_names load_one make_user_directory make_directory
    user_directory to_string digits is_face_file starts_with contains file_face_id scan_int
    scan_signed scan_unsigned scan_digits is_loaded load_template read_file deserialize_and_validate
    deserialize read_fields load_plaintext file_path plaintext_file_path remove_existing
    replace_file save_template serialize write_fields memcpy calculate_checksum hash_bytes hash_byte
none_listed = refl

abbrev toy_floats : FloatMemory
toy_floats = record { Float = ℕ; to_memory = λ xs. xs; of_memory = λ xs. xs }

load_embeddings_keeps_example :
    let r =
      load_embeddings toy_files toy_crypto toy_floats 2 (pos 10) blank saved_files tt initial in
    (r.3 ≡ initial)
    × (r.1 ≡ (load_all_templates_for_user toy_files toy_crypto 2 (pos 10) blank saved_files tt).1)
load_embeddings_keeps_example =
    load_embeddings_keeps toy_files toy_crypto toy_floats 2 (pos 10) blank saved_files tt initial
      (subst (λ ts. Sized toy_files toy_crypto toy_floats ts) (sym none_listed) tt)
