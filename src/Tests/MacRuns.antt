-- ===== src/Tests/MacRuns.antt =====
-- Runs of CryptoClient.cpp on a keystore whose cipher changes nothing, and of FaceStorageManager.cpp
-- on top of it.
use android_vendor_extra_fac.Common.{
  ℕ, ◌≡◌, ◌↔◌, refl, sym, ap, ◌∙◌, true, false, List, [], ◌∷◌, ◌++◌, Bytes, Option, none, some,
  replicate, is_empty, arith, pos, subst, some_injective, length, digits, to_string, append-nil,
}
use android_vendor_extra_fac.Crypto.Keystore.{
  looks_key_missing, ok, SecurityLevel, KeyParameter, purpose, signing, nonce_param, output,
  get_nonce_from_response,
}
use android_vendor_extra_fac.Crypto.Operations.{
  feed, open_operation, run_operation, created, finish_operation, feed_enough,
}
use android_vendor_extra_fac.Crypto.Payload.{serialize_storage_payload}
use android_vendor_extra_fac.Crypto.Mac.{
  sign_with_hmac_key, generate_mac, verify_mac, verify_mac_lem,
}
use android_vendor_extra_fac.Crypto.Cipher.{encrypt, decrypt, encrypt_with}
use android_vendor_extra_fac.Crypto.Keys.{KeystoreLaws, Later}
use android_vendor_extra_fac.Crypto.Client.{client, decrypt-encrypt, verify_mac-generate_mac}
use android_vendor_extra_fac.Template.{serialize, write_fields, memcpy}
use android_vendor_extra_fac.Template.RoundTrip.{stored}
use android_vendor_extra_fac.Storage.{
  save_template, load_template, replace_file, make_user_directory, make_directory, file_path,
  plaintext_file_path, user_directory,
}
use android_vendor_extra_fac.Storage.SaveLoad.{IsUndisturbed}
use android_vendor_extra_fac.Storage.WithKeystore.{load_template-save_template_keystore}
use android_vendor_extra_fac.Tests.Toys.{toy_files, toy_files_laws, card, blank}
use android_vendor_extra_fac.Tests.TemplateRuns.{card-IsCurrent}

data Running : Type 0 where
  signs : Running
  copies : Running

abbrev purpose_of : List KeyParameter → Running
purpose_of (purpose signing ∷ params) = signs
purpose_of params = copies

abbrev update_output : Running → Bytes → Option Bytes
update_output signs bytes = none
update_output copies bytes = some bytes

abbrev finish_output : Running → Option Bytes
finish_output signs = some (replicate 32 7)
finish_output copies = none

abbrev toy_nonce : Bytes
toy_nonce = replicate 12 9

-- A keystore that has every key.
abbrev toy_level : SecurityLevel
toy_level = record {
  State = Unit {0};
  Operation = Running;
  is_available = λ k. true;
  generate_key = λ key params k. (ok, k);
  create_operation = λ key params k. (ok, some (purpose_of params), nonce_param toy_nonce ∷ [], k);
  update = λ op bytes k. (ok, update_output op bytes, k);
  finish = λ op k. (ok, finish_output op, k);
  abort = λ op k. k;
}

abbrev Computes : Running → (Bytes → Option Bytes) → Bytes → Bytes → Type 0
Computes signs f taken given = ((x : Bytes) → f x ≡ some (replicate 32 7)) × (given ≡ [])
Computes copies f taken given = ((x : Bytes) → f x ≡ some x) × (given ≡ taken)

update_Computes :
    (op : Running) (f : Bytes → Option Bytes) (taken given bytes : Bytes) (out : Option Bytes)
    → Computes op f taken given
    → update_output op bytes ≡ out
    → Computes op f (taken ++ bytes) (given ++ output out)
update_Computes signs f taken given bytes none h e = (h.0, ap (λ x. x ++ []) h.1)
update_Computes signs f taken given bytes (some x) h e = cc
update_Computes copies f taken given bytes none h e = cc
update_Computes copies f taken given bytes (some x) h e =
    let same : bytes ≡ x = cc in (h.0, ap (λ y. y ++ x) h.1 ∙ ap (λ y. taken ++ y) (sym same))

finish_Computes :
    (op : Running) (f : Bytes → Option Bytes) (taken given : Bytes) (out : Option Bytes)
    → Computes op f taken given
    → finish_output op ≡ out
    → f taken ≡ some (given ++ output out)
finish_Computes signs f taken given none h e = cc
finish_Computes signs f taken given (some x) h e =
    let same : replicate 32 7 ≡ x = cc in h.0 taken ∙ ap some (same ∙ ap (λ y. y ++ x) (sym h.1))
finish_Computes copies f taken given none h e =
    h.0 taken ∙ ap some (sym h.1 ∙ sym (append-nil given))
finish_Computes copies f taken given (some x) h e = cc

toy_nonce-length :
    (response : List KeyParameter) (nonce : Bytes)
    → nonce_param toy_nonce ∷ [] ≡ response
    → get_nonce_from_response response ≡ some nonce
    → length nonce ≡ 12
unfolding get_nonce_from_response
toy_nonce-length response nonce e g =
    ap length (sym (some_injective (ap get_nonce_from_response e ∙ g)))

toy_keystore : KeystoreLaws toy_level
unfolding looks_key_missing
toy_keystore = record {
  Key = Unit {0};
  key_of = λ key k. some tt;
  encipher = λ key nonce bytes. bytes;
  decipher = λ key nonce bytes. some bytes;
  sign = λ key bytes. replicate 32 7;
  Running = λ op f taken given k. Computes op f taken given;
  Answering = λ k. Unit {0};
  decipher-encipher = λ key nonce bytes. refl;
  sign_size = λ key bytes. refl;
  encrypting_Running = λ user op nonce response k k1 e g. (
    tt,
    refl,
    subst (λ o. Computes o (λ bytes. some bytes) [] []) (some_injective (ap (λ x. x.1) e))
        (λ x. refl, refl),
    toy_nonce-length response nonce (ap (λ x. x.2) e) g,
  );
  decrypting_Running =
      λ user nonce key k n a h. (copies, nonce_param toy_nonce ∷ [], k, refl, (λ x. refl, refl));
  signing_Running = λ op response k k1 e. (
    tt,
    refl,
    subst (λ o. Computes o (λ bytes. some (replicate 32 7)) [] [])
        (some_injective (ap (λ x. x.1) e)) (λ x. refl, refl),
  );
  signing_answers = λ key k a h. (signs, nonce_param toy_nonce ∷ [], k, refl);
  update_Running = λ op f taken given bytes out k k1 r e.
      update_Computes op f taken given bytes out r (ap (λ x. x.1) e);
  finish_Running =
      λ op f taken given out k k1 r e. finish_Computes op f taken given out r (ap (λ x. x.1) e);
  update_answers = λ op f taken given bytes k fits a r. refl;
  finish_answers = λ op f taken given result k a r h. refl;
  is_available_answers = λ k a. refl;
  create_missing = λ key params k h. cc;
  generate_keeps = λ new key params secret k m h. h;
  create_keeps = λ new key params secret k h. h;
  update_keeps = λ op bytes key secret k h. h;
  finish_keeps = λ op key secret k h. h;
  abort_keeps = λ op key secret k h. h;
  generate_Answering = λ key params k a. a;
  create_Answering = λ key params k a. a;
  update_Answering = λ op bytes k a. a;
  finish_Answering = λ op k a. a;
  abort_Answering = λ op k a. a;
}

abbrev letter : Bytes
letter = 1 ∷ 2 ∷ []

feed_enough_example : feed toy_level 2 copies letter [] tt ≡ feed toy_level 9 copies letter [] tt
feed_enough_example = feed_enough toy_level 9 2 copies letter [] tt (omega arith) (omega arith)

abbrev wrong_mac : Bytes
wrong_mac = 3 ∷ []

verify_mac_lem_example :
    ((verify_mac toy_level letter wrong_mac tt).0 ≡ true)
    ↔ ((is_empty wrong_mac ≡ false) × (wrong_mac ≡ (sign_with_hmac_key toy_level letter tt).0))
verify_mac_lem_example = verify_mac_lem toy_level letter wrong_mac tt

encrypts : (encrypt toy_level (pos 10) letter tt).0 ≡ 1 ∷ 12 ∷ (toy_nonce ++ letter)
unfolding encrypt open_operation created get_nonce_from_response encrypt_with run_operation feed
    finish_operation serialize_storage_payload
encrypts = refl

later : (k l : Unit {0}) → Later toy_keystore k l
unfolding toy_keystore
later k l = (λ key secret h. h, tt)

decrypt-encrypt_example :
    (decrypt toy_level (pos 10) (encrypt toy_level (pos 10) letter tt).0 tt).0 ≡ letter
decrypt-encrypt_example =
    decrypt-encrypt toy_keystore (pos 10) letter tt tt (λ e. not_nil (sym encrypts ∙ e))
      (later (encrypt toy_level (pos 10) letter tt).1 tt)
  where
    not_nil : {x : ℕ} {xs : Bytes} → x ∷ xs ≡ [] → ⊥
    not_nil e = cc

macs : (generate_mac toy_level letter tt).0 ≡ replicate 32 7
unfolding generate_mac sign_with_hmac_key open_operation created run_operation feed finish_operation
macs = refl

verify_mac-generate_mac_example :
    ((verify_mac toy_level letter (generate_mac toy_level letter tt).0 tt).0 ≡ true)
    × (length (generate_mac toy_level letter tt).0 ≡ 32)
verify_mac-generate_mac_example =
    verify_mac-generate_mac toy_keystore letter tt tt (λ e. not_nil (sym macs ∙ e))
      (later (generate_mac toy_level letter tt).1 tt)
  where
    not_nil : replicate {A = ℕ} 32 7 ≡ [] → ⊥
    not_nil e = cc

card_saved : (save_template toy_files (client toy_level) card [] tt).0 ≡ true
unfolding save_template replace_file make_user_directory make_directory file_path
    plaintext_file_path user_directory to_string digits serialize write_fields memcpy encrypt
    open_operation created get_nonce_from_response encrypt_with run_operation feed finish_operation
    serialize_storage_payload generate_mac sign_with_hmac_key
card_saved = refl

card-IsUndisturbed : IsUndisturbed toy_files (client toy_level) card [] tt
card-IsUndisturbed = (λ e. refl, λ e. (refl, λ h. refl))

load_template-save_template_keystore_example :
    let (loaded, t, d1, l1) =
      load_template toy_files
        (client toy_level)
        1
        (pos 10)
        (pos 3)
        blank
        (save_template toy_files (client toy_level) card [] tt).1
        tt in
    (loaded ≡ true) × (t ≡ stored card (generate_mac toy_level (write_fields card) tt).0)
load_template-save_template_keystore_example =
    load_template-save_template_keystore toy_files toy_files_laws toy_level toy_keystore 1 card
      blank [] tt tt card-IsCurrent card-IsUndisturbed card_saved
      (later (save_template toy_files (client toy_level) card [] tt).2 tt)
