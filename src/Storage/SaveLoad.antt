-- ===== src/Storage/SaveLoad.antt =====
-- A template that FaceStorageManager.cpp saved is loaded back.
use android_vendor_extra_fac.Common.{
  ℕ, ◌≡◌, ◌≢◌, refl, sym, ap, ◌∙◌, subst, true, false, ◌⊎◌, inl, inr, [], ◌∷◌, none, some, Bytes,
  is_empty, int_eq_refl, Bool-cases,
}
use android_vendor_extra_fac.Crypto.{Crypto, CryptoLaws}
use android_vendor_extra_fac.Template.{FaceTemplate, serialize, deserialize, write_fields}
use android_vendor_extra_fac.Template.RoundTrip.{IsCurrent, stored, deserialize-serialize}
use android_vendor_extra_fac.Storage.{
  FileSystem, make_user_directory, read_file, replace_file, file_path, plaintext_file_path,
  save_template, load_template, deserialize_and_validate, load_plaintext,
}
use android_vendor_extra_fac.Storage.Files.{
  FileSystemLaws, IsWritten, IsCleared, paths_differ, read-make_user_directory, replace_file_reads,
}

not_empty : (xs : Bytes) → is_empty xs ≡ false → xs ≢ []
not_empty [] h e = cc
not_empty (x ∷ xs) h e = cc

false_not : false ≢ true
false_not h = cc

module _ (fs : FileSystem) (crypto : Crypto) (t : FaceTemplate) (d : fs.State)
    (k : crypto.State) where
  save_nothing :
      is_empty (serialize crypto t k).0 ≡ true
      → save_template fs crypto t d k ≡ (false, d, (serialize crypto t k).1)
  unfolding save_template
  save_nothing e = rw (e) refl

  save_encrypted :
      is_empty (serialize crypto t k).0 ≡ false
      → is_empty (crypto.encrypt t.user_id (serialize crypto t k).0 (serialize crypto t k).1).0
        ≡ false
      → let (encrypted, k2) =
          crypto.encrypt t.user_id (serialize crypto t k).0 (serialize crypto t k).1 in
        let (saved, d2) =
          replace_file fs
            (file_path t.user_id t.face_id)
            (plaintext_file_path t.user_id t.face_id)
            encrypted
            (make_user_directory fs t.user_id (make_user_directory fs t.user_id d)) in
        save_template fs crypto t d k ≡ (saved, d2, k2)
  unfolding save_template
  save_encrypted e f = rw (e, f) refl

  save_plaintext :
      is_empty (serialize crypto t k).0 ≡ false
      → is_empty (crypto.encrypt t.user_id (serialize crypto t k).0 (serialize crypto t k).1).0
        ≡ true
      → let (encrypted, k2) =
          crypto.encrypt t.user_id (serialize crypto t k).0 (serialize crypto t k).1 in
        let (saved, d2) =
          replace_file fs
            (plaintext_file_path t.user_id t.face_id)
            (file_path t.user_id t.face_id)
            (serialize crypto t k).0
            (make_user_directory fs t.user_id
              (make_user_directory fs t.user_id (make_user_directory fs t.user_id d))) in
        save_template fs crypto t d k ≡ (saved, d2, k2)
  unfolding save_template
  save_plaintext e f = rw (e, f) refl

-- The save's write goes well and, where encryption fails and the plaintext file is written instead, an
-- encrypted file from before can be removed. `saveTemplate` looks at neither.
abbrev pub IsUndisturbed :
    (fs : FileSystem) (crypto : Crypto) → FaceTemplate → fs.State → crypto.State → Type 0
IsUndisturbed fs crypto t d k =
    let (serialized, k1) = serialize crypto t k in
    let encrypted = (crypto.encrypt t.user_id serialized k1).0 in
    let d1 = make_user_directory fs t.user_id (make_user_directory fs t.user_id d) in
    let d2 = make_user_directory fs t.user_id d1 in
    let path = file_path t.user_id t.face_id in
    let plaintext_path = plaintext_file_path t.user_id t.face_id in
    (is_empty encrypted ≡ false → IsWritten fs path encrypted d1)
    × (is_empty encrypted ≡ true
        → IsWritten fs plaintext_path serialized d2
          × IsCleared fs plaintext_path path serialized d2)

module _ {fs : FileSystem} (laws : FileSystemLaws fs) where
  -- What a save that succeeds leaves behind: the encrypted file, or the plaintext one alone.
  saved_files :
      (crypto : Crypto) (t : FaceTemplate) (d : fs.State) (k : crypto.State)
      → IsUndisturbed fs crypto t d k
      → (save_template fs crypto t d k).0 ≡ true
      → let (serialized, k1) = serialize crypto t k in
        let encrypted = (crypto.encrypt t.user_id serialized k1).0 in
        let (saved, d1, k2) = save_template fs crypto t d k in
        (is_empty serialized ≡ false)
        × (k2 ≡ (crypto.encrypt t.user_id serialized k1).1)
        × (((is_empty encrypted ≡ false)
              × (fs.read (file_path t.user_id t.face_id) d1 ≡ some encrypted))
            ⊎ ((fs.read (file_path t.user_id t.face_id) d1 ≡ none)
                × (fs.read (plaintext_file_path t.user_id t.face_id) d1 ≡ some serialized)))
  saved_files crypto t d k well h =
      let serialized = (serialize crypto t k).0 in
      let (encrypted, k2) = crypto.encrypt t.user_id serialized (serialize crypto t k).1 in
      let d1 = make_user_directory fs t.user_id (make_user_directory fs t.user_id d) in
      let path = file_path t.user_id t.face_id in
      let plaintext_path = plaintext_file_path t.user_id t.face_id in
      let apart = paths_differ t.user_id t.face_id in
      elim (Bool-cases (is_empty serialized)) [
        | inl e ↦ absurd (false_not (sym (ap (λ r. r.0) (save_nothing fs crypto t d k e)) ∙ h))
        | inr e ↦ elim (Bool-cases (is_empty encrypted)) [
          | inl f ↦
              let whole = save_plaintext fs crypto t d k e f in
              let (written, cleared) = well.1 f in
              let (plain, gone) =
                replace_file_reads laws plaintext_path path serialized
                  (make_user_directory fs t.user_id d1) (λ q. apart (sym q)) written
                  (ap (λ r. r.0) (sym whole) ∙ h) in
              (
                e,
                ap (λ r. r.2) whole,
                inr (
                  ap (λ r. fs.read path r.1) whole ∙ gone cleared,
                  ap (λ r. fs.read plaintext_path r.1) whole ∙ plain,
                ),
              )
          | inr f ↦
              let whole = save_encrypted fs crypto t d k e f in
              let (kept, gone) =
                replace_file_reads laws path plaintext_path encrypted d1 apart (well.0 f)
                  (ap (λ r. r.0) (sym whole) ∙ h) in
              (e, ap (λ r. r.2) whole, inl (f, ap (λ r. fs.read path r.1) whole ∙ kept))
        ]
      ]

module _ (fs : FileSystem) (crypto : Crypto) where
  load_encrypted :
      (current_version : ℕ) (bytes : Bytes) (t out : FaceTemplate) (d : fs.State) (k : crypto.State)
      → fs.read (file_path t.user_id t.face_id) (make_user_directory fs t.user_id d) ≡ some bytes
      → is_empty bytes ≡ false
      → is_empty (crypto.decrypt t.user_id bytes k).0 ≡ false
      → (deserialize crypto current_version
          (crypto.decrypt t.user_id bytes k).0
          out
          (crypto.decrypt t.user_id bytes k).1).0
        ≡ true
      → (deserialize crypto current_version
          (crypto.decrypt t.user_id bytes k).0
          out
          (crypto.decrypt t.user_id bytes k).1).1
        ≡ t
      → let (loaded, t', d1, k1) =
          load_template fs crypto current_version t.user_id t.face_id out d k in
        (loaded ≡ true) × (t' ≡ t)
  unfolding load_template read_file deserialize_and_validate
  load_encrypted current_version bytes t out d k r full opened valid same =
      rw (r, read_file)
        (rw (full, opened, valid, same, int_eq_refl t.user_id, int_eq_refl t.face_id) (refl, refl))

  load_fallback :
      (current_version : ℕ) (bytes : Bytes) (t out : FaceTemplate) (d : fs.State) (k : crypto.State)
      → fs.read (file_path t.user_id t.face_id) (make_user_directory fs t.user_id d) ≡ none
      → fs.read
          (plaintext_file_path t.user_id t.face_id)
          (make_user_directory fs t.user_id (make_user_directory fs t.user_id d))
        ≡ some bytes
      → is_empty bytes ≡ false
      → (deserialize crypto current_version bytes out k).0 ≡ true
      → (deserialize crypto current_version bytes out k).1 ≡ t
      → let (loaded, t', d1, k1) =
          load_template fs crypto current_version t.user_id t.face_id out d k in
        (loaded ≡ true) × (t' ≡ t)
  unfolding load_template load_plaintext read_file deserialize_and_validate
  load_fallback current_version bytes t out d k r plain full valid same =
      rw (r, read_file)
        (rw (plain, read_file)
          (rw (full, valid, same, int_eq_refl t.user_id, int_eq_refl t.face_id) (refl, refl)))

module _ (fs : FileSystem) (files : FileSystemLaws fs) (crypto : Crypto)
    (keys : CryptoLaws crypto) where
  -- A template of the version in use, with less than 4 GiB of bytes and ids of 32 bits, that
  -- saveTemplate reported as saved, encrypted or not, is loaded back later on with the checksum and the
  -- MAC of its bytes, whatever the caller's template held before: where the write went well, where an
  -- encrypted file from before could be removed if the plaintext one was written, and where the
  -- keystore kept its keys and answers.
  pub load_template-save_template :
      (current_version : ℕ) (t out : FaceTemplate) (d : fs.State) (k l : crypto.State)
      → IsCurrent current_version t
      → IsUndisturbed fs crypto t d k
      → (save_template fs crypto t d k).0 ≡ true
      → keys.Later (save_template fs crypto t d k).2 l
      → let (loaded, t', d1, l1) =
          load_template fs crypto current_version t.user_id t.face_id out
            (save_template fs crypto t d k).1
            l in
        (loaded ≡ true) × (t' ≡ stored t (crypto.generate_mac (write_fields t) k).0)
  load_template-save_template current_version t out d k l v well saved later =
      let (serialized, k1) = serialize crypto t k in
      let (encrypted, k2) = crypto.encrypt t.user_id serialized k1 in
      let d1 = (save_template fs crypto t d k).1 in
      let s = stored t (crypto.generate_mac (write_fields t) k).0 in
      let (full, same_keys, files_there) = saved_files files crypto t d k well saved in
      let nonempty = not_empty serialized full in
      let later2 : keys.Later k2 l = subst (λ x. keys.Later x l) same_keys later in
      let later1 : keys.Later k1 l = keys.encrypt-Later t.user_id serialized k1 l later2 in
      elim files_there [
        | inl (f, kept) ↦
            let opened =
              keys.decrypt-encrypt t.user_id serialized k1 l (not_empty encrypted f) later2 in
            let l1 = (crypto.decrypt t.user_id encrypted l).1 in
            let (valid, same) =
              deserialize-serialize crypto keys current_version t out k l1 v nonempty
                (keys.decrypt-Later t.user_id encrypted k1 l later1) in
            load_encrypted fs crypto current_version encrypted s out d1 l
              (read-make_user_directory files (file_path t.user_id t.face_id) t.user_id d1 ∙ kept) f
              (ap is_empty opened ∙ full) (rw (opened) valid) (rw (opened) same)
        | inr (gone, plain) ↦
            let (valid, same) =
              deserialize-serialize crypto keys current_version t out k l v nonempty later1 in
            let path = file_path t.user_id t.face_id in
            let plaintext_path = plaintext_file_path t.user_id t.face_id in
            load_fallback fs crypto current_version serialized s out d1 l
              (read-make_user_directory files path t.user_id d1 ∙ gone)
              (read-make_user_directory files plaintext_path t.user_id
                  (make_user_directory fs t.user_id d1)
                ∙ read-make_user_directory files plaintext_path t.user_id d1
                ∙ plain)
              full valid same
      ]
