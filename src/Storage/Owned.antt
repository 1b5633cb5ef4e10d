-- ===== src/Storage/Owned.antt =====
-- Whose templates FaceStorageManager.cpp hands out.
use android_vendor_extra_fac.Common.{
  ℕ, ◌≡◌, refl, sym, ap, ◌∙◌, subst, Bool, true, false, not, ◌&&◌, ◌||◌, List, [], ◌∷◌, arith,
  Option, none, some, Bytes, ℤ, negsuc, int_eq, int_eq→eq, Bool-cases, inl, inr, ◌⊎◌,
}
use android_vendor_extra_fac.Crypto.{Crypto}
use android_vendor_extra_fac.Template.{FaceTemplate, deserialize}
use android_vendor_extra_fac.Template.Decode.{deserialize_version}
use android_vendor_extra_fac.Storage.{
  FileSystem, is_face_file, user_directory, make_user_directory, load_template, load_plaintext,
  deserialize_and_validate,
}
use android_vendor_extra_fac.Storage.Listing.{
  load_one, load_names, load_all_templates_for_user, push_back, file_face_id, is_loaded,
}

both : (a b c : Bool) → (a && b && c) ≡ true → (a ≡ true) × (b ≡ true) × (c ≡ true)
both a b c h = ground arith

not_skipped : (a b c : Bool) → (a || b || c) ≡ false → c ≡ false
not_skipped a b c h = ground arith

module _ (fs : FileSystem) (crypto : Crypto) where
  -- A template of this user, and of the version in use.
  abbrev pub Owned : ℕ → ℤ → FaceTemplate → Type 0
  Owned current_version user t = (t.user_id ≡ user) × (t.version ≡ current_version)

  validated-Owned :
      (current_version : ℕ) (user face : ℤ) (bytes : Bytes) (out : FaceTemplate) (k : crypto.State)
      → let (valid, t, k1) =
          deserialize_and_validate fs crypto current_version user face bytes out k in
        valid ≡ true → Owned current_version user t × (t.face_id ≡ face)
  unfolding deserialize_and_validate
  validated-Owned current_version user face bytes out k h =
      let read = deserialize crypto current_version bytes out k in
      let (valid, u, f) = both read.0 (int_eq read.1.user_id user) (int_eq read.1.face_id face) h in
      (
        (
          int_eq→eq read.1.user_id user u,
          deserialize_version crypto current_version bytes out k valid,
        ),
        int_eq→eq read.1.face_id face f,
      )

  load_plaintext-Owned :
      (current_version : ℕ) (user face : ℤ) (out : FaceTemplate) (d : fs.State) (k : crypto.State)
      → (load_plaintext fs crypto current_version user face out d k).0 ≡ true
      → Owned current_version user (load_plaintext fs crypto current_version user face out d k).1
        × ((load_plaintext fs crypto current_version user face out d k).1.face_id ≡ face)
  unfolding load_plaintext
  load_plaintext-Owned current_version user face out d k h = grind (arith, validated-Owned)

  -- Whatever file it comes from, a template that `loadTemplate` hands out is the user's and the
  -- face's that were asked for, and of the version in use.
  pub load_template-Owned :
      (current_version : ℕ) (user face : ℤ) (out : FaceTemplate) (d : fs.State) (k : crypto.State)
      → (load_template fs crypto current_version user face out d k).0 ≡ true
      → Owned current_version user (load_template fs crypto current_version user face out d k).1
        × ((load_template fs crypto current_version user face out d k).1.face_id ≡ face)
  unfolding load_template
  load_template-Owned current_version user face out d k h =
      grind (arith, validated-Owned, load_plaintext-Owned)

  -- Templates of the user, in the version in use, none with a face id of the list or of another one.
  abbrev pub Listed : ℕ → ℤ → List ℤ → List FaceTemplate → Type 0
  Listed current_version user ids [] = Unit {0}
  Listed current_version user ids (t ∷ ts) =
      Owned current_version user t
      × (is_loaded t.face_id ids ≡ false)
      × Listed current_version user (t.face_id ∷ ids) ts

  -- A round adds nothing, or a template that keeps the list as it should be.
  load_one_cases :
      (current_version : ℕ) (user : ℤ) (tmpl : FaceTemplate) (name : Bytes) (ids : List ℤ)
      (d : fs.State) (k : crypto.State)
      → let s = load_one fs crypto current_version user tmpl name ids d k in
        ((s.template ≡ none) × (s.loaded_face_ids ≡ ids))
        ⊎ ((t : FaceTemplate) × (s.template ≡ some t)
            × (s.loaded_face_ids ≡ t.face_id ∷ ids)
            × Owned current_version user t
            × (is_loaded t.face_id ids ≡ false))
  unfolding load_one
  load_one_cases current_version user tmpl name ids d k =
      let face = file_face_id name in
      let r = load_template fs crypto current_version user face tmpl d k in
      elim (Bool-cases (not (is_face_file name) || int_eq face (negsuc 0) || is_loaded face ids)) [
        | inl skip ↦ rw (skip) (inl (refl, refl))
        | inr go ↦ elim (Bool-cases r.0) [
          | inl loaded ↦
              let (own, same) = load_template-Owned current_version user face tmpl d k loaded in
              let fresh =
                not_skipped (not (is_face_file name)) (int_eq face (negsuc 0)) (is_loaded face ids)
                  go in
              inr (
                r.1,
                rw (go, loaded) refl,
                rw (go, loaded) (ap (λ x. x ∷ ids) (sym same)),
                own,
                ap (λ x. is_loaded x ids) same ∙ fresh,
              )
          | inr failed ↦ rw (go, failed) (inl (refl, refl))
        ]
      ]

  push_back-Listed :
      (current_version : ℕ) (user : ℤ) (o : Option FaceTemplate) (ids later : List ℤ)
      (ts : List FaceTemplate)
      → ((o ≡ none) × (later ≡ ids))
        ⊎ ((t : FaceTemplate) × (o ≡ some t)
            × (later ≡ t.face_id ∷ ids)
            × Owned current_version user t
            × (is_loaded t.face_id ids ≡ false))
      → Listed current_version user later ts
      → Listed current_version user ids (push_back o ts)
  push_back-Listed current_version user o ids later ts (inl (p, q)) l =
      rw (p) (subst (λ x. Listed current_version user x ts) q l)
  push_back-Listed current_version user o ids later ts (inr (t, p, q, own, fresh)) l =
      rw (p) (own, fresh, subst (λ x. Listed current_version user x ts) q l)

  load_names-Listed :
      (current_version : ℕ) (user : ℤ) (tmpl : FaceTemplate) (names : List Bytes) (ids : List ℤ)
      (d : fs.State) (k : crypto.State)
      → Listed current_version user ids
          (load_names fs crypto current_version user tmpl names ids d k).0
  unfolding load_names
  load_names-Listed current_version user tmpl [] ids d k = tt
  load_names-Listed current_version user tmpl (name ∷ names) ids d k =
      let s = load_one fs crypto current_version user tmpl name ids d k in
      let rest =
        load_names-Listed current_version user tmpl names s.loaded_face_ids s.files s.keys in
      let grows = load_one_cases current_version user tmpl name ids d k in
      elim (Bool-cases s.error_code) [
        | inl e ↦
            rw (e)
              (push_back-Listed current_version user s.template ids s.loaded_face_ids [] grows tt)
        | inr e ↦ rw (e) (
            push_back-Listed current_version user s.template ids s.loaded_face_ids
              (load_names fs crypto current_version user tmpl names s.loaded_face_ids s.files
                s.keys).0
              grows rest)
      ]

  -- Whatever files the directory of a user holds, each template that is loaded for the user is the
  -- user's and of the version in use, and no two of them have the same face id.
  pub load_all_templates_for_user-Listed :
      (current_version : ℕ) (user : ℤ) (tmpl : FaceTemplate) (d : fs.State) (k : crypto.State)
      → Listed current_version user []
          (load_all_templates_for_user fs crypto current_version user tmpl d k).0
  unfolding load_all_templates_for_user
  load_all_templates_for_user-Listed current_version user tmpl d k =
      let d1 = make_user_directory fs user d in
      load_names-Listed current_version user tmpl (fs.entries (user_directory user) d1) [] d1 k
