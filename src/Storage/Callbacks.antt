-- ===== src/Storage/Callbacks.antt =====
-- default/include/FaceStorageCallbacks.h: the storage as the engine calls it.
use android_vendor_extra_fac.Common.{
  ℕ, ◌*◌, ◌≡◌, refl, Bool, true, false, not, ◌||◌, List, [], ◌∷◌, arith, ◌==◌, if◌then◌else◌, Bytes,
  length, take, ℤ, All,
}
use android_vendor_extra_fac.VendorCode.{require_reenrollment, VendorState, set_vendor_code}
use android_vendor_extra_fac.Crypto.{Crypto}
use android_vendor_extra_fac.Template.{FaceTemplate}
use android_vendor_extra_fac.Storage.{FileSystem, save_template, delete_template}
use android_vendor_extra_fac.Storage.Listing.{load_all_templates_for_user}
use android_vendor_extra_fac.Storage.Owned.{Listed, load_all_templates_for_user-Listed}

-- C++'s `float` in memory: how a vector lies there, and what a memory of a vector's length holds.
pub record FloatMemory : Type 1 where
  pub Float : Type 0
  pub to_memory : List Float → Bytes
  pub of_memory : Bytes → List Float

module _ (fs : FileSystem) (crypto : Crypto) (floats : FloatMemory) where
  -- `tmpl` is the local template, of which `checksum` and `mac` are not set.
  unfoldable pub save_embedding :
      ℕ
      → FaceTemplate
      → ℤ
      → ℤ
      → List floats.Float
      → fs.State
      → crypto.State
      → Bool × fs.State × crypto.State
  save_embedding current_version tmpl user face embedding d k =
      save_template fs crypto
        (record tmpl {
          version = current_version;
          user_id = user;
          face_id = face;
          template_data = floats.to_memory embedding;
        })
        d k

  unfoldable pub delete_embedding : ℤ → ℤ → fs.State → Bool × fs.State
  delete_embedding user face d = (true, (delete_template fs user face d).1)

  abbrev pub is_outdated : ℕ → FaceTemplate → Bool
  is_outdated current_version t =
      not (t.version == current_version) || not (length t.template_data == 512 * 4)

  -- The loop over the templates: what it returns, and what it does to the files and to the code kept
  -- for the app.
  unfoldable pub sort_out :
      ℕ
      → ℤ
      → List FaceTemplate
      → fs.State
      → VendorState
      → List (ℤ × List floats.Float) × fs.State × VendorState
  sort_out current_version user [] d v = ([], d, v)
  sort_out current_version user (t ∷ ts) d v =
      let outdated = is_outdated current_version t in
      let d1 = if outdated then (delete_template fs user t.face_id d).1 else d in
      let v1 = if outdated then set_vendor_code require_reenrollment v else v in
      let (result, d2, v2) = sort_out current_version user ts d1 v1 in
      if outdated
      then (result, d2, v2)
      else ((t.face_id, floats.of_memory (take (512 * 4) t.template_data)) ∷ result, d2, v2)

  unfoldable pub load_embeddings :
      ℕ
      → ℤ
      → FaceTemplate
      → fs.State
      → crypto.State
      → VendorState
      → List (ℤ × List floats.Float) × fs.State × crypto.State × VendorState
  load_embeddings current_version user tmpl d k v =
      let (templates, d1, k1) =
        load_all_templates_for_user fs crypto current_version user tmpl d k in
      let (result, d2, v1) = sort_out current_version user templates d1 v in (result, d2, k1, v1)

  -- The templates have the size of an embedding.
  abbrev pub Sized : List FaceTemplate → Type 0
  Sized ts = All (λ (t : FaceTemplate). length t.template_data ≡ 512 * 4) ts

  current_not : (a b : ℕ) → a ≡ b → not (a == b) ≡ false
  current_not a b h = ground arith

  sort_out_keeps :
      (current_version : ℕ) (user : ℤ) (ids : List ℤ) (ts : List FaceTemplate) (d : fs.State)
      (v : VendorState)
      → Listed fs crypto current_version user ids ts
      → Sized ts
      → ((sort_out current_version user ts d v).1 ≡ d)
        × ((sort_out current_version user ts d v).2 ≡ v)
  unfolding sort_out
  sort_out_keeps current_version user ids [] d v l s = (refl, refl)
  sort_out_keeps current_version user ids (t ∷ ts) d v ((own, current), fresh, l) (size, s) =
      rw
        (
          current_not t.version current_version current,
          current_not (length t.template_data) (512 * 4) size,
        )
        (sort_out_keeps current_version user (t.face_id ∷ ids) ts d v l s)

  -- Where each template that is loaded has the size of an embedding, REQUIRE_REENROLLMENT is not set
  -- and nothing more is deleted, whatever versions the files hold.
  pub load_embeddings_keeps :
      (current_version : ℕ) (user : ℤ) (tmpl : FaceTemplate) (d : fs.State) (k : crypto.State)
      (v : VendorState)
      → Sized (load_all_templates_for_user fs crypto current_version user tmpl d k).0
      → ((load_embeddings current_version user tmpl d k v).3 ≡ v)
        × ((load_embeddings current_version user tmpl d k v).1
            ≡ (load_all_templates_for_user fs crypto current_version user tmpl d k).1)
  unfolding load_embeddings
  load_embeddings_keeps current_version user tmpl d k v s =
      let (ts, d1, k1) = load_all_templates_for_user fs crypto current_version user tmpl d k in
      let (files, code) =
        sort_out_keeps current_version user [] ts d1 v
          (load_all_templates_for_user-Listed fs crypto current_version user tmpl d k) s in
      (code, files)
