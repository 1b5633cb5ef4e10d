-- ===== src/Engine/Stub.antt =====
-- lib/FaceEngineStub.cpp: the engine library that the repository builds from source. It takes each
-- frame for a good one and compares no faces.
use android_vendor_extra_fac.Common.{
  ◌+◌, Bool, true, false, List, [], ◌∷◌, if◌then◌else◌, ℤ, pos, negsuc, zero, suc, replicate, ltb,
  int_eq, int_lt,
}
use android_vendor_extra_fac.VendorCode.{face_ok, keep, failed}
use android_vendor_extra_fac.Engine.{
  Frame, FaceEngine, EngineLibrary, enroll_required_good_frames, is_cancelled,
}

-- `FaceEngineCallbacks` of default/include/FaceEngineTypes.h, over the state of the storage. `Float`
-- is C++'s `float`, of which the stub uses `0.0f`.
pub record FaceEngineCallbacks : Type 1 where
  pub State : Type 0
  pub Float : Type 0
  pub zero_float : Float
  pub save_template : ℤ → ℤ → List Float → State → Bool × State
  pub delete_template : ℤ → ℤ → State → Bool × State
  pub load_templates : ℤ → State → List (ℤ × List Float) × State

-- `std::map<int32_t, std::vector<float>>`, in the order of its keys.
abbrev pub Enrollments : Type 0 → Type 0
Enrollments Float = List (ℤ × List Float)

-- `enrolledEmbeddings[id] = embedding`
unfoldable pub insert : {F : Type 0} → ℤ → List F → Enrollments F → Enrollments F
insert id embedding [] = (id, embedding) ∷ []
insert id embedding ((key, value) ∷ rest) =
    let later = insert id embedding rest in
    if int_eq id key
    then (id, embedding) ∷ rest
    else if int_lt id key
    then (id, embedding) ∷ (key, value) ∷ rest
    else (key, value) ∷ later

-- `enrolledEmbeddings.erase(id)`
unfoldable pub erase : {F : Type 0} → ℤ → Enrollments F → Enrollments F
erase id [] = []
erase id ((key, value) ∷ rest) =
    let later = erase id rest in if int_eq id key then rest else (key, value) ∷ later

unfoldable pub keys : {F : Type 0} → Enrollments F → List ℤ
keys [] = []
keys ((key, value) ∷ rest) = key ∷ keys rest

unfoldable pub insert_all : {F : Type 0} → Enrollments F → Enrollments F → Enrollments F
unfolding insert
insert_all [] m = m
insert_all ((id, embedding) ∷ rest) m = insert_all rest (insert id embedding m)

-- The loop over the map, from the greatest id so far.
unfoldable pub max_id : {F : Type 0} → ℤ → Enrollments F → ℤ
max_id m [] = m
max_id m ((key, value) ∷ rest) = max_id (if int_lt m key then key else m) rest

-- `id + 1`
unfoldable pub next_id : ℤ → ℤ
next_id (pos n) = pos (n + 1)
next_id (negsuc zero) = pos 0
next_id (negsuc (suc n)) = negsuc n

module _ (callbacks : FaceEngineCallbacks) where
  -- `mCallbacks` is given or not; with it go the state behind the callbacks and the enrollments.
  pub record Impl : Type 0 where
    pub has_callbacks : Bool
    pub storage : callbacks.State
    pub enrolled_embeddings : Enrollments callbacks.Float

  unfoldable pub init : FaceEngine Impl → Bool × FaceEngine Impl
  init e = (true, record e { impl = record e.impl { has_callbacks = true } })

  unfoldable pub release : FaceEngine Impl → FaceEngine Impl
  release e = record e { impl = record e.impl { enrolled_embeddings = [] } }

  unfoldable pub authenticate : Frame → ℤ → ℤ → FaceEngine Impl → ℤ × ℤ × FaceEngine Impl
  unfolding is_cancelled
  authenticate frame user face e =
      if is_cancelled e then (negsuc 0, face, e) else elim e.impl.enrolled_embeddings [
        | [] ↦ (pos 1, negsuc 0, e)
        | (id, embedding) ∷ rest ↦ (pos 0, id, e)
      ]

  abbrev pub mock_embedding : List callbacks.Float
  mock_embedding = replicate 512 callbacks.zero_float

  -- `mCallbacks.saveTemplate`, where it is given.
  unfoldable pub save : ℤ → ℤ → Impl → Bool × Impl
  save user face i =
      if i.has_callbacks
      then (let (saved, storage) = callbacks.save_template user face mock_embedding i.storage in
          (saved, record i { storage = storage }))
      else (true, i)

  unfoldable pub enroll : ℤ → Frame → ℤ → FaceEngine Impl → ℤ × ℤ × FaceEngine Impl
  unfolding is_cancelled insert max_id next_id save
  enroll user frame face e =
      let count = e.enroll_frame_count + 1 in
      let id = next_id (max_id (pos 0) e.impl.enrolled_embeddings) in
      let (saved, impl) = save user id e.impl in
      if is_cancelled e
      then (negsuc 0, face, e)
      else if ltb count enroll_required_good_frames
      then (pos keep, face, record e { enroll_frame_count = count })
      else if saved
      then (
        pos face_ok,
        id,
        record e {
          impl = record impl {
            enrolled_embeddings = insert id mock_embedding impl.enrolled_embeddings;
          };
          enroll_frame_count = 0;
        },
      )
      else (pos failed, id, record e { impl = impl; enroll_frame_count = 0 })

  unfoldable pub analyze_face_quality : Frame → FaceEngine Impl → ℤ × FaceEngine Impl
  unfolding is_cancelled
  analyze_face_quality frame e = if is_cancelled e then (negsuc 0, e) else (pos face_ok, e)

  unfoldable pub delete_enrollment : ℤ → ℤ → FaceEngine Impl → ℤ × FaceEngine Impl
  unfolding erase
  delete_enrollment user face e =
      let storage =
        if e.impl.has_callbacks
        then (callbacks.delete_template user face e.impl.storage).1
        else e.impl.storage in
      (
        pos 0,
        record e {
          impl = record e.impl {
            storage = storage;
            enrolled_embeddings = erase face e.impl.enrolled_embeddings;
          };
        },
      )

  -- The user is not looked at.
  unfoldable pub get_enrolled_face_ids : ℤ → FaceEngine Impl → List ℤ
  unfolding keys
  get_enrolled_face_ids user e = keys e.impl.enrolled_embeddings

  unfoldable pub restore_enrollments : ℤ → FaceEngine Impl → Bool × FaceEngine Impl
  unfolding insert_all
  restore_enrollments user e =
      if e.impl.has_callbacks
      then (let (loaded, storage) = callbacks.load_templates user e.impl.storage in
          (
            true,
            record e {
              impl = record e.impl {
                storage = storage;
                enrolled_embeddings = insert_all loaded [];
              };
            },
          ))
      else (false, e)

  unfoldable pub reset_enrollment : FaceEngine Impl → FaceEngine Impl
  reset_enrollment e = record e { enroll_frame_count = 0 }

  unfoldable pub cancel_all : FaceEngine Impl → FaceEngine Impl
  unfolding reset_enrollment
  cancel_all e = record (reset_enrollment (record e { cancelled = true })) {
    capture_requested = false;
  }

  -- The library that these functions make up.
  abbrev pub stub : EngineLibrary
  stub = record {
    Impl = Impl;
    init = init;
    restore_enrollments = restore_enrollments;
    authenticate = authenticate;
    enroll = enroll;
    analyze_face_quality = analyze_face_quality;
    delete_enrollment = delete_enrollment;
    get_enrolled_face_ids = get_enrolled_face_ids;
    cancel_all = cancel_all;
  }
