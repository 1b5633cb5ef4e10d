-- ===== src/Engine/StubLaws.antt =====
-- What lib/FaceEngineStub.cpp does over several frames, and that it is an engine library as the
-- sessions expect one.
use android_vendor_extra_fac.Common.{
  ◌+◌, ◌++◌, map, ◌<◌, ◌≡◌, refl, sym, ap, ◌∙◌, true, false, List, [], ◌∷◌, if◌then◌else◌, none,
  some, ℤ, pos, int_eq, arith, length,
}
use android_vendor_extra_fac.VendorCode.{face_ok, keep, failed}
use android_vendor_extra_fac.Engine.{Frame, FaceEngine, EngineLaws}
use android_vendor_extra_fac.Engine.Stub.{
  FaceEngineCallbacks, Impl, insert, max_id, next_id, enroll, delete_enrollment, cancel_all, stub,
  save, mock_embedding,
}
use android_vendor_extra_fac.Engine.Enrollments.{
  lookup, lookup-insert, lookup-insert_other, next_id_new,
}

module _ (callbacks : FaceEngineCallbacks) where
  -- The stub keeps what the sessions expect of `cancelAll` and `deleteEnrollment`.
  pub stub_laws : EngineLaws (stub callbacks)
  unfolding cancel_all delete_enrollment
  stub_laws = record {
    cancel_all-cancelled = λ e. refl;
    delete_enrollment-cancelled = λ user id e. refl;
  }

  -- The codes that the frames of a list give one after the other, and the engine behind them.
  unfoldable pub enroll_all :
      ℤ → List Frame → FaceEngine (Impl callbacks) → List ℤ × FaceEngine (Impl callbacks)
  enroll_all user [] e = ([], e)
  enroll_all user (f ∷ fs) e =
      let (code, face, e1) = enroll callbacks user f (pos 0) e in
      let (codes, e2) = enroll_all user fs e1 in (code ∷ codes, e2)

  enroll_counts :
      (user : ℤ) (f : Frame) (face : ℤ) (e : FaceEngine (Impl callbacks))
      → e.cancelled ≡ false
      → e.enroll_frame_count + 1 < 5
      → enroll callbacks user f face e
        ≡ (pos keep, face, record e { enroll_frame_count = e.enroll_frame_count + 1 })
  unfolding enroll
  enroll_counts user f face e on h = ground arith

  enroll_completes :
      (user : ℤ) (f : Frame) (face : ℤ) (e : FaceEngine (Impl callbacks))
      → e.cancelled ≡ false
      → e.enroll_frame_count ≡ 4
      → let id = next_id (max_id (pos 0) e.impl.enrolled_embeddings) in
        enroll callbacks user f face e ≡ (
          if (save callbacks user id e.impl).0
          then (
            pos face_ok,
            id,
            record e {
              impl = record (save callbacks user id e.impl).1 {
                enrolled_embeddings =
                    insert id (mock_embedding callbacks) e.impl.enrolled_embeddings;
              };
              enroll_frame_count = 0;
            },
          )
          else (
            pos failed,
            id,
            record e { impl = (save callbacks user id e.impl).1; enroll_frame_count = 0 },
          ))
  unfolding enroll save
  enroll_completes user f face e on h = ground arith

  enroll_all_counts :
      (user : ℤ) (fs : List Frame) (e : FaceEngine (Impl callbacks))
      → e.cancelled ≡ false
      → e.enroll_frame_count + length fs < 5
      → enroll_all user fs e ≡ (
        map (λ f. pos keep) fs,
        record e { enroll_frame_count = e.enroll_frame_count + length fs },
      )
  unfolding enroll_all
  enroll_all_counts user [] e on h =
      ap (λ n. ([], record e { enroll_frame_count = n })) (omega arith)
  enroll_all_counts user (f ∷ fs) e on h =
      let first = enroll_counts user f (pos 0) e on (omega arith) in
      let rest =
        enroll_all_counts user fs (record e { enroll_frame_count = e.enroll_frame_count + 1 }) on
          (omega arith) in
      let count : e.enroll_frame_count + 1 + length fs ≡ e.enroll_frame_count + length (f ∷ fs) =
        omega arith in
      simp (first, rest, count)

  enroll_all-append :
      (user : ℤ) (fs : List Frame) (f : Frame) (e : FaceEngine (Impl callbacks))
      → (enroll_all user (fs ++ f ∷ []) e).0
        ≡ (enroll_all user fs e).0
          ++ (enroll callbacks user f (pos 0) (enroll_all user fs e).1).0 ∷ []
  unfolding enroll_all
  enroll_all-append user [] f e = refl
  enroll_all-append user (g ∷ fs) f e =
      ap (◌∷◌ (enroll callbacks user g (pos 0) e).0)
        (enroll_all-append user fs f (enroll callbacks user g (pos 0) e).2)

  enroll_completes_code :
      (user : ℤ) (f : Frame) (face : ℤ) (e : FaceEngine (Impl callbacks))
      → e.cancelled ≡ false
      → e.enroll_frame_count ≡ 4
      → (enroll callbacks user f face e).0 ≡ (
          if (save callbacks user (next_id (max_id (pos 0) e.impl.enrolled_embeddings)) e.impl).0
          then pos face_ok
          else pos failed)
  unfolding enroll
  enroll_completes_code user f face e on four = ground arith

  enroll_completes_saved :
      (user : ℤ) (f : Frame) (face : ℤ) (e : FaceEngine (Impl callbacks))
      → e.cancelled ≡ false
      → e.enroll_frame_count ≡ 4
      → (save callbacks user (next_id (max_id (pos 0) e.impl.enrolled_embeddings)) e.impl).0 ≡ true
      → let id = next_id (max_id (pos 0) e.impl.enrolled_embeddings) in
        enroll callbacks user f face e ≡ (
          pos face_ok,
          id,
          record e {
            impl = record (save callbacks user id e.impl).1 {
              enrolled_embeddings = insert id (mock_embedding callbacks) e.impl.enrolled_embeddings;
            };
            enroll_frame_count = 0;
          },
        )
  enroll_completes_saved user f face e on four saved =
      enroll_completes user f face e on four ∙ rw (saved) refl

  -- From a started enrollment, four frames are each answered with KEEP, and the fifth with FACE_OK
  -- where the new template is saved and with FAILED where it is not.
  pub enroll_all_five :
      (user : ℤ) (fs : List Frame) (f : Frame) (e : FaceEngine (Impl callbacks))
      → e.cancelled ≡ false
      → e.enroll_frame_count ≡ 0
      → length fs ≡ 4
      → (enroll_all user (fs ++ f ∷ []) e).0
        ≡ map (λ f. pos keep) fs
          ++ (if (save callbacks user
                (next_id (max_id (pos 0) e.impl.enrolled_embeddings))
                e.impl).0
              then pos face_ok
              else pos failed)
            ∷ []
  enroll_all_five user fs f e on start four =
      let counts = enroll_all_counts user fs e on (omega arith) in
      let e4 : FaceEngine (Impl callbacks) = record e {
        enroll_frame_count = e.enroll_frame_count + length fs;
      } in
      let last = enroll_completes_code user f (pos 0) e4 on (omega arith) in
      enroll_all-append user fs f e ∙ rw (counts) (rw (last) refl)

  -- The frame that completes an enrollment, where its template is saved, adds one face under an id
  -- that no enrolled face has, leaves the other faces alone and starts the count again.
  pub enroll_adds :
      (user : ℤ) (f : Frame) (face j : ℤ) (e : FaceEngine (Impl callbacks))
      → e.cancelled ≡ false
      → e.enroll_frame_count ≡ 4
      → (save callbacks user (next_id (max_id (pos 0) e.impl.enrolled_embeddings)) e.impl).0 ≡ true
      → int_eq j (enroll callbacks user f face e).1 ≡ false
      → let (code, id, t) = enroll callbacks user f face e in
        (code ≡ pos face_ok)
        × (lookup id e.impl.enrolled_embeddings ≡ none)
        × (lookup id t.impl.enrolled_embeddings ≡ some (mock_embedding callbacks))
        × (lookup j t.impl.enrolled_embeddings ≡ lookup j e.impl.enrolled_embeddings)
        × (t.enroll_frame_count ≡ 0)
  enroll_adds user f face j e on four saved other =
      let m = e.impl.enrolled_embeddings in
      let id = next_id (max_id (pos 0) m) in
      let done = enroll_completes_saved user f face e on four saved in
      let apart : int_eq j id ≡ false = ap (λ t. int_eq j t.1) (sym done) ∙ other in
      rw (done) (
        refl,
        next_id_new m,
        lookup-insert id (mock_embedding callbacks) m,
        lookup-insert_other j id (mock_embedding callbacks) m apart,
        refl,
      )
