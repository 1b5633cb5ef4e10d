-- ===== src/Tests/EngineRuns.antt =====
-- Runs of lib/FaceEngineStub.cpp.
use android_vendor_extra_fac.Common.{
  ℕ, Bool, if◌then◌else◌, ◌≡◌, refl, true, false, [], ◌∷◌, ◌++◌, pos, none, some, int_eq,
}
use android_vendor_extra_fac.VendorCode.{face_ok, keep}
use android_vendor_extra_fac.Engine.{FaceEngine}
use android_vendor_extra_fac.Engine.Stub.{
  insert, max_id, next_id, enroll, save, mock_embedding, Impl, FaceEngineCallbacks,
}
use android_vendor_extra_fac.Engine.Enrollments.{lookup}
use android_vendor_extra_fac.Engine.StubLaws.{enroll_all, enroll_all_five, enroll_adds}
use android_vendor_extra_fac.Tests.Toys.{toy_callbacks, toy_engine, toy_frame}

enroll_all_five_example :
    (enroll_all toy_callbacks
      (pos 10)
      ((toy_frame ∷ toy_frame ∷ toy_frame ∷ toy_frame ∷ []) ++ toy_frame ∷ [])
      toy_engine).0
    ≡ pos keep ∷ pos keep ∷ pos keep ∷ pos keep ∷ pos face_ok ∷ []
unfolding save
enroll_all_five_example =
    enroll_all_five toy_callbacks (pos 10) (toy_frame ∷ toy_frame ∷ toy_frame ∷ toy_frame ∷ [])
      toy_frame toy_engine refl refl refl

abbrev four_frames : FaceEngine (Impl toy_callbacks)
four_frames = record toy_engine { enroll_frame_count = 4 }

four_saved :
    (save toy_callbacks
      (pos 10)
      (next_id (max_id (pos 0) four_frames.impl.enrolled_embeddings))
      four_frames.impl).0
    ≡ true
unfolding save
four_saved = refl

other_face : int_eq (pos 4) (enroll toy_callbacks (pos 10) toy_frame (pos 0) four_frames).1 ≡ false
unfolding enroll max_id next_id insert save
other_face = refl

enroll_adds_example :
    let (code, id, t) = enroll toy_callbacks (pos 10) toy_frame (pos 0) four_frames in
    (code ≡ pos face_ok)
    × (lookup id four_frames.impl.enrolled_embeddings ≡ none)
    × (lookup id t.impl.enrolled_embeddings ≡ some (mock_embedding toy_callbacks))
    × (lookup (pos 4) t.impl.enrolled_embeddings
        ≡ lookup (pos 4) four_frames.impl.enrolled_embeddings)
    × (t.enroll_frame_count ≡ 0)
enroll_adds_example =
    enroll_adds toy_callbacks (pos 10) toy_frame (pos 0) (pos 4) four_frames refl refl four_saved
      other_face

-- A storage that has face 4 until a face is deleted.
abbrev forgetting : FaceEngineCallbacks
forgetting = record {
  State = Bool;
  Float = ℕ;
  zero_float = 0;
  save_template = λ user face embedding k. (true, k);
  delete_template = λ user face k. (true, false);
  load_templates = λ user k. (if k then (pos 4, 1 ∷ []) ∷ [] else [], k);
}

abbrev with_face : FaceEngine (Impl forgetting)
with_face = record {
  impl = record {
    has_callbacks = true;
    storage = true;
    enrolled_embeddings = (pos 4, 1 ∷ []) ∷ [];
  };
  enroll_frame_count = 0;
  require_attention = false;
  require_diverse_poses = false;
  capture_requested = false;
  rotation = 0;
  cancelled = false;
  has_session_callback = false;
}
