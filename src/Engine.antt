-- ===== src/Engine.antt =====
-- default/include/FaceEngine.h: the engine object, the functions that the header defines, and the
-- interface of those that an engine library (lib/FaceEngineStub.cpp or a prebuilt one) defines.
pub mod Frames
pub mod Stub
pub mod StubLaws
pub mod Enrollments
use android_vendor_extra_fac.Common.{ℕ, ◌*◌, ◌/◌, ◌≡◌, Bool, true, false, List, Bytes, ℤ}

-- An NV21 frame as it comes from the camera.
pub record Frame : Type 0 where
  pub nv21 : Bytes
  pub width : ℕ
  pub height : ℕ
  pub angle : ℕ

-- The fields of `FaceEngine`; `impl` is what `mImpl` points to. Of the two frame callbacks the
-- object keeps whether they are set.
pub record FaceEngine (Impl : Type 0) : Type 0 where
  pub impl : Impl
  pub enroll_frame_count : ℕ
  pub require_attention : Bool
  pub require_diverse_poses : Bool
  pub capture_requested : Bool
  pub rotation : ℕ
  pub cancelled : Bool
  pub has_session_callback : Bool

abbrev pub enroll_required_good_frames : ℕ
enroll_required_good_frames = 5

-- What the engine library defines. `authenticate` and `enroll` take the initial value of their
-- `outFaceId` and return its last value behind the result code; the score is only logged.
pub record EngineLibrary : Type 1 where
  pub Impl : Type 0
  pub init : FaceEngine Impl → Bool × FaceEngine Impl
  pub restore_enrollments : ℤ → FaceEngine Impl → Bool × FaceEngine Impl
  pub authenticate : Frame → ℤ → ℤ → FaceEngine Impl → ℤ × ℤ × FaceEngine Impl
  pub enroll : ℤ → Frame → ℤ → FaceEngine Impl → ℤ × ℤ × FaceEngine Impl
  pub analyze_face_quality : Frame → FaceEngine Impl → ℤ × FaceEngine Impl
  pub delete_enrollment : ℤ → ℤ → FaceEngine Impl → ℤ × FaceEngine Impl
  pub get_enrolled_face_ids : ℤ → FaceEngine Impl → List ℤ
  pub cancel_all : FaceEngine Impl → FaceEngine Impl

-- What the sessions rely on: `cancelAll` sets the flag that `isCancelled` reads, and
-- `deleteEnrollment` leaves it alone.
pub record EngineLaws (lib : EngineLibrary) : Type 0 where
  pub cancel_all-cancelled : (e : FaceEngine lib.Impl) → (lib.cancel_all e).cancelled ≡ true
  pub delete_enrollment-cancelled :
      (user id : ℤ) (e : FaceEngine lib.Impl)
      → (lib.delete_enrollment user id e).1.cancelled ≡ e.cancelled

module _ {Impl : Type 0} where
  unfoldable pub get_enrollment_progress : FaceEngine Impl → ℕ
  get_enrollment_progress e = e.enroll_frame_count * 100 / enroll_required_good_frames

  unfoldable pub set_session_frame_callback : Bool → FaceEngine Impl → FaceEngine Impl
  set_session_frame_callback given e = record e { has_session_callback = given }

  unfoldable pub start_operation : FaceEngine Impl → FaceEngine Impl
  start_operation e = record e { cancelled = false }

  unfoldable pub is_cancelled : FaceEngine Impl → Bool
  is_cancelled e = e.cancelled

  unfoldable pub set_require_attention : Bool → FaceEngine Impl → FaceEngine Impl
  set_require_attention enabled e = record e { require_attention = enabled }

  unfoldable pub set_require_diverse_poses : Bool → FaceEngine Impl → FaceEngine Impl
  set_require_diverse_poses enabled e = record e { require_diverse_poses = enabled }
