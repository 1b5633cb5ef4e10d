-- ===== src/Session/Frames.antt =====
-- `Session::onCameraFrame` and the thread that it detaches. A thread's work is two steps, its call of
-- the engine and what it does with the answer, so that other calls can come between them.
use android_vendor_extra_fac.Common.{
  ℕ, zero, suc, ◌-◌, true, false, ◌||◌, List, [], ◌∷◌, ◌++◌, leb, if◌then◌else◌, Option, none, some,
  get_elem?, set, ℤ, pos, negsuc, int_eq, int_lt,
}
use android_vendor_extra_fac.VendorCode.{face_ok, keep, failed, map_vendor_code}
use android_vendor_extra_fac.Engine.{
  Frame, EngineLibrary, is_cancelled, enroll_required_good_frames,
}
use android_vendor_extra_fac.Camera.{CameraBackend}
use android_vendor_extra_fac.Session.State.{
  Session, System, OperationReason, HardwareAuthToken, Worker, spawned, authenticated, analysed,
  enrolled, post_callback, on_enrollment_progress, on_enrollment_frame, on_authentication_frame,
  on_authentication_succeeded, on_authentication_failed, on_interaction_detected,
}
use android_vendor_extra_fac.Session.Calls.{post}

-- `int` subtraction of two numbers that are not negative.
abbrev pub minus : ℕ → ℕ → ℤ
minus a b = if leb b a then pos (a - b) else negsuc (b - a - 1)

unfoldable pub remove_at : ℕ → List Worker → List Worker
remove_at i [] = []
remove_at zero (w ∷ ws) = ws
remove_at (suc i) (w ∷ ws) = w ∷ remove_at i ws

abbrev pub token : Session → HardwareAuthToken
token s = record {
  challenge = s.current_challenge;
  user_id = s.user_id;
  authenticator_id = 0;
  timestamp = 0;
}

unfoldable pub place : ℕ → Option Worker → List Worker → List Worker
unfolding remove_at
place i none ws = remove_at i ws
place i (some w) ws = set ws i w

module _ {lib : EngineLibrary} {cam : CameraBackend} where
  -- `shrink` stands for the choice of the size and the downscaling in between. The result is what
  -- the function returns.
  unfoldable pub on_camera_frame :
      (cam.State → Frame → Frame) → Frame → System lib cam → ℤ × System lib cam
  unfolding is_cancelled
  on_camera_frame shrink frame s =
      if is_cancelled s.engine
      then (negsuc 0, s)
      else if s.session.processing_frame
      then (negsuc 0, s)
      else (
        pos 0,
        record s {
          session = record s.session { processing_frame = true };
          workers = s.workers ++ spawned (shrink s.camera frame) ∷ [];
        },
      )

  abbrev processed : System lib cam → System lib cam
  processed s = record s { session = record s.session { processing_frame = false } }

  -- The first step of a thread: the answer that it goes on with, if it does.
  unfoldable pub call_engine : Frame → System lib cam → Option Worker × System lib cam
  unfolding is_cancelled
  call_engine frame s =
      if is_cancelled s.engine
      then (none, processed s)
      else if s.session.is_authenticating
      then (let (res, face, e) = lib.authenticate frame s.session.user_id (negsuc 0) s.engine in
          (some (authenticated res face), record s { engine = e }))
      else if s.session.is_detecting_interaction
      then (let (res, e) = lib.analyze_face_quality frame s.engine in
          (some (analysed res), record s { engine = e }))
      else if s.session.is_enrolling
      then (let (res, face, e) = lib.enroll s.session.user_id frame (pos 0) s.engine in
          (
            some (enrolled res face (minus enroll_required_good_frames e.enroll_frame_count)),
            record s { engine = e },
          ))
      else (none, processed s)

  unfoldable pub report_authentication : ℤ → ℤ → System lib cam → System lib cam
  unfolding post_callback
  report_authentication res face s =
      if int_eq res (pos 0)
      then post (on_authentication_succeeded face (token s.session)) (record s {
        session = record s.session {
          is_authenticating = false;
          current_operation_reason = OperationReason.unknown;
        };
        camera = cam.stop s.camera;
      })
      else if int_lt (pos 0) res
      then (let (info, code) = map_vendor_code res in
          if int_eq res (pos 1) || int_eq res (pos failed)
          then post on_authentication_failed s
          else post (on_authentication_frame info code) s)
      else s

  unfoldable pub report_interaction : ℤ → System lib cam → System lib cam
  unfolding post_callback
  report_interaction res s =
      if int_eq res (pos face_ok)
      then post on_interaction_detected (record s {
        session = record s.session { is_detecting_interaction = false };
        camera = cam.stop s.camera;
      })
      else s

  unfoldable pub report_enrollment : ℤ → ℤ → ℤ → System lib cam → System lib cam
  unfolding post_callback
  report_enrollment res face remaining s =
      if int_eq res (pos face_ok)
      then post (on_enrollment_progress face (pos 0)) (record s {
        session = record s.session { is_enrolling = false };
        camera = cam.stop s.camera;
      })
      else if int_eq res (pos keep)
      then post (on_enrollment_progress face remaining) s
      else (let (info, code) = map_vendor_code res in post (on_enrollment_frame info code) s)

  -- The second step of a thread, which ends it.
  unfoldable pub report : Worker → System lib cam → System lib cam
  unfolding report_authentication report_interaction report_enrollment
  report (spawned frame) s = s
  report (authenticated res face) s = processed (report_authentication res face s)
  report (analysed res) s = processed (report_interaction res s)
  report (enrolled res face remaining) s = processed (report_enrollment res face remaining s)

  unfoldable pub advance : ℕ → Worker → System lib cam → System lib cam
  unfolding place
  advance i (spawned frame) s =
      let (next, s1) = call_engine frame s in record s1 { workers = place i next s1.workers }
  advance i w s = let s1 = report w s in record s1 { workers = remove_at i s1.workers }

  -- The thread at place `i` of those that run takes its next step.
  unfoldable pub work : ℕ → System lib cam → System lib cam
  unfolding advance
  work i s = elim (get_elem? s.workers i) [ none ↦ s | some w ↦ advance i w s ]
