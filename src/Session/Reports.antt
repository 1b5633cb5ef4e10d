-- ===== src/Session/Reports.antt =====
-- Whole runs of an operation: the call, a frame, and the thread's two steps.
use android_vendor_extra_fac.Common.{
  ℕ, ◌≡◌, true, false, [], ◌∷◌, arith, ℤ, pos, negsuc, int_eq, int_lt, ◌||◌, if◌then◌else◌,
}
use android_vendor_extra_fac.VendorCode.{failed, map_vendor_code}
use android_vendor_extra_fac.Engine.{Frame, FaceEngine, EngineLibrary, start_operation}
use android_vendor_extra_fac.Camera.{CameraBackend}
use android_vendor_extra_fac.Session.State.{
  System, Worker, authenticated, CallbackQueue, push, on_authentication_frame,
  on_authentication_succeeded, on_authentication_failed,
}
use android_vendor_extra_fac.Session.Calls.{infer_reason, authenticate}
use android_vendor_extra_fac.Session.Frames.{on_camera_frame, work, call_engine, report}
use android_vendor_extra_fac.Session.Steps.{authenticates, frame, works, step, run}

-- The callback that an answer of the engine leads to, if any.
abbrev pub answer_authentication : ℤ → ℤ → ℕ → ℤ → CallbackQueue → CallbackQueue
answer_authentication res face challenge user q =
    if int_eq res (pos 0)
    then push
        (on_authentication_succeeded face
          (record { challenge = challenge; user_id = user; authenticator_id = 0; timestamp = 0 }))
        q
    else if int_lt (pos 0) res
    then (if int_eq res (pos 1) || int_eq res (pos failed)
        then push on_authentication_failed q
        else push (on_authentication_frame (map_vendor_code res).0 (map_vendor_code res).1) q)
    else q

module _ {lib : EngineLibrary} {cam : CameraBackend} where
  -- The states behind the call of `authenticate` and behind the engine's answer.
  abbrev called : ℕ → ℕ → System lib cam → System lib cam
  called id now s = record s {
    session = record s.session {
      current_challenge = id;
      is_authenticating = true;
      auth_start_time = now;
      current_operation_reason =
          infer_reason s.session.current_operation_reason s.session.current_display_state;
      processing_frame = false;
    };
    engine = start_operation s.engine;
    camera = (cam.start s.camera).1;
    workers = [];
  }

  abbrev asked : FaceEngine lib.Impl → Worker → System lib cam → System lib cam
  asked e w s = record s {
    session = record s.session { processing_frame = true };
    engine = e;
    workers = w ∷ [];
  }

  authenticate-called :
      (id now : ℕ) (s : System lib cam)
      → s.workers ≡ []
      → s.session.processing_frame ≡ false
      → (cam.start s.camera).0 ≡ true
      → authenticate id now s ≡ called id now s
  unfolding authenticate
  authenticate-called id now s w p on = simp (w, p, on)

  frame_asked :
      (shrink : cam.State → Frame → Frame) (id now : ℕ) (f : Frame) (res face : ℤ)
      (e : FaceEngine lib.Impl) (s : System lib cam)
      → lib.authenticate
          (shrink (cam.start s.camera).1 f)
          s.session.user_id
          (negsuc 0)
          (start_operation s.engine)
        ≡ (res, face, e)
      → work 0 (on_camera_frame shrink f (called id now s)).1
        ≡ asked e (authenticated res face) (called id now s)
  unfolding work on_camera_frame call_engine start_operation
  frame_asked shrink id now f res face e s a = simp a

  asked_answered :
      (id now : ℕ) (res face : ℤ) (e : FaceEngine lib.Impl) (s : System lib cam)
      → let t = work 0 (asked e (authenticated res face) (called id now s)) in
        (t.session.callbacks
          ≡ answer_authentication res face id s.session.user_id s.session.callbacks)
        × (t.session.is_authenticating ≡ (if int_eq res (pos 0) then false else true))
        × (t.camera ≡ (
            if int_eq res (pos 0) then cam.stop (cam.start s.camera).1 else (cam.start s.camera).1))
        × (t.engine ≡ e)
        × (t.workers ≡ [])
        × (t.session.processing_frame ≡ false)
  unfolding work report
  asked_answered id now res face e s = ground arith

module _ {lib : EngineLibrary} {cam : CameraBackend} (shrink : cam.State → Frame → Frame) where
  -- From a session that processes no frame, where the camera starts: the call, one frame and the two
  -- steps of its thread ask the engine for this frame and this user, and end with no thread.
  -- The answer 0 is reported with a token of the call's operation id, ends the authentication and
  -- stops the camera. Any other answer leaves the authentication running: 1 and FAILED are reported
  -- as a failure, other positive ones as a frame, and negative ones not at all.
  pub run-authenticates :
      (id now : ℕ) (f : Frame) (res face : ℤ) (e : FaceEngine lib.Impl) (s : System lib cam)
      → s.workers ≡ []
      → s.session.processing_frame ≡ false
      → (cam.start s.camera).0 ≡ true
      → lib.authenticate
          (shrink (cam.start s.camera).1 f)
          s.session.user_id
          (negsuc 0)
          (start_operation s.engine)
        ≡ (res, face, e)
      → let t = run shrink (authenticates id now ∷ frame f ∷ works 0 ∷ works 0 ∷ []) s in
        (t.session.callbacks
          ≡ answer_authentication res face id s.session.user_id s.session.callbacks)
        × (t.session.is_authenticating ≡ (if int_eq res (pos 0) then false else true))
        × (t.camera ≡ (
            if int_eq res (pos 0) then cam.stop (cam.start s.camera).1 else (cam.start s.camera).1))
        × (t.engine ≡ e)
        × (t.workers ≡ [])
        × (t.session.processing_frame ≡ false)
  unfolding run step
  run-authenticates id now f res face e s w p on a =
      rw (authenticate-called id now s w p on, frame_asked shrink id now f res face e s a)
        (asked_answered id now res face e s)
