-- ===== src/Session/Steps.antt =====
-- A session with everything that can happen to it, one step each: the binder calls, the camera's
-- frames, the detached threads and the callback thread.
use android_vendor_extra_fac.Common.{ℕ, Bool, List, [], ◌∷◌, Option, ℤ}
use android_vendor_extra_fac.Engine.{Frame, EngineLibrary}
use android_vendor_extra_fac.Camera.{CameraBackend}
use android_vendor_extra_fac.Session.State.{System, Feature, OperationContext, deliver}
use android_vendor_extra_fac.Session.Calls.{
  cancel, enroll, authenticate, authenticate_with_context, detect_interaction, generate_challenge,
  revoke_challenge, enumerate_enrollments, remove_enrollments, get_features, set_feature,
  get_authenticator_id, reset_lockout, close, destroy,
}
use android_vendor_extra_fac.Session.Context.{on_context_changed}
use android_vendor_extra_fac.Session.Frames.{on_camera_frame, work}

pub data Event : Type 0 where
  enrolls cancels detects closes destroys : Event
  authenticates : ℕ → ℕ → Event
  authenticates_with : ℕ → OperationContext → ℕ → Event
  changes_context : OperationContext → ℕ → Event
  generates_challenge : Option ℕ → Event
  revokes_challenge : ℕ → Event
  enumerates gets_features gets_authenticator_id resets_lockout : Event
  removes : List ℤ → Event
  sets_feature : Feature → Bool → Event
  frame : Frame → Event
  works : ℕ → Event
  delivers : Event

module _ {lib : EngineLibrary} {cam : CameraBackend} (shrink : cam.State → Frame → Frame) where
  unfoldable pub step : Event → System lib cam → System lib cam
  step enrolls s = enroll s
  step cancels s = cancel s
  step detects s = detect_interaction s
  step closes s = close s
  step destroys s = destroy s
  step (authenticates id now) s = authenticate id now s
  step (authenticates_with id context now) s = authenticate_with_context id context now s
  step (changes_context context now) s = on_context_changed context now s
  step (generates_challenge random) s = generate_challenge random s
  step (revokes_challenge challenge) s = revoke_challenge challenge s
  step enumerates s = enumerate_enrollments s
  step gets_features s = get_features s
  step gets_authenticator_id s = get_authenticator_id s
  step resets_lockout s = reset_lockout s
  step (removes ids) s = remove_enrollments ids s
  step (sets_feature feature enabled) s = set_feature feature enabled s
  step (frame f) s = (on_camera_frame shrink f s).1
  step (works i) s = work i s
  step delivers s = record s {
    session = record s.session { callbacks = deliver s.session.callbacks };
  }

  unfoldable pub run : List Event → System lib cam → System lib cam
  run [] s = s
  run (e ∷ es) s = run es (step e s)
