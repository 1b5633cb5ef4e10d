-- ===== src/Session/Starting.antt =====
-- What the three calls that start an operation do, whether the camera starts or not.
use android_vendor_extra_fac.Common.{
  ◌≡◌, refl, ◌∙◌, Bool, true, false, arith, ℤ, pos, int_eq, if◌then◌else◌, [], ◌∷◌, ◌++◌,
}
use android_vendor_extra_fac.VendorCode.{camera_no_device}
use android_vendor_extra_fac.Engine.{Frame, EngineLibrary, start_operation, is_cancelled}
use android_vendor_extra_fac.Camera.{CameraBackend}
use android_vendor_extra_fac.Session.State.{Session, System, on_error, Error, push, spawned}
use android_vendor_extra_fac.Session.Frames.{on_camera_frame}
use android_vendor_extra_fac.Session.Calls.{
  enroll, authenticate, authenticate_with_context, detect_interaction,
}
use android_vendor_extra_fac.Session.Steps.{
  Event, enrolls, cancels, detects, closes, destroys, authenticates, authenticates_with,
  changes_context, generates_challenge, revokes_challenge, enumerates, gets_features,
  gets_authenticator_id, resets_lockout, removes, sets_feature, frame, works, delivers, step,
}
use android_vendor_extra_fac.Session.Cancelling.{starts}

-- The flag of the operation that a call starts.
abbrev pub running_flag : Event → Session → Bool
running_flag enrolls s = s.is_enrolling
running_flag detects s = s.is_detecting_interaction
running_flag (authenticates id now) s = s.is_authenticating
running_flag (authenticates_with id context now) s = s.is_authenticating
running_flag _ s = false

module _ {lib : EngineLibrary} {cam : CameraBackend} where
  -- The code of the start that failed, where the camera gives one.
  abbrev pub failure_code : System lib cam → ℤ
  failure_code s =
      let code = cam.last_start_failure_vendor_code (cam.start s.camera).1 in
      if int_eq code (pos 0) then pos camera_no_device else code

  failure_code_nonzero : (s : System lib cam) → int_eq (failure_code s) (pos 0) ≡ false
  failure_code_nonzero s = ground arith

  -- Where the camera does not start, a call that starts an operation leaves it off and posts one
  -- error, whose vendor code is the camera's or, where that is 0, `CAMERA_NO_DEVICE`, and so never 0.
  pub step_fails :
      (shrink : cam.State → Frame → Frame) (e : Event) (s : System lib cam)
      → starts e ≡ true
      → (cam.start s.camera).0 ≡ false
      → (running_flag e (step shrink e s).session ≡ false)
        × ((step shrink e s).session.callbacks
            ≡ push (on_error Error.vendor (failure_code s)) s.session.callbacks)
        × (int_eq (failure_code s) (pos 0) ≡ false)
  unfolding step
  step_fails shrink enrolls s q off =
      unfold enroll in (ground arith, ground arith, failure_code_nonzero s)
  step_fails shrink detects s q off =
      unfold detect_interaction in (ground arith, ground arith, failure_code_nonzero s)
  step_fails shrink (authenticates id now) s q off =
      unfold authenticate in (ground arith, ground arith, failure_code_nonzero s)
  step_fails shrink (authenticates_with id context now) s q off =
      unfold authenticate_with_context in (ground arith, ground arith, failure_code_nonzero s)
  step_fails shrink cancels s q off = cc
  step_fails shrink closes s q off = cc
  step_fails shrink destroys s q off = cc
  step_fails shrink (changes_context context now) s q off = cc
  step_fails shrink (generates_challenge random) s q off = cc
  step_fails shrink (revokes_challenge challenge) s q off = cc
  step_fails shrink enumerates s q off = cc
  step_fails shrink gets_features s q off = cc
  step_fails shrink gets_authenticator_id s q off = cc
  step_fails shrink resets_lockout s q off = cc
  step_fails shrink (removes ids) s q off = cc
  step_fails shrink (sets_feature feature enabled) s q off = cc
  step_fails shrink (frame f) s q off = cc
  step_fails shrink (works i) s q off = cc
  step_fails shrink delivers s q off = cc

  -- A frame that comes behind a state is let in: a thread gets it, in the size that is chosen.
  abbrev pub TakesFrames : (cam.State → Frame → Frame) → System lib cam → Type 0
  TakesFrames shrink s =
      (f : Frame)
      → (on_camera_frame shrink f s).0 ≡ pos 0
        × ((on_camera_frame shrink f s).1.workers ≡ s.workers ++ spawned (shrink s.camera f) ∷ [])

  started_takes :
      (shrink : cam.State → Frame → Frame) (s : System lib cam)
      → s.engine.cancelled ≡ false
      → s.session.processing_frame ≡ false
      → TakesFrames shrink s
  unfolding on_camera_frame is_cancelled
  started_takes shrink s on free f = rw (on, free) (refl, refl)

  step_runs :
      (shrink : cam.State → Frame → Frame) (e : Event) (s : System lib cam)
      → starts e ≡ true
      → (cam.start s.camera).0 ≡ true
      → (running_flag e (step shrink e s).session ≡ true)
        × ((step shrink e s).session.callbacks ≡ s.session.callbacks)
        × ((step shrink e s).camera ≡ (cam.start s.camera).1)
  unfolding step
  step_runs shrink enrolls s q on = unfold enroll in ground arith
  step_runs shrink detects s q on = unfold detect_interaction in ground arith
  step_runs shrink (authenticates id now) s q on = unfold authenticate in ground arith
  step_runs shrink (authenticates_with id context now) s q on =
      unfold authenticate_with_context in ground arith
  step_runs shrink cancels s q on = cc
  step_runs shrink closes s q on = cc
  step_runs shrink destroys s q on = cc
  step_runs shrink (changes_context context now) s q on = cc
  step_runs shrink (generates_challenge random) s q on = cc
  step_runs shrink (revokes_challenge challenge) s q on = cc
  step_runs shrink enumerates s q on = cc
  step_runs shrink gets_features s q on = cc
  step_runs shrink gets_authenticator_id s q on = cc
  step_runs shrink resets_lockout s q on = cc
  step_runs shrink (removes ids) s q on = cc
  step_runs shrink (sets_feature feature enabled) s q on = cc
  step_runs shrink (frame f) s q on = cc
  step_runs shrink (works i) s q on = cc
  step_runs shrink delivers s q on = cc

  step_clears :
      (shrink : cam.State → Frame → Frame) (e : Event) (s : System lib cam)
      → starts e ≡ true
      → (cam.start s.camera).0 ≡ true
      → ((step shrink e s).engine.cancelled ≡ false)
        × ((step shrink e s).session.processing_frame ≡ s.session.processing_frame)
  unfolding step start_operation
  step_clears shrink enrolls s q on = unfold enroll in ground arith
  step_clears shrink detects s q on = unfold detect_interaction in ground arith
  step_clears shrink (authenticates id now) s q on = unfold authenticate in ground arith
  step_clears shrink (authenticates_with id context now) s q on =
      unfold authenticate_with_context in ground arith
  step_clears shrink cancels s q on = cc
  step_clears shrink closes s q on = cc
  step_clears shrink destroys s q on = cc
  step_clears shrink (changes_context context now) s q on = cc
  step_clears shrink (generates_challenge random) s q on = cc
  step_clears shrink (revokes_challenge challenge) s q on = cc
  step_clears shrink enumerates s q on = cc
  step_clears shrink gets_features s q on = cc
  step_clears shrink gets_authenticator_id s q on = cc
  step_clears shrink resets_lockout s q on = cc
  step_clears shrink (removes ids) s q on = cc
  step_clears shrink (sets_feature feature enabled) s q on = cc
  step_clears shrink (frame f) s q on = cc
  step_clears shrink (works i) s q on = cc
  step_clears shrink delivers s q on = cc

  -- Where the camera starts, a call that starts an operation posts nothing, its operation runs and the
  -- next frame is let in, even behind a cancel, where no thread processes another one.
  pub step_succeeds :
      (shrink : cam.State → Frame → Frame) (e : Event) (s : System lib cam)
      → starts e ≡ true
      → (cam.start s.camera).0 ≡ true
      → s.session.processing_frame ≡ false
      → (running_flag e (step shrink e s).session ≡ true)
        × ((step shrink e s).session.callbacks ≡ s.session.callbacks)
        × ((step shrink e s).camera ≡ (cam.start s.camera).1)
        × TakesFrames shrink (step shrink e s)
  step_succeeds shrink e s q on free =
      let (flag, posted, camera) = step_runs shrink e s q on in
      let (clear, idle) = step_clears shrink e s q on in
      (flag, posted, camera, started_takes shrink (step shrink e s) clear (idle ∙ free))
