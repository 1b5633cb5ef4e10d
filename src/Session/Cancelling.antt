-- ===== src/Session/Cancelling.antt =====
-- What `cancel` guarantees to the calls, the frames and the threads that come behind it.
use android_vendor_extra_fac.Common.{
  ℕ, ◌≡◌, refl, ◌∙◌, Bool, true, false, List, [], ◌∷◌, arith, ℤ, pos, negsuc, inl, inr, All,
  get_elem?, Option-cases,
}
use android_vendor_extra_fac.Engine.{
  Frame, FaceEngine, EngineLibrary, EngineLaws, set_session_frame_callback,
}
use android_vendor_extra_fac.Camera.{CameraBackend}
use android_vendor_extra_fac.Session.State.{
  System, Worker, spawned, authenticated, analysed, enrolled, Feature, OperationContext, push,
  on_error, Error, on_authentication_succeeded,
}
use android_vendor_extra_fac.Session.Calls.{
  is_active, cancel, delete_all, generate_challenge, revoke_challenge, enumerate_enrollments,
  remove_enrollments, get_features, set_feature, get_authenticator_id, reset_lockout, close,
  destroy,
}
use android_vendor_extra_fac.Session.Context.{change_display, on_context_changed}
use android_vendor_extra_fac.Session.Frames.{
  on_camera_frame, token, call_engine, report, advance, work,
}
use android_vendor_extra_fac.Session.Steps.{
  Event, enrolls, cancels, detects, closes, destroys, authenticates, authenticates_with,
  changes_context, generates_challenge, revokes_challenge, enumerates, gets_features,
  gets_authenticator_id, resets_lockout, removes, sets_feature, frame, works, delivers, step, run,
}

-- The calls that start an operation.
abbrev pub starts : Event → Bool
starts enrolls = true
starts detects = true
starts (authenticates id now) = true
starts (authenticates_with id context now) = true
starts _ = false

module _ {lib : EngineLibrary} {cam : CameraBackend} where
  -- No operation runs, and the engine refuses frames.
  abbrev pub Idle : System lib cam → Type 0
  Idle s = (is_active s.session ≡ false) × (s.engine.cancelled ≡ true)

delete_all-cancelled :
    {lib : EngineLibrary} (laws : EngineLaws lib) (user : ℤ) (ids : List ℤ)
    (e : FaceEngine lib.Impl)
    → (delete_all lib user ids e).cancelled ≡ e.cancelled
unfolding delete_all
delete_all-cancelled laws user [] e = refl
delete_all-cancelled {lib} laws user (id ∷ ids) e =
    delete_all-cancelled laws user ids (lib.delete_enrollment user id e).1
    ∙ laws.delete_enrollment-cancelled user id e

module _ {lib : EngineLibrary} {cam : CameraBackend} (laws : EngineLaws lib) where
  cancel-Idle : (s : System lib cam) → Idle (cancel s)
  unfolding cancel is_active
  cancel-Idle s = (ground arith, laws.cancel_all-cancelled _)

  change_display-Idle :
      (context : OperationContext) (s : System lib cam) → Idle s → Idle (change_display context s)
  unfolding change_display is_active
  change_display-Idle context s h = grind (arith, cancel-Idle)

  on_context_changed-Idle :
      (context : OperationContext) (now : ℕ) (s : System lib cam)
      → Idle s
      → Idle (on_context_changed context now s)
  unfolding on_context_changed is_active
  on_context_changed-Idle context now s h = grind (arith, cancel-Idle, change_display-Idle)

  call_engine-Idle : (f : Frame) (s : System lib cam) → Idle s → Idle (call_engine f s).1
  unfolding call_engine is_active
  call_engine-Idle f s h = ground arith

  report-Idle : (w : Worker) (s : System lib cam) → Idle s → Idle (report w s)
  unfolding report is_active
  report-Idle (spawned f) s h = h
  report-Idle (authenticated res face) s h = ground arith
  report-Idle (analysed res) s h = ground arith
  report-Idle (enrolled res face remaining) s h = ground arith

  advance-Idle : (i : ℕ) (w : Worker) (s : System lib cam) → Idle s → Idle (advance i w s)
  unfolding advance is_active
  advance-Idle i (spawned f) s h = call_engine-Idle f s h
  advance-Idle i (authenticated res face) s h = report-Idle (authenticated res face) s h
  advance-Idle i (analysed res) s h = report-Idle (analysed res) s h
  advance-Idle i (enrolled res face remaining) s h = report-Idle (enrolled res face remaining) s h

  work-Idle : (i : ℕ) (s : System lib cam) → Idle s → Idle (work i s)
  unfolding work
  work-Idle i s h = elim (Option-cases (get_elem? s.workers i)) [
    | inl e ↦ rw (e, work) h
    | inr (w, e) ↦ rw (e, work) (advance-Idle i w s h)
  ]

  step-Idle :
      (shrink : cam.State → Frame → Frame) (e : Event) (s : System lib cam)
      → starts e ≡ false
      → Idle s
      → Idle (step shrink e s)
  unfolding step is_active
  step-Idle shrink enrolls s q h = cc
  step-Idle shrink detects s q h = cc
  step-Idle shrink (authenticates id now) s q h = cc
  step-Idle shrink (authenticates_with id context now) s q h = cc
  step-Idle shrink cancels s q h = cancel-Idle s
  step-Idle shrink closes s q h = unfold close in cancel-Idle s
  step-Idle shrink destroys s q h =
      unfold destroy in
      cancel-Idle (record s { engine = set_session_frame_callback false s.engine })
  step-Idle shrink (changes_context context now) s q h = on_context_changed-Idle context now s h
  step-Idle shrink (generates_challenge random) s q h = unfold generate_challenge in ground arith
  step-Idle shrink (revokes_challenge challenge) s q h = unfold revoke_challenge in ground arith
  step-Idle shrink enumerates s q h = unfold enumerate_enrollments in h
  step-Idle shrink gets_features s q h = unfold get_features in h
  step-Idle shrink gets_authenticator_id s q h = unfold get_authenticator_id in h
  step-Idle shrink resets_lockout s q h = unfold reset_lockout in h
  step-Idle shrink (removes ids) s q h =
      unfold remove_enrollments in
      (h.0, delete_all-cancelled laws s.session.user_id ids s.engine ∙ h.1)
  step-Idle shrink (sets_feature Feature.require_attention enabled) s q h =
      unfold set_feature in ground arith
  step-Idle shrink (sets_feature Feature.require_diverse_poses enabled) s q h =
      unfold set_feature in ground arith
  step-Idle shrink (sets_feature (Feature.other n) enabled) s q h =
      unfold set_feature in ground arith
  step-Idle shrink (frame f) s q h = unfold on_camera_frame in ground arith
  step-Idle shrink (works i) s q h = work-Idle i s h
  step-Idle shrink delivers s q h = h

  run-Idle :
      (shrink : cam.State → Frame → Frame) (es : List Event) (s : System lib cam)
      → All (λ e. starts e ≡ false) es
      → Idle s
      → Idle (run shrink es s)
  unfolding run
  run-Idle shrink [] s q h = h
  run-Idle shrink (e ∷ es) s (p, q) h =
      run-Idle shrink es (step shrink e s) q (step-Idle shrink e s p h)

  -- Behind a `cancel`, whatever comes but a call that starts an operation, no operation runs and a
  -- frame is refused with -1 and changes nothing.
  pub cancel_lasts :
      (shrink : cam.State → Frame → Frame) (es : List Event) (f : Frame) (s : System lib cam)
      → All (λ e. starts e ≡ false) es
      → (is_active (run shrink es (cancel s)).session ≡ false)
        × (on_camera_frame shrink f (run shrink es (cancel s))
            ≡ (negsuc 0, run shrink es (cancel s)))
  unfolding on_camera_frame
  cancel_lasts shrink es f s q =
      let (inactive, off) = run-Idle shrink es (cancel s) q (cancel-Idle s) in (inactive, simp off)

module _ {lib : EngineLibrary} {cam : CameraBackend} where
  -- A thread that has its answer from the engine when `cancel` comes reports a success behind the
  -- cancellation, as it reads `isCancelled` only before it asks.
  pub report_success-cancel :
      (face : ℤ) (s : System lib cam)
      → is_active s.session ≡ true
      → (report (authenticated (pos 0) face) (cancel s)).session.callbacks
        ≡ push
            (on_authentication_succeeded face (token s.session))
            (push (on_error Error.canceled (pos 0)) s.session.callbacks)
  unfolding report cancel
  report_success-cancel face s h = simp h
