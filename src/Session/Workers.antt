-- ===== src/Session/Workers.antt =====
-- At most one frame is processed at a time, and `mProcessingFrame` says whether one is.
use android_vendor_extra_fac.Common.{
  ℕ, zero, suc, ◌≡◌, refl, ◌∙◌, Bool, true, false, ◌⊎◌, inl, inr, List, [], ◌∷◌, arith,
  if◌then◌else◌, Option, none, some, ℤ, Bool-cases, Option-cases, get_elem?, negsuc, ◌≢◌,
}
use android_vendor_extra_fac.Engine.{Frame, FaceEngine, EngineLibrary}
use android_vendor_extra_fac.Camera.{CameraBackend}
use android_vendor_extra_fac.Session.State.{
  System, Worker, spawned, authenticated, analysed, enrolled, OperationContext,
}
use android_vendor_extra_fac.Session.Calls.{
  cancel, enroll, authenticate, authenticate_with_context, detect_interaction, generate_challenge,
  revoke_challenge, enumerate_enrollments, remove_enrollments, get_features, set_feature,
  get_authenticator_id, reset_lockout, close, create, destroy,
}
use android_vendor_extra_fac.Session.Context.{change_display, on_context_changed}
use android_vendor_extra_fac.Session.Frames.{on_camera_frame, call_engine, report, advance, work}
use android_vendor_extra_fac.Session.Steps.{
  Event, enrolls, cancels, detects, closes, destroys, authenticates, authenticates_with,
  changes_context, generates_challenge, revokes_challenge, enumerates, gets_features,
  gets_authenticator_id, resets_lockout, removes, sets_feature, frame, works, delivers, step, run,
}

holds : Option Worker → Bool
holds none = false
holds (some w) = true

module _ {lib : EngineLibrary} {cam : CameraBackend} where
  -- No thread runs and the flag is clear, or exactly one runs and the flag is set.
  abbrev pub Exclusive : System lib cam → Type 0
  Exclusive s =
      ((s.session.processing_frame ≡ false) × (s.workers ≡ []))
      ⊎ ((w : Worker) × (s.session.processing_frame ≡ true) × (s.workers ≡ w ∷ []))

  -- A step that leaves flag and threads alone.
  abbrev Leaves : System lib cam → System lib cam → Type 0
  Leaves s t = (t.session.processing_frame ≡ s.session.processing_frame) × (t.workers ≡ s.workers)

  cancel-Leaves : (s : System lib cam) → Leaves s (cancel s)
  unfolding cancel
  cancel-Leaves s = ground arith

  enroll-Leaves : (s : System lib cam) → Leaves s (enroll s)
  unfolding enroll
  enroll-Leaves s = ground arith

  authenticate-Leaves : (id now : ℕ) (s : System lib cam) → Leaves s (authenticate id now s)
  unfolding authenticate
  authenticate-Leaves id now s = ground arith

  detect_interaction-Leaves : (s : System lib cam) → Leaves s (detect_interaction s)
  unfolding detect_interaction
  detect_interaction-Leaves s = ground arith

  change_display-Leaves :
      (context : OperationContext) (s : System lib cam) → Leaves s (change_display context s)
  unfolding change_display
  change_display-Leaves context s = grind (arith, cancel-Leaves)

  on_context_changed-Leaves :
      (context : OperationContext) (now : ℕ) (s : System lib cam)
      → Leaves s (on_context_changed context now s)
  unfolding on_context_changed
  on_context_changed-Leaves context now s = grind (arith, cancel-Leaves, change_display-Leaves)

  Exclusive-Leaves : (s t : System lib cam) → Leaves s t → Exclusive s → Exclusive t
  Exclusive-Leaves s t (p, q) (inl (a, b)) = inl (p ∙ a, q ∙ b)
  Exclusive-Leaves s t (p, q) (inr (w, a, b)) = inr (w, p ∙ a, q ∙ b)

  on_camera_frame_skips :
      (shrink : cam.State → Frame → Frame) (f : Frame) (s : System lib cam)
      → (s.engine.cancelled ≡ true) ⊎ (s.session.processing_frame ≡ true)
      → on_camera_frame shrink f s ≡ (negsuc 0, s)
  unfolding on_camera_frame
  on_camera_frame_skips shrink f s h = ground arith

  on_camera_frame-Exclusive :
      (shrink : cam.State → Frame → Frame) (f : Frame) (s : System lib cam)
      → Exclusive s
      → Exclusive (on_camera_frame shrink f s).1
  on_camera_frame-Exclusive shrink f s (inr (w, p, q)) =
      rw (on_camera_frame_skips shrink f s (inr p)) (inr (w, p, q))
  on_camera_frame-Exclusive shrink f s (inl (p, q)) = elim (Bool-cases s.engine.cancelled) [
    | inl off ↦ rw (on_camera_frame_skips shrink f s (inl off)) (inl (p, q))
    | inr on ↦ unfold on_camera_frame in rw (on, p) (inr (spawned (shrink s.camera f), refl, rw q))
  ]

  -- With an answer a thread still holds the flag, and without one it has given it back.
  call_engine_flag :
      (f : Frame) (s : System lib cam)
      → ((call_engine f s).1.workers ≡ s.workers)
        × ((call_engine f s).1.session.processing_frame
            ≡ (if holds (call_engine f s).0 then s.session.processing_frame else false))
  unfolding call_engine holds
  call_engine_flag f s = ground arith

  report_flag :
      (w : Worker) (s : System lib cam)
      → ((f : Frame) → w ≢ spawned f)
      → ((report w s).workers ≡ s.workers) × ((report w s).session.processing_frame ≡ false)
  unfolding report
  report_flag (spawned f) s h = absurd (h f refl)
  report_flag (authenticated res face) s h = ground arith
  report_flag (analysed res) s h = ground arith
  report_flag (enrolled res face remaining) s h = ground arith

  work-none : (i : ℕ) (s : System lib cam) → get_elem? s.workers i ≡ none → work i s ≡ s
  unfolding work
  work-none i s e = rw (e, work)

  work-some :
      (i : ℕ) (w : Worker) (s : System lib cam)
      → get_elem? s.workers i ≡ some w
      → work i s ≡ advance i w s
  unfolding work
  work-some i w s e = rw (e, work)

  asked-Exclusive :
      (f : Frame) (s : System lib cam)
      → s.session.processing_frame ≡ true
      → s.workers ≡ spawned f ∷ []
      → Exclusive (advance 0 (spawned f) s)
  unfolding advance
  asked-Exclusive f s p q =
      let (same, flag) = call_engine_flag f s in
      elim (Option-cases (call_engine f s).0) [
        | inl e ↦ inl (rw (flag, e) (unfold holds in refl), rw (e, same, q))
        | inr (w, e) ↦ inr (w, rw (flag, e) (unfold holds in p), rw (e, same, q))
      ]

  reported-Exclusive :
      (w : Worker) (s : System lib cam)
      → ((f : Frame) → w ≢ spawned f)
      → s.workers ≡ w ∷ []
      → Exclusive (advance 0 w s)
  unfolding advance
  reported-Exclusive (spawned f) s h q = absurd (h f refl)
  reported-Exclusive w s h q = let (same, flag) = report_flag w s h in inl (flag, rw (same, q))

  alone-Exclusive :
      (w : Worker) (s : System lib cam)
      → s.session.processing_frame ≡ true
      → s.workers ≡ w ∷ []
      → Exclusive (advance 0 w s)
  alone-Exclusive (spawned f) s p q = asked-Exclusive f s p q
  alone-Exclusive (authenticated res face) s p q = reported-Exclusive _ s (λ f e. cc) q
  alone-Exclusive (analysed res) s p q = reported-Exclusive _ s (λ f e. cc) q
  alone-Exclusive (enrolled res face remaining) s p q = reported-Exclusive _ s (λ f e. cc) q

  work-Exclusive : (i : ℕ) (s : System lib cam) → Exclusive s → Exclusive (work i s)
  work-Exclusive i s (inl (p, q)) = rw (work-none i s (rw q)) (inl (p, q))
  work-Exclusive zero s (inr (w, p, q)) = rw (work-some 0 w s (rw q)) (alone-Exclusive w s p q)
  work-Exclusive (suc i) s (inr (w, p, q)) = rw (work-none (suc i) s (rw q)) (inr (w, p, q))

  close-Leaves : (s : System lib cam) → Leaves s (close s)
  unfolding close
  close-Leaves s = ground arith

  destroy-Leaves : (s : System lib cam) → Leaves s (destroy s)
  unfolding destroy
  destroy-Leaves s = ground arith

  authenticate_with_context-Leaves :
      (id : ℕ) (context : OperationContext) (now : ℕ) (s : System lib cam)
      → Leaves s (authenticate_with_context id context now s)
  unfolding authenticate_with_context
  authenticate_with_context-Leaves id context now s = ground arith

module _ {lib : EngineLibrary} {cam : CameraBackend} (shrink : cam.State → Frame → Frame) where
  step-Exclusive : (e : Event) (s : System lib cam) → Exclusive s → Exclusive (step shrink e s)
  unfolding step
  step-Exclusive (frame f) s x = on_camera_frame-Exclusive shrink f s x
  step-Exclusive (works i) s x = work-Exclusive i s x
  step-Exclusive enrolls s x = Exclusive-Leaves s (enroll s) (enroll-Leaves s) x
  step-Exclusive cancels s x = Exclusive-Leaves s (cancel s) (cancel-Leaves s) x
  step-Exclusive detects s x =
      Exclusive-Leaves s (detect_interaction s) (detect_interaction-Leaves s) x
  step-Exclusive closes s x = Exclusive-Leaves s (close s) (close-Leaves s) x
  step-Exclusive destroys s x = Exclusive-Leaves s (destroy s) (destroy-Leaves s) x
  step-Exclusive (authenticates id now) s x =
      Exclusive-Leaves s (authenticate id now s) (authenticate-Leaves id now s) x
  step-Exclusive (authenticates_with id context now) s x =
      Exclusive-Leaves s (authenticate_with_context id context now s)
        (authenticate_with_context-Leaves id context now s) x
  step-Exclusive (changes_context context now) s x =
      Exclusive-Leaves s (on_context_changed context now s)
        (on_context_changed-Leaves context now s) x
  step-Exclusive (generates_challenge random) s x =
      Exclusive-Leaves s (generate_challenge random s) (unfold generate_challenge in ground arith) x
  step-Exclusive (revokes_challenge challenge) s x =
      Exclusive-Leaves s (revoke_challenge challenge s) (unfold revoke_challenge in ground arith) x
  step-Exclusive enumerates s x =
      Exclusive-Leaves s (enumerate_enrollments s) (unfold enumerate_enrollments in (refl, refl)) x
  step-Exclusive gets_features s x =
      Exclusive-Leaves s (get_features s) (unfold get_features in (refl, refl)) x
  step-Exclusive gets_authenticator_id s x =
      Exclusive-Leaves s (get_authenticator_id s) (unfold get_authenticator_id in (refl, refl)) x
  step-Exclusive resets_lockout s x =
      Exclusive-Leaves s (reset_lockout s) (unfold reset_lockout in (refl, refl)) x
  step-Exclusive (removes ids) s x =
      Exclusive-Leaves s (remove_enrollments ids s) (unfold remove_enrollments in (refl, refl)) x
  step-Exclusive (sets_feature feature enabled) s x =
      Exclusive-Leaves s (set_feature feature enabled s) (unfold set_feature in ground arith) x
  step-Exclusive delivers s x =
      Exclusive-Leaves s (step shrink delivers s) (unfold step in (refl, refl)) x

  run-Exclusive_from :
      (es : List Event) (s : System lib cam) → Exclusive s → Exclusive (run shrink es s)
  unfolding run
  run-Exclusive_from [] s x = x
  run-Exclusive_from (e ∷ es) s x = run-Exclusive_from es (step shrink e s) (step-Exclusive e s x)

-- In every history of a session, whatever is called when and however the threads take turns, at
-- most one thread processes a frame, and `mProcessingFrame` is set exactly while one does.
pub run-Exclusive :
    (lib : EngineLibrary) (cam : CameraBackend) (shrink : cam.State → Frame → Frame)
    (es : List Event) (user : ℤ) (given : Bool) (e : FaceEngine lib.Impl) (camera : cam.State)
    → Exclusive (run shrink es (create {lib = lib} {cam = cam} user given e camera))
run-Exclusive lib cam shrink es user given e camera =
    run-Exclusive_from shrink es (create {lib = lib} {cam = cam} user given e camera)
      (unfold create in inl (refl, refl))
