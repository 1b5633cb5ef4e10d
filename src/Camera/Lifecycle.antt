-- ===== src/Camera/Lifecycle.antt =====
-- `start` and `stop` of default/Camera2NdkBackend.cpp as wholes, and any sequence of them on one thread
-- that is not that of the callback.
use android_vendor_extra_fac.Common.{
  ℕ, ◌≡◌, ◌⊎◌, refl, sym, ap, subst, true, false, inl, inr, List, [], ◌∷◌, Option, some, arith,
  Bool-cases, pos, if_false,
}
use android_vendor_extra_fac.Camera.{CameraBackend}
use android_vendor_extra_fac.Camera.Ndk.{CameraNdk}
use android_vendor_extra_fac.Camera.Backend.{System, is_null, teardown, ◌then◌}
use android_vendor_extra_fac.Camera.Operations.{
  create_manager, open_chosen, create_output, create_container, create_session, create_request,
  create_target, set_repeating, start_stopped, start, stop,
}
use android_vendor_extra_fac.Camera.Balance.{NdkLaws, live, Holds, teardown-Released}
use android_vendor_extra_fac.Camera.Outcomes.{
  Underway, Outcome, outcome, Outcome-true, Outcome-false, then-Outcome,
}
use android_vendor_extra_fac.Camera.Opening.{
  NoTarget, NoRequest, NoSession, NoContainer, NoOutput, NoReader,
}
use android_vendor_extra_fac.Camera.StartLaws.{
  AllNull, Anything, Stopped, Running, create_manager-Outcome, open_chosen-Outcome,
  create_output-Outcome, create_container-Outcome, create_session-Outcome, create_request-Outcome,
  create_target-Outcome, set_repeating-Outcome,
}

-- A call of a client.
pub data Call : Type 0 where
  starts : Option ℕ → Call
  stops : Call

abbrev call : {ndk : CameraNdk} → Call → System ndk → System ndk
call (starts cb) s = (start cb s).1
call stops s = stop s

abbrev pub run : {ndk : CameraNdk} → List Call → System ndk → System ndk
run [] s = s
run (c ∷ cs) s = run cs (call c s)

module _ {ndk : CameraNdk} (laws : NdkLaws ndk) where
  start_stopped-Outcome :
      (base : ℕ) (s : System ndk)
      → Underway laws base AllNull s
      → Outcome laws base (Running laws base) (start_stopped s).0 (start_stopped s).1
  unfolding start_stopped
  start_stopped-Outcome base s u =
      let r1 = create_manager s in
      let r2 = r1 then open_chosen in
      let r3 = r2 then create_output in
      let r4 = r3 then create_container in
      let r5 = r4 then create_session in
      let r6 = r5 then create_request in
      let r7 = r6 then create_target in
      let o1 = create_manager-Outcome laws base s u in
      let o2 =
        then-Outcome laws base (Underway laws base NoReader) (Underway laws base NoOutput) r1
          open_chosen o1 (open_chosen-Outcome laws base) in
      let o3 =
        then-Outcome laws base (Underway laws base NoOutput) (Underway laws base NoContainer) r2
          create_output o2 (create_output-Outcome laws base) in
      let o4 =
        then-Outcome laws base (Underway laws base NoContainer) (Underway laws base NoSession) r3
          create_container o3 (create_container-Outcome laws base) in
      let o5 =
        then-Outcome laws base (Underway laws base NoSession) (Underway laws base NoRequest) r4
          create_session o4 (create_session-Outcome laws base) in
      let o6 =
        then-Outcome laws base (Underway laws base NoRequest) (Underway laws base NoTarget) r5
          create_request o5 (create_request-Outcome laws base) in
      let o7 =
        then-Outcome laws base (Underway laws base NoTarget) (Underway laws base Anything) r6
          create_target o6 (create_target-Outcome laws base) in
      then-Outcome laws base (Underway laws base Anything) (Running laws base) r7 set_repeating o7
        (set_repeating-Outcome laws base)

  -- A stopped backend that is started runs with failure code 0, holding all that was made, or has
  -- failed: then it does not run, everything made on the way is released, and the failure code is
  -- one of the camera's, 50 to 58.
  pub start-Outcome :
      (base : ℕ) (cb : Option ℕ) (s : System ndk)
      → Stopped laws base s
      → Outcome laws base (Running laws base) (start cb s).0 (start cb s).1
  unfolding start
  start-Outcome base cb s (released, stopped) =
      let s1 = record s { backend = record s.backend { callback = cb; last_start_failure = 0 } } in
      let (null, used) = released in
      let holds : Holds laws base s1 = omega (arith, used, ap live null) in
      let all_null : AllNull s.backend.handles = (
        ap (λ h. h.manager) null,
        (
          ap (λ h. h.reader) null,
          (
            ap (λ h. h.device) null,
            (
              ap (λ h. h.output) null,
              (
                ap (λ h. h.container) null,
                (ap (λ h. h.session) null, (ap (λ h. h.request) null, ap (λ h. h.target) null)),
              ),
            ),
          ),
        ),
      ) in
      outcome laws base (Running laws base) (start cb s) (start_stopped s1)
        (if_false s.backend.is_running (true, s) (start_stopped s1) stopped)
        (start_stopped-Outcome base s1 (holds, all_null, stopped, refl))

  start_running :
      (base : ℕ) (cb : Option ℕ) (s : System ndk) → Running laws base s → start cb s ≡ (true, s)
  unfolding start
  start_running base cb s (holds, running, fine) = rw (running) refl

  stop-Stopped : (base : ℕ) (s : System ndk) → Stopped laws base s → Stopped laws base (stop s)
  unfolding stop
  stop-Stopped base s ((null, used), stopped) =
      let nothing : is_null s.backend.handles.manager ≡ true = ap (λ h. is_null h.manager) null in
      let same : stop s ≡ s = rw (stopped, nothing) refl in
      subst (λ t. Stopped laws base t) (sym same) ((null, used), stopped)

  stop-Running : (base : ℕ) (s : System ndk) → Running laws base s → Stopped laws base (stop s)
  unfolding stop teardown
  stop-Running base s (holds, running, fine) =
      let s1 = record s { backend = record s.backend { is_running = false } } in
      let down : stop s ≡ teardown s1 = rw (running) refl in
      subst (λ t. Stopped laws base t) (sym down) (teardown-Released laws base s1 holds, refl)

  call_Accounted :
      (base : ℕ) (c : Call) (s : System ndk)
      → Stopped laws base s ⊎ Running laws base s
      → Stopped laws base (call c s) ⊎ Running laws base (call c s)
  call_Accounted base (starts cb) s (inl stopped) =
      let started = start-Outcome base cb s stopped in
      elim (Bool-cases (start cb s).0) [
        | inl e ↦ inr (Outcome-true laws base (Running laws base) (start cb s) started e)
        | inr e ↦
            let up = Outcome-false laws base (Running laws base) (start cb s) started e in
            inl (up.0, up.1)
      ]
  call_Accounted base (starts cb) s (inr running) =
      inr (subst (λ r. Running laws base r.1) (sym (start_running base cb s running)) running)
  call_Accounted base stops s (inl stopped) = inl (stop-Stopped base s stopped)
  call_Accounted base stops s (inr running) = inl (stop-Running base s running)

  -- After any calls of start and stop the backend is stopped and holds nothing, or runs and holds
  -- what was made: nothing is leaked and nothing released twice.
  pub run-Accounted :
      (base : ℕ) (cs : List Call) (s : System ndk)
      → Stopped laws base s
      → Stopped laws base (run cs s) ⊎ Running laws base (run cs s)
  run-Accounted base cs s stopped = go cs s (inl stopped)
    where
      go :
          (cs : List Call) (s : System ndk)
          → Stopped laws base s ⊎ Running laws base s
          → Stopped laws base (run cs s) ⊎ Running laws base (run cs s)
      go [] s h = h
      go (c ∷ cs) s h = go cs (call c s) (call_Accounted base c s h)

  -- Whatever was called before, a last stop releases everything.
  pub run_stop-Stopped :
      (base : ℕ) (cs : List Call) (s : System ndk)
      → Stopped laws base s
      → Stopped laws base (stop (run cs s))
  run_stop-Stopped base cs s stopped = elim (run-Accounted base cs s stopped) [
    | inl h ↦ stop-Stopped base (run cs s) h
    | inr h ↦ stop-Running base (run cs s) h
  ]

-- The camera of a session, by this backend.
abbrev pub ndk_camera : CameraNdk → CameraBackend
ndk_camera ndk = record {
  State = System ndk;
  start = start (some 0);
  stop = stop;
  last_start_failure_vendor_code = λ s. pos s.backend.last_start_failure;
}
