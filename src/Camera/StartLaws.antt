-- ===== src/Camera/StartLaws.antt =====
-- `start` and `stop` of default/Camera2NdkBackend.cpp as wholes: what runs, what is held and what is
-- released.
use android_vendor_extra_fac.Common.{ℕ, ◌≡◌, refl, ap, true, false, none, arith}
use android_vendor_extra_fac.VendorCode.{
  camera_manager_failed, camera_session_failed, camera_request_failed, camera_streaming_failed,
}
use android_vendor_extra_fac.Camera.Ndk.{CameraNdk}
use android_vendor_extra_fac.Camera.Backend.{Handles, System, acquire, perform}
use android_vendor_extra_fac.Camera.Starting.{has_warm, turn, choose_camera, configure, open_loop}
use android_vendor_extra_fac.Camera.Operations.{
  create_manager, open_chosen, create_output, create_container, create_session, create_request,
  create_target, set_repeating,
}
use android_vendor_extra_fac.Camera.Balance.{count, NdkLaws, Holds, Released}
use android_vendor_extra_fac.Camera.Outcomes.{
  Underway, Outcome, then-Outcome, acquire-Outcome, perform-Outcome,
}
use android_vendor_extra_fac.Camera.Opening.{
  NoTarget, NoRequest, NoSession, NoContainer, NoOutput, NoReader, choose_camera-Outcome,
}
use android_vendor_extra_fac.Camera.Rounds.{open_loop-Outcome}

abbrev pub AllNull : {Handle : Type 0} → Handles Handle → Type 0
AllNull h = (h.manager ≡ none) × NoReader h

abbrev pub Anything : {Handle : Type 0} → Handles Handle → Type 0
Anything h = Unit {0}

module _ {ndk : CameraNdk} (laws : NdkLaws ndk) where
  -- A backend that is stopped and holds nothing, and one that runs.
  abbrev pub Stopped : ℕ → System ndk → Type 0
  Stopped base s = Released laws base s × (s.backend.is_running ≡ false)

  abbrev pub Running : ℕ → System ndk → Type 0
  Running base s =
      Holds laws base s × (s.backend.is_running ≡ true) × (s.backend.last_start_failure ≡ 0)

  pub create_manager-Outcome :
      (base : ℕ) (s : System ndk)
      → Underway laws base AllNull s
      → Outcome laws base (Underway laws base NoReader) (create_manager s).0 (create_manager s).1
  unfolding create_manager
  create_manager-Outcome base s u =
      acquire-Outcome laws base AllNull NoReader (λ h r. record r { manager = h })
        (λ r k. let (h, k1) = ndk.manager_create k in (true, h, k1)) false camera_manager_failed s u
        (λ r k. laws.manager_create_law k) (λ h r p. omega (arith, ap count p.0)) (λ h r p e. p.1)
        (omega arith) (omega arith)

  pub open_chosen-Outcome :
      (base : ℕ) (s : System ndk)
      → Underway laws base NoReader s
      → Outcome laws base (Underway laws base NoOutput) (open_chosen s).0 (open_chosen s).1
  unfolding open_chosen configure turn
  open_chosen-Outcome base s u =
      then-Outcome laws base (Underway laws base NoReader) (Underway laws base NoOutput)
        (choose_camera s) (λ t. open_loop 2 0 (has_warm s.warm) (configure t))
        (choose_camera-Outcome laws base NoReader s u)
        (λ t v. open_loop-Outcome laws base (has_warm s.warm) (configure t) v)

  pub create_output-Outcome :
      (base : ℕ) (s : System ndk)
      → Underway laws base NoOutput s
      → Outcome laws base (Underway laws base NoContainer) (create_output s).0 (create_output s).1
  unfolding create_output
  create_output-Outcome base s u =
      acquire-Outcome laws base NoOutput NoContainer (λ h r. record r { output = h })
        (λ r k. ndk.output_create r.window k) true camera_session_failed s u
        (λ r k. laws.output_create_law r.window k) (λ h r p. omega (arith, ap count p.0))
        (λ h r p e. p.1) (omega arith) (omega arith)

  pub create_container-Outcome :
      (base : ℕ) (s : System ndk)
      → Underway laws base NoContainer s
      → Outcome laws base
          (Underway laws base NoSession)
          (create_container s).0
          (create_container s).1
  unfolding create_container
  create_container-Outcome base s u =
      let made =
        acquire-Outcome laws base NoContainer NoSession (λ h r. record r { container = h })
          (λ r k. ndk.container_create k) true camera_session_failed s u
          (λ r k. laws.container_create_law k) (λ h r p. omega (arith, ap count p.0))
          (λ h r p e. p.1) (omega arith) (omega arith) in
      then-Outcome laws base (Underway laws base NoSession) (Underway laws base NoSession)
        (acquire (λ h r. record r { container = h }) (λ r k. ndk.container_create k) true
          camera_session_failed s)
        (perform (λ r k. ndk.container_add r.container r.output k) camera_session_failed) made
        (λ t v.
          perform-Outcome laws base NoSession (λ r k. ndk.container_add r.container r.output k)
            camera_session_failed t v (λ r k. laws.container_add_law r.container r.output k)
            (omega arith) (omega arith))

  pub create_session-Outcome :
      (base : ℕ) (s : System ndk)
      → Underway laws base NoSession s
      → Outcome laws base (Underway laws base NoRequest) (create_session s).0 (create_session s).1
  unfolding create_session
  create_session-Outcome base s u =
      acquire-Outcome laws base NoSession NoRequest (λ h r. record r { session = h })
        (λ r k. ndk.create_capture_session r.device r.container k) false camera_session_failed
        (record s { backend = record s.backend { session_closed = false } }) u
        (λ r k. laws.create_capture_session_law r.device r.container k)
        (λ h r p. omega (arith, ap count p.0)) (λ h r p e. p.1) (omega arith) (omega arith)

  pub create_request-Outcome :
      (base : ℕ) (s : System ndk)
      → Underway laws base NoRequest s
      → Outcome laws base (Underway laws base NoTarget) (create_request s).0 (create_request s).1
  unfolding create_request
  create_request-Outcome base s u =
      acquire-Outcome laws base NoRequest NoTarget (λ h r. record r { request = h })
        (λ r k. ndk.create_capture_request r.device k) false camera_request_failed s u
        (λ r k. laws.create_capture_request_law r.device k) (λ h r p. omega (arith, ap count p.0))
        (λ h r p e. p.1) (omega arith) (omega arith)

  pub create_target-Outcome :
      (base : ℕ) (s : System ndk)
      → Underway laws base NoTarget s
      → Outcome laws base (Underway laws base Anything) (create_target s).0 (create_target s).1
  unfolding create_target
  create_target-Outcome base s u =
      let made =
        acquire-Outcome laws base NoTarget Anything (λ h r. record r { target = h })
          (λ r k. ndk.target_create r.window k) true camera_request_failed s u
          (λ r k. laws.target_create_law r.window k) (λ h r p. omega (arith, ap count p))
          (λ h r p e. tt) (omega arith) (omega arith) in
      then-Outcome laws base (Underway laws base Anything) (Underway laws base Anything)
        (acquire (λ h r. record r { target = h }) (λ r k. ndk.target_create r.window k) true
          camera_request_failed s)
        (perform (λ r k. ndk.add_target r.request r.target k) camera_request_failed) made
        (λ t v.
          perform-Outcome laws base Anything (λ r k. ndk.add_target r.request r.target k)
            camera_request_failed t v (λ r k. laws.add_target_law r.request r.target k)
            (omega arith) (omega arith))

  pub set_repeating-Outcome :
      (base : ℕ) (s : System ndk)
      → Underway laws base Anything s
      → Outcome laws base (Running base) (set_repeating s).0 (set_repeating s).1
  unfolding set_repeating
  set_repeating-Outcome base s u =
      then-Outcome laws base (Underway laws base Anything) (Running base)
        (perform (λ r k. ndk.set_repeating_request r.session r.request k) camera_streaming_failed s)
        (λ t. (true, record t { backend = record t.backend { is_running = true } }))
        (perform-Outcome laws base Anything (λ r k. ndk.set_repeating_request r.session r.request k)
          camera_streaming_failed s u (λ r k. laws.set_repeating_request_law r.session r.request k)
          (omega arith) (omega arith))
        (λ t v. (v.0, refl, v.3))
