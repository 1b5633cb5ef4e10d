-- ===== src/Camera/Operations.antt =====
-- The operations of default/Camera2NdkBackend.cpp: `start` as a whole, `stop`, `warmUpAtHalStart` and
-- `getOptimalResolution`.
use android_vendor_extra_fac.Common.{
  ℕ, Bool, true, false, not, ◌&&◌, [], Option, none, some, is_empty, if◌then◌else◌, ℤ, pos,
}
use android_vendor_extra_fac.VendorCode.{
  camera_manager_failed, camera_session_failed, camera_request_failed, camera_streaming_failed,
}
use android_vendor_extra_fac.Camera.Ndk.{CameraNdk}
use android_vendor_extra_fac.Camera.Select.{wait_for_non_empty_camera_list, select_front_camera_id}
use android_vendor_extra_fac.Camera.Resolution.{get_optimal_supported_resolution}
use android_vendor_extra_fac.Camera.Backend.{
  Backend, Warm, System, no_handles, is_null, teardown, ◌then◌, acquire, perform,
}
use android_vendor_extra_fac.Camera.Starting.{has_warm, choose_camera, configure, open_loop}

module _ {ndk : CameraNdk} where
  unfoldable pub create_manager : System ndk → Bool × System ndk
  unfolding acquire
  create_manager s =
      acquire (λ h r. record r { manager = h })
        (λ r k. let (h, k1) = ndk.manager_create k in (true, h, k1)) false camera_manager_failed s

  -- From the choice of the camera to the open device.
  unfoldable pub open_chosen : System ndk → Bool × System ndk
  unfolding choose_camera configure open_loop
  open_chosen s = choose_camera s then (λ t. open_loop 2 0 (has_warm s.warm) (configure t))

  unfoldable pub create_output : System ndk → Bool × System ndk
  unfolding acquire
  create_output s =
      acquire (λ h r. record r { output = h }) (λ r k. ndk.output_create r.window k) true
        camera_session_failed s

  unfoldable pub create_container : System ndk → Bool × System ndk
  unfolding acquire perform
  create_container s =
      acquire (λ h r. record r { container = h }) (λ r k. ndk.container_create k) true
        camera_session_failed s
      then perform (λ r k. ndk.container_add r.container r.output k) camera_session_failed

  unfoldable pub create_session : System ndk → Bool × System ndk
  unfolding acquire
  create_session s =
      acquire (λ h r. record r { session = h })
        (λ r k. ndk.create_capture_session r.device r.container k) false camera_session_failed
        (record s { backend = record s.backend { session_closed = false } })

  unfoldable pub create_request : System ndk → Bool × System ndk
  unfolding acquire
  create_request s =
      acquire (λ h r. record r { request = h }) (λ r k. ndk.create_capture_request r.device k) false
        camera_request_failed s

  unfoldable pub create_target : System ndk → Bool × System ndk
  unfolding acquire perform
  create_target s =
      acquire (λ h r. record r { target = h }) (λ r k. ndk.target_create r.window k) true
        camera_request_failed s
      then perform (λ r k. ndk.add_target r.request r.target k) camera_request_failed

  unfoldable pub set_repeating : System ndk → Bool × System ndk
  unfolding perform
  set_repeating s =
      perform (λ r k. ndk.set_repeating_request r.session r.request k) camera_streaming_failed s
      then (λ t. (true, record t { backend = record t.backend { is_running = true } }))

  unfoldable pub start_stopped : System ndk → Bool × System ndk
  unfolding create_manager open_chosen create_output create_container create_session create_request
      create_target set_repeating
  start_stopped s =
      create_manager s
      then open_chosen
      then create_output
      then create_container
      then create_session
      then create_request
      then create_target
      then set_repeating

  -- Behind the wait for a `stop` under way.
  unfoldable pub start : Option ℕ → System ndk → Bool × System ndk
  unfolding start_stopped
  start cb s =
      let s1 = record s { backend = record s.backend { callback = cb; last_start_failure = 0 } } in
      if s.backend.is_running then (true, s) else start_stopped s1

  -- `stop` on a thread that is not the callback's, with no other `stop` under way and no callback to
  -- wait for: the early return and the teardown. Its waits for another `stop` and for the callback, and
  -- the teardown that it defers to a thread of its own, are in Camera/Threads.antt.
  unfoldable pub stop : System ndk → System ndk
  unfolding teardown
  stop s =
      let s1 = record s { backend = record s.backend { is_running = false } } in
      if not s.backend.is_running && is_null s.backend.handles.manager then s else teardown s1

module _ (ndk : CameraNdk) where
  unfoldable pub warm_up_at_hal_start : Warm → ndk.State → Warm × ndk.State
  warm_up_at_hal_start warm k =
      let (mgr, k1) = ndk.manager_create k in
      let (listed, k2) = wait_for_non_empty_camera_list ndk 200 mgr k1 in
      let (id, k3) = select_front_camera_id ndk mgr k2 in
      if is_null mgr
      then (warm, k1)
      else if not listed
      then (warm, ndk.manager_delete mgr k2)
      else elim id [
        | none ↦ (warm, ndk.manager_delete mgr k3)
        | some id ↦
            if is_empty id
            then (warm, ndk.manager_delete mgr k3)
            else (record { valid = true; camera_id = id }, ndk.manager_delete mgr k3)
      ]

  unfoldable pub get_optimal_resolution : ndk.State → Option (ℤ × ℤ) × ndk.State
  get_optimal_resolution k =
      let (mgr, k1) = ndk.manager_create k in
      let (id, k2) = select_front_camera_id ndk mgr k1 in
      if is_null mgr then (none, k1) else elim id [
        | none ↦ (none, ndk.manager_delete mgr k2)
        | some id ↦
            if is_empty id
            then (none, ndk.manager_delete mgr k2)
            else (get_optimal_supported_resolution ndk mgr id k2, ndk.manager_delete mgr k2)
      ]

abbrev pub new_backend : {Handle : Type 0} → Backend Handle
new_backend = record {
  callback = none;
  is_running = false;
  handles = no_handles;
  camera_id = [];
  width = pos 640;
  height = pos 480;
  frame_angle = pos 0;
  last_start_failure = 0;
  session_closed = false;
}
