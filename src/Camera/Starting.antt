-- ===== src/Camera/Starting.antt =====
-- The first half of `Camera2NdkBackend::start`: the camera is chosen, and opened with a reader.
use android_vendor_extra_fac.Common.{
  ℕ, zero, suc, Bool, true, false, not, ◌&&◌, [], Option, none, some, Bytes, is_empty,
  if◌then◌else◌, ◌==◌, ℤ, pos,
}
use android_vendor_extra_fac.VendorCode.{
  camera_no_device, camera_id_select_failed, camera_open_failed, camera_image_reader_failed,
  camera_window_failed,
}
use android_vendor_extra_fac.Camera.Ndk.{CameraNdk}
use android_vendor_extra_fac.Camera.Select.{
  wait_for_non_empty_camera_list, select_front_camera_id, get_preview_rotation_degrees,
}
use android_vendor_extra_fac.Camera.Resolution.{get_max_supported_resolution}
use android_vendor_extra_fac.Camera.Backend.{
  Warm, System, is_null, delete_reader, fail, ◌then◌, acquire,
}

abbrev pub has_warm : Warm → Bool
has_warm warm = warm.valid && not (is_empty warm.camera_id)

abbrev pub clear_warm : Warm
clear_warm = record { valid = false; camera_id = [] }

-- One round of the loop that opens the camera.
pub data Attempt : Type 0 where
  opened : Attempt
  failed : Attempt
  not_opened : Attempt

abbrev pub nonempty : Option Bytes → Bool
nonempty none = false
nonempty (some id) = not (is_empty id)

-- `selectFrontCamera` writes the id only where it succeeds.
abbrev pub selected : Option Bytes → Bytes → Bytes
selected none id = id
selected (some new) id = new

abbrev size_or_fallback : Option (ℤ × ℤ) → ℤ × ℤ
size_or_fallback none = (pos 640, pos 480)
size_or_fallback (some size) = size

module _ {ndk : CameraNdk} where
  -- The list of cameras and the choice out of it.
  unfoldable pub probe : ℕ → System ndk → Bool × System ndk
  unfolding fail
  probe rounds s =
      let mgr = s.backend.handles.manager in
      let (listed, k1) = wait_for_non_empty_camera_list ndk rounds mgr s.camera in
      let (id, k2) = select_front_camera_id ndk mgr k1 in
      let s1 = record s {
        backend = record s.backend { camera_id = selected id s.backend.camera_id };
        camera = k2;
      } in
      if not listed
      then fail camera_no_device (record s { camera = k1 })
      else if nonempty id
      then (true, s1)
      else fail camera_id_select_failed s1

  unfoldable pub choose_camera : System ndk → Bool × System ndk
  unfolding probe
  choose_camera s =
      if has_warm s.warm
      then (true, record s { backend = record s.backend { camera_id = s.warm.camera_id } })
      else probe 100 s

  unfoldable pub turn : System ndk → System ndk
  turn s = record s {
    backend = record s.backend {
      frame_angle =
          get_preview_rotation_degrees ndk s.backend.handles.manager s.backend.camera_id s.camera;
    };
  }

  unfoldable pub configure : System ndk → System ndk
  unfolding turn
  configure s =
      let size =
        get_max_supported_resolution ndk s.backend.handles.manager s.backend.camera_id s.camera in
      let (width, height) = size_or_fallback size in
      let s1 = turn s in
      record s1 { backend = record s1.backend { width = width; height = height } }

  -- The reader is deleted with its window where the round fails.
  unfoldable pub drop_reader : System ndk → System ndk
  drop_reader s = record s {
    backend = record s.backend {
      handles = record s.backend.handles { reader = none; window = none };
    };
    camera = delete_reader ndk s.backend.handles.reader s.camera;
  }

  unfoldable pub listen : System ndk → System ndk
  listen s = record s {
    camera = ndk.reader_set_image_listener s.backend.handles.reader true s.camera;
  }

  unfoldable pub new_reader : System ndk → Bool × System ndk
  unfolding acquire
  new_reader s =
      acquire (λ h r. record r { reader = h })
        (λ r k. ndk.reader_new s.backend.width s.backend.height k) false camera_image_reader_failed
        s

  unfoldable pub get_window : System ndk → Bool × System ndk
  unfolding drop_reader fail
  get_window s =
      let (ok, h, k) = ndk.reader_get_window s.backend.handles.reader s.camera in
      let s1 = record s {
        backend = record s.backend { handles = record s.backend.handles { window = h } };
        camera = k;
      } in
      if ok && not (is_null h) then (true, s1) else fail camera_window_failed (drop_reader s1)

  unfoldable pub open_device : System ndk → Bool × System ndk
  open_device s =
      let (ok, h, k) = ndk.open_camera s.backend.handles.manager s.backend.camera_id s.camera in
      let s1 = record s {
        backend = record s.backend { handles = record s.backend.handles { device = h } };
        camera = k;
      } in
      (ok && not (is_null h), s1)

  unfoldable pub attempt_open : System ndk → Attempt × System ndk
  unfolding new_reader listen get_window open_device drop_reader
  attempt_open s =
      let (ready, s1) = new_reader s in
      let (windowed, s2) = get_window (listen s1) in
      let (is_open, s3) = open_device s2 in
      if not ready
      then (failed, s1)
      else if not windowed
      then (failed, s2)
      else if is_open
      then (opened, s3)
      else (not_opened, drop_reader s3)

  -- Where the first round with the warm camera fails: the cache is cleared and the camera sought.
  unfoldable pub reprobe : System ndk → Bool × System ndk
  unfolding probe turn
  reprobe s = probe 80 (record s { warm = clear_warm }) then (λ t. (true, turn t))

  -- `openAttempt` counts the rounds, of which there is one for each unit of fuel.
  unfoldable pub open_loop : ℕ → ℕ → Bool → System ndk → Bool × System ndk
  unfolding attempt_open reprobe fail
  open_loop zero open_attempt used_warm_id s = (false, s)
  open_loop (suc fuel) open_attempt used_warm_id s =
      let (attempt, s1) = attempt_open s in
      let (again, s2) = reprobe s1 in
      let rest = open_loop fuel (suc open_attempt) false s2 in
      elim attempt [
        | opened ↦ (true, s1)
        | failed ↦ (false, s1)
        | not_opened ↦
            if not (open_attempt == 0 && used_warm_id)
            then fail camera_open_failed s1
            else if again
            then rest
            else (false, s2)
      ]
