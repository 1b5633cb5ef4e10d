-- ===== src/Tests/CameraRuns.antt =====
-- Runs of Camera2NdkBackend.cpp on an NDK that only counts its objects.
use android_vendor_extra_fac.Common.{
  ℕ, ◌+◌, ◌-◌, ◌≡◌, ◌⊎◌, refl, Bool, true, false, ◌||◌, List, [], ◌∷◌, Option, none, some, pos,
  int_lt, arith,
}
use android_vendor_extra_fac.Camera.Ndk.{CameraNdk}
use android_vendor_extra_fac.Camera.Backend.{System, acquire, perform}
use android_vendor_extra_fac.Camera.Operations.{
  new_backend, start, start_stopped, create_manager, open_chosen, create_output, create_container,
  create_session, create_request, create_target, set_repeating,
}
use android_vendor_extra_fac.Camera.Starting.{open_loop}
use android_vendor_extra_fac.Camera.Balance.{NdkLaws, count}
use android_vendor_extra_fac.Camera.Outcomes.{Outcome}
use android_vendor_extra_fac.Camera.StartLaws.{Stopped, Running}
use android_vendor_extra_fac.Camera.Lifecycle.{starts, stops, run, start-Outcome, run-Accounted}
use android_vendor_extra_fac.Camera.Rounds.{open_loop_enough}
use android_vendor_extra_fac.Camera.Resolution.{
  Config, max_size, optimal_size, area, distance, is_usable, greatest, nearest, take_greatest,
  take_nearest, int_mul, abs_difference,
}
use android_vendor_extra_fac.Camera.Sizes.{Among, IsGreatest, IsNearest}
use android_vendor_extra_fac.Camera.SizeLaws.{SomeLarge, max_size-IsGreatest, optimal_size-IsBest}
use android_vendor_extra_fac.Common.{length, Bytes}
use android_vendor_extra_fac.Template.{memcpy}
use android_vendor_extra_fac.Camera.Nv21.{
  Plane, Image, packed, pack_a_image_to_nv21, pack_planes, copy_luma, copy_rows, copy_bytes,
  copy_chroma, interleave, copy_byte,
}
use android_vendor_extra_fac.Camera.Nv21Image.{HoldsLuma, HoldsChroma, pack_a_image_to_nv21_lem}

abbrev open_result : Bool → ℕ → Bool × Option ℕ × ℕ
open_result true k = (true, some 1, k + 1)
open_result false k = (false, none, k)

-- Each object is the number 1; a device is opened where `opens` says so.
abbrev toy_ndk : Bool → CameraNdk
toy_ndk opens = record {
  State = ℕ;
  Handle = ℕ;
  lens_facing_front = 0;
  yuv_420_888 = pos 35;
  sleep = λ n k. k;
  manager_create = λ k. (some 1, k + 1);
  manager_delete = λ h k. k - 1;
  get_camera_id_list = λ h k. (true, some ((49 ∷ []) ∷ []), k);
  get_camera_characteristics = λ h id k. none;
  reader_new = λ w h k. (true, some 1, k + 1);
  reader_set_image_listener = λ h b k. k;
  reader_get_window = λ h k. (true, some 1, k);
  reader_delete = λ h k. k - 1;
  open_camera = λ h id k. open_result opens k;
  device_close = λ h k. k - 1;
  output_create = λ h k. (true, some 1, k + 1);
  output_free = λ h k. k - 1;
  container_create = λ k. (true, some 1, k + 1);
  container_add = λ c h k. (true, k);
  container_free = λ h k. k - 1;
  create_capture_session = λ d c k. (true, some 1, k + 1);
  session_stop_repeating = λ h k. k;
  session_close = λ h k. k - 1;
  create_capture_request = λ d k. (true, some 1, k + 1);
  request_free = λ h k. k - 1;
  target_create = λ h k. (true, some 1, k + 1);
  target_free = λ h k. k - 1;
  add_target = λ r t k. (true, k);
  set_repeating_request = λ s r k. (true, k);
}

toy_ndk_laws : (opens : Bool) → NdkLaws (toy_ndk opens)
toy_ndk_laws opens = record {
  in_use = λ k. k;
  manager_create_law = λ k. refl;
  manager_delete_law = λ h k. refl;
  reader_new_law = λ w h k. refl;
  reader_delete_law = λ h k. refl;
  reader_set_image_listener_law = λ h b k. refl;
  reader_get_window_law = λ h k. refl;
  open_camera_law = λ h id k. opened_law opens k;
  open_camera_fails = λ h id k e. not_opened_law opens k e;
  device_close_law = λ h k. refl;
  output_create_law = λ h k. refl;
  output_free_law = λ h k. refl;
  container_create_law = λ k. refl;
  container_add_law = λ c h k. refl;
  container_free_law = λ h k. refl;
  create_capture_session_law = λ d c k. refl;
  session_stop_repeating_law = λ h k. refl;
  session_close_law = λ h k. refl;
  create_capture_request_law = λ d k. refl;
  request_free_law = λ h k. refl;
  target_create_law = λ h k. refl;
  target_free_law = λ h k. refl;
  add_target_law = λ r t k. refl;
  set_repeating_request_law = λ s r k. refl;
  sleep_law = λ n k. refl;
  get_camera_id_list_law = λ h k. refl;
}
  where
    opened_law :
        (opens : Bool) (k : ℕ) → (open_result opens k).2 ≡ k + count (open_result opens k).1
    opened_law true k = refl
    opened_law false k = omega arith

    not_opened_law :
        (opens : Bool) (k : ℕ) → (open_result opens k).0 ≡ false → (open_result opens k).1 ≡ none
    not_opened_law true k e = cc
    not_opened_law false k e = refl

-- A camera that was found at the start of the process.
abbrev new_system : (opens : Bool) → System (toy_ndk opens)
new_system opens = record {
  backend = new_backend;
  warm = record { valid = true; camera_id = 48 ∷ [] };
  camera = 0;
}

new_system-Stopped : (opens : Bool) → Stopped (toy_ndk_laws opens) 0 (new_system opens)
unfolding toy_ndk_laws
new_system-Stopped opens = ((refl, refl), refl)

starts_well : (start (some 0) (new_system true)).0 ≡ true
unfolding start start_stopped create_manager open_chosen create_output create_container
    create_session create_request create_target set_repeating acquire perform
starts_well = refl

start-Outcome_example :
    let (started, s) = start (some 0) (new_system false) in
    Outcome (toy_ndk_laws false) 0 (Running (toy_ndk_laws false) 0) started s
start-Outcome_example =
    start-Outcome (toy_ndk_laws false) 0 (some 0) (new_system false) (new_system-Stopped false)

run-Accounted_example :
    let s = run (starts (some 0) ∷ stops ∷ starts (some 1) ∷ []) (new_system true) in
    Stopped (toy_ndk_laws true) 0 s ⊎ Running (toy_ndk_laws true) 0 s
run-Accounted_example =
    run-Accounted (toy_ndk_laws true) 0 (starts (some 0) ∷ stops ∷ starts (some 1) ∷ [])
      (new_system true) (new_system-Stopped true)

open_loop_enough_example :
    open_loop 7 0 true (new_system false) ≡ open_loop 2 0 true (new_system false)
open_loop_enough_example = open_loop_enough 5 true (new_system false)

abbrev offer : ℕ → ℕ → Config
offer w h = record { format = pos 35; width = pos w; height = pos h; is_input = pos 0 }

abbrev offers : List Config
offers = offer 640 480 ∷ offer 1920 1080 ∷ offer 1280 960 ∷ []

max_size_found : max_size (pos 35) offers ≡ some (pos 1920, pos 1080)
unfolding max_size greatest take_greatest area int_mul
max_size_found = refl

max_size-IsGreatest_example :
    (c : Config) × Among c offers
    × (is_usable (pos 35) c ≡ true)
    × (c.width ≡ pos 1920)
    × (c.height ≡ pos 1080)
    × IsGreatest (pos 35) offers (area c)
max_size-IsGreatest_example =
    max_size-IsGreatest (pos 35) offers (pos 1920) (pos 1080) max_size_found

optimal_size_found : optimal_size (pos 35) offers ≡ some (pos 1280, pos 960)
unfolding optimal_size greatest take_greatest area int_mul nearest take_nearest distance
    abs_difference
optimal_size_found = refl

optimal_size-IsBest_example :
    (c : Config) × Among c offers
    × (is_usable (pos 35) c ≡ true)
    × (c.width ≡ pos 1280)
    × (c.height ≡ pos 960)
    × ((IsGreatest (pos 35) offers (area c)
          × ((int_lt (pos 1280) (pos 1280) || int_lt (pos 960) (pos 720)) ≡ true))
        ⊎ (IsNearest (pos 35) offers (distance c) × SomeLarge (pos 35) offers))
optimal_size-IsBest_example =
    optimal_size-IsBest (pos 35) offers (pos 1280) (pos 960) optimal_size_found

abbrev plane_of : Bytes → ℕ → ℕ → Plane
plane_of bytes row pixel = record { data' = some bytes; row_stride = row; pixel_stride = pixel }

-- Rows of three bytes for a width of two, chroma that is interleaved already.
abbrev tiny : Image
tiny = record {
  width = pos 2;
  height = pos 2;
  plane_count = 3;
  y = plane_of (1 ∷ 2 ∷ 0 ∷ 3 ∷ 4 ∷ []) 3 1;
  u = plane_of (8 ∷ []) 2 2;
  v = plane_of (9 ∷ []) 2 2;
}

tiny_packed : pack_a_image_to_nv21 tiny ≡ some (packed (1 ∷ 2 ∷ 3 ∷ 4 ∷ 9 ∷ 8 ∷ []) 2 2)
unfolding pack_a_image_to_nv21 pack_planes copy_luma copy_rows copy_bytes memcpy copy_chroma
    interleave copy_byte
tiny_packed = refl

pack_a_image_to_nv21_example :
    (out : Bytes) × (pack_a_image_to_nv21 tiny ≡ some (packed out 2 2))
    × (length out ≡ 6)
    × HoldsLuma 2 2 tiny.y (1 ∷ 2 ∷ 0 ∷ 3 ∷ 4 ∷ []) out
    × HoldsChroma 2 2 tiny (8 ∷ []) (9 ∷ []) out
pack_a_image_to_nv21_example =
    pack_a_image_to_nv21_lem tiny 2 2 (1 ∷ 2 ∷ 0 ∷ 3 ∷ 4 ∷ []) (8 ∷ []) (9 ∷ []) refl refl
      (omega arith) (omega arith) (omega arith) refl refl refl (omega arith) (λ n m. omega arith)
      (λ n m. omega arith)
