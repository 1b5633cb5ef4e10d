-- ===== src/Camera/Ndk.antt =====
-- The camera NDK as default/Camera2NdkBackend.cpp calls it. A pointer can be null; a status is whether
-- it is OK.
use android_vendor_extra_fac.Common.{ℕ, Bool, List, Option, Bytes, ℤ}

-- The entries read from ACameraMetadata; `none` is a status that is not OK.
pub record Metadata : Type 0 where
  pub lens_facing : Option (List ℕ)
  pub sensor_orientation : Option (List ℤ)
  pub stream_configurations : Option (List ℤ)

-- The calls change a state; freeing a list or metadata that was read is not part of it.
pub record CameraNdk : Type 1 where
  pub State : Type 0
  pub Handle : Type 0
  pub lens_facing_front : ℕ
  pub yuv_420_888 : ℤ
  pub sleep : ℕ → State → State
  pub manager_create : State → Option Handle × State
  pub manager_delete : Option Handle → State → State
  pub get_camera_id_list : Option Handle → State → Bool × Option (List Bytes) × State
  pub get_camera_characteristics : Option Handle → Bytes → State → Option Metadata
  pub reader_new : ℤ → ℤ → State → Bool × Option Handle × State
  pub reader_set_image_listener : Option Handle → Bool → State → State
  pub reader_get_window : Option Handle → State → Bool × Option Handle × State
  pub reader_delete : Option Handle → State → State
  pub open_camera : Option Handle → Bytes → State → Bool × Option Handle × State
  pub device_close : Option Handle → State → State
  pub output_create : Option Handle → State → Bool × Option Handle × State
  pub output_free : Option Handle → State → State
  pub container_create : State → Bool × Option Handle × State
  pub container_add : Option Handle → Option Handle → State → Bool × State
  pub container_free : Option Handle → State → State
  pub create_capture_session : Option Handle → Option Handle → State → Bool × Option Handle × State
  pub session_stop_repeating : Option Handle → State → State
  pub session_close : Option Handle → State → State
  pub create_capture_request : Option Handle → State → Bool × Option Handle × State
  pub request_free : Option Handle → State → State
  pub target_create : Option Handle → State → Bool × Option Handle × State
  pub target_free : Option Handle → State → State
  pub add_target : Option Handle → Option Handle → State → Bool × State
  pub set_repeating_request : Option Handle → Option Handle → State → Bool × State
