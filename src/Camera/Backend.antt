-- ===== src/Camera/Backend.antt =====
-- Start and stop of default/Camera2NdkBackend.cpp: the state of default/include/Camera2NdkBackend.h, the
-- chain of NDK calls of `start` with the code of each failure, and `teardown`.
use android_vendor_extra_fac.Common.{
  ℕ, Bool, true, false, not, ◌&&◌, ◌||◌, Option, none, some, Bytes, if◌then◌else◌, ℤ,
}
use android_vendor_extra_fac.Camera.Ndk.{CameraNdk}

-- The pointers; the window belongs to the reader.
pub record Handles (Handle : Type 0) : Type 0 where
  pub manager : Option Handle
  pub reader : Option Handle
  pub window : Option Handle
  pub device : Option Handle
  pub output : Option Handle
  pub container : Option Handle
  pub session : Option Handle
  pub request : Option Handle
  pub target : Option Handle

abbrev pub no_handles : {Handle : Type 0} → Handles Handle
no_handles = record {
  manager = none;
  reader = none;
  window = none;
  device = none;
  output = none;
  container = none;
  session = none;
  request = none;
  target = none;
}

-- The fields without the thread's id and the callback tables; a callback is a number.
pub record Backend (Handle : Type 0) : Type 0 where
  pub callback : Option ℕ
  pub is_running : Bool
  pub handles : Handles Handle
  pub camera_id : Bytes
  pub width : ℤ
  pub height : ℤ
  pub frame_angle : ℤ
  pub last_start_failure : ℕ
  pub session_closed : Bool

-- The camera found at the start of the process, which all backends share.
pub record Warm : Type 0 where
  pub valid : Bool
  pub camera_id : Bytes

pub record System (ndk : CameraNdk) : Type 0 where
  pub backend : Backend ndk.Handle
  pub warm : Warm
  pub camera : ndk.State

abbrev pub is_null : {A : Type 0} → Option A → Bool
is_null none = true
is_null (some a) = false

-- A call on a pointer that is not null.
abbrev pub unless_null :
    {Handle State : Type 0} → Option Handle → (Option Handle → State → State) → State → State
unless_null none call k = k
unless_null (some h) call k = call (some h) k

module _ (ndk : CameraNdk) where
  abbrev pub close_session : Option ndk.Handle → ndk.State → ndk.State
  close_session h k = ndk.session_close h (ndk.session_stop_repeating h k)

  abbrev pub delete_reader : Option ndk.Handle → ndk.State → ndk.State
  delete_reader h k = ndk.reader_delete h (ndk.reader_set_image_listener h false k)

  -- The wait of at most a second for the session's end is left out: the calls behind it are made
  -- whether it ended or not.
  unfoldable pub release : Handles ndk.Handle → ndk.State → ndk.State
  release h k =
      let k1 = unless_null h.session close_session k in
      let k2 = unless_null h.target ndk.target_free k1 in
      let k3 = unless_null h.request ndk.request_free k2 in
      let k4 = unless_null h.container ndk.container_free k3 in
      let k5 = unless_null h.output ndk.output_free k4 in
      let k6 = unless_null h.device ndk.device_close k5 in
      let k7 = unless_null h.reader delete_reader k6 in unless_null h.manager ndk.manager_delete k7

module _ {ndk : CameraNdk} where
  unfoldable pub teardown : System ndk → System ndk
  unfolding release
  teardown s = record s {
    backend = record s.backend { handles = no_handles };
    camera = release ndk s.backend.handles s.camera;
  }

  unfoldable pub note_failure : ℕ → System ndk → System ndk
  note_failure code s = record s { backend = record s.backend { last_start_failure = code } }

  unfoldable pub fail : ℕ → System ndk → Bool × System ndk
  unfolding note_failure teardown
  fail code s = (false, teardown (note_failure code s))

  -- A part of `start` and what comes after it.
  infixl 30 ◌then◌
  abbrev pub ◌then◌ : Bool × System ndk → (System ndk → Bool × System ndk) → Bool × System ndk
  r then rest = if r.0 then rest r.1 else r

  -- A call that gives a pointer, which `put` stores before the status is looked at.
  unfoldable pub acquire :
      (Option ndk.Handle → Handles ndk.Handle → Handles ndk.Handle)
      → (Handles ndk.Handle → ndk.State → Bool × Option ndk.Handle × ndk.State)
      → Bool
      → ℕ
      → System ndk
      → Bool × System ndk
  unfolding fail
  acquire put call may_be_null code s =
      let (ok, h, k) = call s.backend.handles s.camera in
      let s1 = record s {
        backend = record s.backend { handles = put h s.backend.handles };
        camera = k;
      } in
      if ok && (may_be_null || not (is_null h)) then (true, s1) else fail code s1

  -- A call that only has a status.
  unfoldable pub perform :
      (Handles ndk.Handle → ndk.State → Bool × ndk.State) → ℕ → System ndk → Bool × System ndk
  unfolding fail
  perform call code s =
      let (ok, k) = call s.backend.handles s.camera in
      let s1 = record s { camera = k } in if ok then (true, s1) else fail code s1
