-- ===== src/Service.antt =====
-- The service around the parts: default/service.cpp, default/Face.cpp, default/CancellationSignal.cpp and
-- default/CameraClient.cpp.
use android_vendor_extra_fac.Common.{
  ℕ, Bool, false, not, Option, none, some, if◌then◌else◌, ◌==◌, ℤ, pos, int_eq,
}
use android_vendor_extra_fac.Camera.{CameraBackend}
use android_vendor_extra_fac.Engine.{EngineLibrary}
use android_vendor_extra_fac.Session.State.{System}
use android_vendor_extra_fac.Session.Calls.{cancel}

-- `FaceTemplateSerializer::CURRENT_VERSION` as `main` leaves it.
unfoldable pub current_version : ℕ → ℕ
current_version set_by_library = if set_by_library == 0 then 1 else set_by_library

-- What the start-up depends on: whether each object was made and each registration went well.
pub record StartUp : Type 0 where
  pub face_made : Bool
  pub face_registered : Bool
  pub vision_made : Bool
  pub vision_registered : Bool

pub data Exit : Type 0 where
  exit_failure : Exit
  serving : Exit

-- The camera is warmed up behind both registrations alone.
unfoldable pub main : StartUp → Exit
main s =
    if not s.face_made
    then exit_failure
    else if not s.face_registered
    then exit_failure
    else if not s.vision_made
    then exit_failure
    else if not s.vision_registered
    then exit_failure
    else serving

abbrev sensor_id : ℕ
sensor_id = 1008

-- `Face::createSession`; `none` is EX_ILLEGAL_ARGUMENT.
unfoldable pub create_session_for : {S : Type 0} → ℤ → S → Option S
create_session_for sensor session =
    if not (int_eq sensor (pos sensor_id)) then none else some session

module _ {lib : EngineLibrary} {cam : CameraBackend} where
  -- `CancellationSignal::cancel`, which keeps no session alive.
  unfoldable pub signal_cancel : Bool → System lib cam → System lib cam
  unfolding cancel
  signal_cancel session_alive s = if session_alive then cancel s else s

module _ (backend : CameraBackend) where
  -- The calls of `CameraClient`, which can have no backend.
  unfoldable pub client_start : Option backend.State → Bool × Option backend.State
  client_start none = (false, none)
  client_start (some b) = let (started, b1) = backend.start b in (started, some b1)

  unfoldable pub client_stop : Option backend.State → Option backend.State
  client_stop none = none
  client_stop (some b) = some (backend.stop b)

  unfoldable pub client_last_start_failure : Option backend.State → ℤ
  client_last_start_failure none = pos 0
  client_last_start_failure (some b) = backend.last_start_failure_vendor_code b
