-- ===== src/Camera.antt =====
-- default/include/ICameraBackend.h: the camera as a session sees it, through
-- default/CameraClient.cpp, which passes each call on to its backend.
pub mod Threads
pub mod ThreadLaws
pub mod Ndk
pub mod Nv21
pub mod Nv21Bounds
pub mod Nv21Whole
pub mod Nv21Pixels
pub mod Nv21Packed
pub mod Nv21Image
pub mod Select
pub mod Resolution
pub mod Sizes
pub mod SizeLaws
pub mod Backend
pub mod Starting
pub mod Operations
pub mod Balance
pub mod Outcomes
pub mod Opening
pub mod OneRound
pub mod Rounds
pub mod StartLaws
pub mod Lifecycle
use android_vendor_extra_fac.Common.{Bool, ℤ}

-- The backend's operations on its state; frames come as steps of their own.
pub record CameraBackend : Type 1 where
  pub State : Type 0
  pub start : State → Bool × State
  pub stop : State → State
  pub last_start_failure_vendor_code : State → ℤ
