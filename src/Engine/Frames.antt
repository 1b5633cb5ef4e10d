-- ===== src/Engine/Frames.antt =====
-- How the engine hands a frame on, `onCameraFrame` of default/include/FaceEngine.h: first to the preview,
-- then to the session.
use android_vendor_extra_fac.Common.{true, Option, none, some, ℤ, negsuc}
use android_vendor_extra_fac.Engine.{Frame, FaceEngine}

-- The two callbacks, over what they change; each gives a result.
pub record FrameCallbacks (W : Type 0) : Type 0 where
  pub vision : Option (Frame → W → ℤ × W)
  pub session : Option (Frame → W → ℤ × W)

unfoldable pub request_capture : {Impl : Type 0} → FaceEngine Impl → FaceEngine Impl
request_capture e = record e { capture_requested = true }

module _ {W : Type 0} where
  unfoldable pub set_vision_frame_callback :
      Option (Frame → W → ℤ × W) → FrameCallbacks W → FrameCallbacks W
  set_vision_frame_callback cb c = record c { vision = cb }

  abbrev pub after_vision : FrameCallbacks W → Frame → W → W
  after_vision c frame w = elim c.vision [ none ↦ w | some cb ↦ (cb frame w).1 ]

  abbrev pub session_result : FrameCallbacks W → Frame → W → ℤ × W
  session_result c frame w = elim c.session [ none ↦ (negsuc 0, w) | some cb ↦ cb frame w ]

  unfoldable pub on_camera_frame :
      {Impl : Type 0} → FrameCallbacks W → Frame → FaceEngine Impl → W → ℤ × FaceEngine Impl × W
  on_camera_frame c frame e w =
      let (result, w1) = session_result c frame (after_vision c frame w) in
      (result, record e { rotation = frame.angle }, w1)
