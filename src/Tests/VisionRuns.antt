-- ===== src/Tests/VisionRuns.antt =====
-- Runs of VisionServiceImpl.cpp, FaceEngine::onCameraFrame and the start-up.
use android_vendor_extra_fac.Common.{
  ℕ, ◌+◌, ◌-◌, ◌≡◌, refl, Bool, true, false, none, some, [], ◌∷◌, pos, negsuc,
}
use android_vendor_extra_fac.Engine.{Frame, FaceEngine}
use android_vendor_extra_fac.Engine.Frames.{on_camera_frame}
use android_vendor_extra_fac.Vision.{
  VisionWorld, VisionService, VisionLaws, Delivered, send_to, send_region,
  on_camera_frame-Delivered,
}
use android_vendor_extra_fac.Vision
use android_vendor_extra_fac.Service.{exit_failure, main, create_session_for}

-- A world that counts descriptors, with a client that is gone where `answers` is false.
abbrev toy_world : Bool → VisionWorld
toy_world answers = record {
  State = ℕ;
  Client = Unit {0};
  ashmem_create_region = λ n k. (some 3, k + 1);
  mmap = λ fd n k. (true, k);
  memcpy = λ fd bytes k. k;
  munmap = λ fd n k. k;
  close = λ fd k. k - 1;
  on_frame = λ cb fd frame k. (answers, k);
}

toy_vision_laws : (answers : Bool) → VisionLaws (toy_world answers)
toy_vision_laws answers = record {
  open_descriptors = λ k. k;
  create_fails = λ n k e. cc;
  create_opens = λ n fd k e. refl;
  mmap_keeps = λ fd n k. refl;
  memcpy_keeps = λ fd bytes k. refl;
  munmap_keeps = λ fd n k. refl;
  close_closes = λ fd k. refl;
  on_frame_keeps = λ cb fd frame k. refl;
}

abbrev dot : Frame
dot = record { nv21 = 1 ∷ 2 ∷ 3 ∷ []; width = 1; height = 2; angle = 90 }

abbrev preview : (answers : Bool) → VisionService (toy_world answers)
preview answers = record { callback = some tt; state = 0 }

client_gone :
    Vision.on_camera_frame dot (preview false) ≡ (negsuc 0, record { callback = none; state = 0 })
unfolding Vision.on_camera_frame send_to send_region
client_gone = refl

on_camera_frame-Delivered_example :
    Delivered
      (toy_vision_laws false)
      dot
      (preview false)
      (Vision.on_camera_frame dot (preview false))
on_camera_frame-Delivered_example =
    on_camera_frame-Delivered (toy_vision_laws false) dot (preview false)

-- The preview's answer is not looked at; without a session the result is -1.
only_preview :
    (e : FaceEngine (Unit {0}))
    → (on_camera_frame (record { vision = some (λ f w. (pos 0, w + 1)); session = none }) dot e 5).0
      ≡ negsuc 0
unfolding on_camera_frame
only_preview e = refl

no_preview_service :
    main (record {
      face_made = true;
      face_registered = true;
      vision_made = true;
      vision_registered = false;
    })
    ≡ exit_failure
unfolding main
no_preview_service = refl

unknown_sensor : create_session_for (pos 7) tt ≡ none
unfolding create_session_for
unknown_sensor = refl
