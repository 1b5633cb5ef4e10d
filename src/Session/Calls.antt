-- ===== src/Session/Calls.antt =====
-- The binder calls of Session.cpp, one function each.
use android_vendor_extra_fac.Common.{
  ℕ, Bool, true, false, ◌||◌, List, [], ◌∷◌, ◌++◌, if◌then◌else◌, Option, none, some, ℤ, pos,
  int_eq,
}
use android_vendor_extra_fac.VendorCode.{camera_no_device}
use android_vendor_extra_fac.Engine.{
  FaceEngine, EngineLibrary, set_session_frame_callback, start_operation, set_require_attention,
  set_require_diverse_poses,
}
use android_vendor_extra_fac.Camera.{CameraBackend}
use android_vendor_extra_fac.Session.State.{
  Session, System, OperationReason, DisplayState, Feature, Error, OperationContext, Callback,
  post_callback, on_error, on_challenge_generated, on_challenge_revoked, on_enrollments_enumerated,
  on_enrollments_removed, on_features_retrieved, on_feature_set, on_authenticator_id_retrieved,
  on_lockout_cleared, on_session_closed,
}

-- `CryptoClient::generateChallenge`: the random number, or 0 where the generator fails.
unfoldable pub generate_challenge_value : Option ℕ → ℕ
generate_challenge_value none = 0
generate_challenge_value (some challenge) = challenge

-- The flags that `cancel` clears.
unfoldable pub clear_operations : Session → Session
clear_operations s = record s {
  is_authenticating = false;
  is_enrolling = false;
  is_detecting_interaction = false;
  current_operation_reason = OperationReason.unknown;
}

unfoldable pub is_active : Session → Bool
is_active s = s.is_authenticating || s.is_enrolling || s.is_detecting_interaction

unfoldable pub infer_reason : OperationReason → DisplayState → OperationReason
infer_reason OperationReason.unknown DisplayState.lockscreen = OperationReason.keyguard
infer_reason OperationReason.unknown _ = OperationReason.biometric_prompt
infer_reason reason _ = reason

unfoldable pub delete_all :
    (lib : EngineLibrary) → ℤ → List ℤ → FaceEngine lib.Impl → FaceEngine lib.Impl
delete_all lib user [] e = e
delete_all lib user (id ∷ ids) e = delete_all lib user ids (lib.delete_enrollment user id e).1

-- The features that are on, in the order of the two tests.
unfoldable pub enabled_features : {Impl : Type 0} → FaceEngine Impl → List Feature
enabled_features e =
    (if e.require_attention then Feature.require_attention ∷ [] else [])
    ++ (if e.require_diverse_poses then Feature.require_diverse_poses ∷ [] else [])

unfoldable pub switch_feature : {Impl : Type 0} → Feature → Bool → FaceEngine Impl → FaceEngine Impl
unfolding set_require_attention set_require_diverse_poses
switch_feature Feature.require_attention enabled e = set_require_attention enabled e
switch_feature Feature.require_diverse_poses enabled e = set_require_diverse_poses enabled e
switch_feature (Feature.other n) enabled e = e

module _ {lib : EngineLibrary} {cam : CameraBackend} where
  abbrev pub post : Callback → System lib cam → System lib cam
  post task s = record s { session = post_callback task s.session }

  -- A callback behind the test `mCb != nullptr`.
  abbrev pub post_checked : Callback → System lib cam → System lib cam
  post_checked task s = if s.session.has_callback then post task s else s

  unfoldable pub cancel : System lib cam → System lib cam
  unfolding clear_operations is_active post_callback
  cancel s =
      let s1 = if is_active s.session then post (on_error Error.canceled (pos 0)) s else s in
      record s1 {
        session = clear_operations s1.session;
        engine = lib.cancel_all s1.engine;
        camera = cam.stop s1.camera;
      }

  -- `mCameraClient->start`, and what the three operations do where it fails: `stopped` resets the
  -- flag of the operation.
  unfoldable pub start_camera : (Session → Session) → System lib cam → System lib cam
  unfolding post_callback
  start_camera stopped s =
      let (started, camera) = cam.start s.camera in
      let code = cam.last_start_failure_vendor_code camera in
      let v = if int_eq code (pos 0) then pos camera_no_device else code in
      let s1 = record s { camera = camera } in
      if started
      then s1
      else post (on_error Error.vendor v) (record s1 { session = stopped s1.session })

  unfoldable pub enroll : System lib cam → System lib cam
  unfolding start_camera start_operation
  enroll s =
      start_camera (λ t. record t { is_enrolling = false })
        (record s {
          engine = start_operation s.engine;
          session = record s.session { is_enrolling = true };
        })

  -- `now` is the steady clock's reading in milliseconds.
  unfoldable pub authenticate : ℕ → ℕ → System lib cam → System lib cam
  unfolding start_camera start_operation infer_reason
  authenticate operation_id now s =
      start_camera (λ t. record t { is_authenticating = false })
        (record s {
          engine = start_operation s.engine;
          session = record s.session {
            current_challenge = operation_id;
            is_authenticating = true;
            auth_start_time = now;
            current_operation_reason =
                infer_reason s.session.current_operation_reason s.session.current_display_state;
          };
        })

  unfoldable pub authenticate_with_context :
      ℕ → OperationContext → ℕ → System lib cam → System lib cam
  unfolding authenticate
  authenticate_with_context operation_id context now s =
      authenticate operation_id now
        (record s { session = record s.session { current_operation_reason = context.reason } })

  unfoldable pub detect_interaction : System lib cam → System lib cam
  unfolding start_camera start_operation
  detect_interaction s =
      start_camera (λ t. record t { is_detecting_interaction = false })
        (record s {
          engine = start_operation s.engine;
          session = record s.session { is_detecting_interaction = true };
        })

  unfoldable pub generate_challenge : Option ℕ → System lib cam → System lib cam
  unfolding generate_challenge_value post_callback
  generate_challenge random s =
      let challenge = generate_challenge_value random in
      post_checked (on_challenge_generated challenge)
        (record s { session = record s.session { current_challenge = challenge } })

  unfoldable pub revoke_challenge : ℕ → System lib cam → System lib cam
  unfolding post_callback
  revoke_challenge challenge s = post_checked (on_challenge_revoked challenge) s

  unfoldable pub enumerate_enrollments : System lib cam → System lib cam
  unfolding post_callback
  enumerate_enrollments s =
      post (on_enrollments_enumerated (lib.get_enrolled_face_ids s.session.user_id s.engine)) s

  unfoldable pub remove_enrollments : List ℤ → System lib cam → System lib cam
  unfolding post_callback
  remove_enrollments ids s =
      post (on_enrollments_removed ids)
        (record s { engine = delete_all lib s.session.user_id ids s.engine })

  unfoldable pub get_features : System lib cam → System lib cam
  unfolding post_callback enabled_features
  get_features s = post (on_features_retrieved (enabled_features s.engine)) s

  unfoldable pub set_feature : Feature → Bool → System lib cam → System lib cam
  unfolding post_callback switch_feature
  set_feature feature enabled s =
      post_checked (on_feature_set feature)
        (record s { engine = switch_feature feature enabled s.engine })

  unfoldable pub get_authenticator_id : System lib cam → System lib cam
  unfolding post_callback
  get_authenticator_id s = post (on_authenticator_id_retrieved 0) s

  unfoldable pub reset_lockout : System lib cam → System lib cam
  unfolding post_callback
  reset_lockout s = post on_lockout_cleared s

  unfoldable pub close : System lib cam → System lib cam
  unfolding cancel post_callback
  close s = post on_session_closed (cancel s)

  -- The constructor; a failure of `init` is only logged.
  unfoldable pub create : ℤ → Bool → FaceEngine lib.Impl → cam.State → System lib cam
  unfolding set_session_frame_callback
  create user given e camera = record {
    session = record {
      user_id = user;
      has_callback = given;
      is_authenticating = false;
      is_enrolling = false;
      is_detecting_interaction = false;
      processing_frame = false;
      current_challenge = 0;
      current_operation_reason = OperationReason.unknown;
      current_display_state = DisplayState.unknown;
      auth_start_time = 0;
      callbacks = record { queue = []; running = true; delivered = [] };
    };
    engine = set_session_frame_callback true (lib.restore_enrollments user (lib.init e).1).1;
    camera = camera;
    workers = [];
  }

  -- The destructor.
  unfoldable pub destroy : System lib cam → System lib cam
  unfolding set_session_frame_callback cancel
  destroy s =
      let s1 = cancel (record s { engine = set_session_frame_callback false s.engine }) in
      record s1 {
        session = record s1.session { callbacks = record s1.session.callbacks { running = false } };
      }
