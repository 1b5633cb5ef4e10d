-- ===== src/Session/State.antt =====
-- The fields of `Session`, its callbacks and the queue that carries them to the framework.
use android_vendor_extra_fac.Common.{ℕ, Bool, true, false, List, [], ◌∷◌, ◌++◌, if◌then◌else◌, ℤ}
use android_vendor_extra_fac.VendorCode.{AcquiredInfo}
use android_vendor_extra_fac.Engine.{Frame, FaceEngine, EngineLibrary}
use android_vendor_extra_fac.Camera.{CameraBackend}

-- The constants that the code names; `other` stands for the rest of the enumeration.
pub data OperationReason : Type 0 where
  unknown biometric_prompt keyguard : OperationReason
  other : ℕ → OperationReason

pub data DisplayState : Type 0 where
  unknown lockscreen no_ui aod : DisplayState
  other : ℕ → DisplayState

pub data Feature : Type 0 where
  require_attention require_diverse_poses : Feature
  other : ℕ → Feature

pub data Error : Type 0 where
  canceled vendor : Error

pub record OperationContext : Type 0 where
  pub reason : OperationReason
  pub display_state : DisplayState

-- `HardwareAuthToken`, the fields that are set. A challenge is its 64-bit pattern.
pub record HardwareAuthToken : Type 0 where
  pub challenge : ℕ
  pub user_id : ℤ
  pub authenticator_id : ℕ
  pub timestamp : ℕ

-- A call of `ISessionCallback`.
pub data Callback : Type 0 where
  on_error : Error → ℤ → Callback
  on_challenge_generated on_challenge_revoked : ℕ → Callback
  on_enrollment_progress : ℤ → ℤ → Callback
  on_enrollment_frame on_authentication_frame : AcquiredInfo → ℤ → Callback
  on_authentication_succeeded : ℤ → HardwareAuthToken → Callback
  on_authentication_failed on_interaction_detected : Callback
  on_enrollments_enumerated on_enrollments_removed : List ℤ → Callback
  on_features_retrieved : List Feature → Callback
  on_feature_set : Feature → Callback
  on_authenticator_id_retrieved : ℕ → Callback
  on_lockout_cleared on_session_closed : Callback

-- `SessionCallbackQueue`, with the callbacks that its thread has made so far, oldest first.
pub record CallbackQueue : Type 0 where
  pub queue : List Callback
  pub running : Bool
  pub delivered : List Callback

-- The thread that `onCameraFrame` detaches: before and after its call of the engine.
pub data Worker : Type 0 where
  spawned : Frame → Worker
  authenticated : ℤ → ℤ → Worker
  analysed : ℤ → Worker
  enrolled : ℤ → ℤ → ℤ → Worker

pub record Session : Type 0 where
  pub user_id : ℤ
  pub has_callback : Bool
  pub is_authenticating : Bool
  pub is_enrolling : Bool
  pub is_detecting_interaction : Bool
  pub processing_frame : Bool
  pub current_challenge : ℕ
  pub current_operation_reason : OperationReason
  pub current_display_state : DisplayState
  pub auth_start_time : ℕ
  pub callbacks : CallbackQueue

-- A session with the engine and the camera that it drives, and the threads that it has detached.
pub record System (lib : EngineLibrary) (cam : CameraBackend) : Type 0 where
  pub session : Session
  pub engine : FaceEngine lib.Impl
  pub camera : cam.State
  pub workers : List Worker

-- `postCallback`, on the queue and on the session.
unfoldable pub push : Callback → CallbackQueue → CallbackQueue
push task q = if q.running then record q { queue = q.queue ++ task ∷ [] } else q

unfoldable pub post_callback : Callback → Session → Session
post_callback task s = record s { callbacks = push task s.callbacks }

-- One round of the callback thread: the front of the queue is taken off and called.
unfoldable pub deliver : CallbackQueue → CallbackQueue
deliver q = elim q.queue [
  | [] ↦ q
  | task ∷ rest ↦ record q { queue = rest; delivered = q.delivered ++ task ∷ [] }
]

-- The thread leaves its loop.
unfoldable pub is_finished : CallbackQueue → Bool
is_finished q = if q.running then false else elim q.queue [ [] ↦ true | task ∷ rest ↦ false ]
