-- ===== src/Tests/SessionRuns.antt =====
-- Runs of Session.cpp with the stub engine.
use android_vendor_extra_fac.Common.{
  ◌≡◌, ◌↔◌, refl, Bool, true, false, List, [], ◌∷◌, pos, negsuc, int_eq, arith,
}
use android_vendor_extra_fac.Engine.{Frame, start_operation}
use android_vendor_extra_fac.Engine.Stub
use android_vendor_extra_fac.Engine.Stub.{stub, init, restore_enrollments, insert_all, insert}
use android_vendor_extra_fac.Engine.StubLaws.{stub_laws}
use android_vendor_extra_fac.Session.State.{
  System, OperationReason, DisplayState, OperationContext, CallbackQueue, push, Error, on_error,
  on_lockout_cleared, on_session_closed, on_authentication_succeeded, is_finished, authenticated,
}
use android_vendor_extra_fac.Session.Calls.{create, cancel, is_active}
use android_vendor_extra_fac.Session.Context.{on_context_changed, take_reason, prompt_gone}
use android_vendor_extra_fac.Session.Frames.{on_camera_frame, report, token}
use android_vendor_extra_fac.Session.Steps.{
  Event, enrolls, cancels, authenticates, frame, works, delivers, step, run,
}
use android_vendor_extra_fac.Session.Queue.{
  posts, round, stop, queue_run, fresh, history, rounds, history-queue_run, queue_run-rounds,
}
use android_vendor_extra_fac.Session.Workers.{Exclusive, run-Exclusive}
use android_vendor_extra_fac.Session.Cancelling.{cancel_lasts, report_success-cancel}
use android_vendor_extra_fac.Session.Starting.{
  running_flag, failure_code, TakesFrames, step_fails, step_succeeds,
}
use android_vendor_extra_fac.Session.Reports.{answer_authentication, run-authenticates}
use android_vendor_extra_fac.Session.ContextLaws.{
  Allowed, on_context_changed-Allowed, on_context_changed_reason,
}
use android_vendor_extra_fac.Tests.Toys.{toy_callbacks, toy_engine, toy_camera, toy_frame}

abbrev same_frame : Bool → Frame → Frame
same_frame c f = f

-- The session of user 10 with a camera that starts, or one that does not.
abbrev toy_session : Bool → System (stub toy_callbacks) toy_camera
toy_session c = record {
  session = record {
    user_id = pos 10;
    has_callback = true;
    is_authenticating = false;
    is_enrolling = false;
    is_detecting_interaction = false;
    processing_frame = false;
    current_challenge = 0;
    current_operation_reason = OperationReason.unknown;
    current_display_state = DisplayState.unknown;
    auth_start_time = 0;
    callbacks = fresh;
  };
  engine = toy_engine;
  camera = c;
  workers = [];
}

abbrev running_session : OperationReason → System (stub toy_callbacks) toy_camera
running_session reason = record (toy_session true) {
  session = record (toy_session true).session {
    is_authenticating = true;
    current_operation_reason = reason;
  };
}

abbrev some_events : List Event
some_events =
    authenticates 7 0 ∷ frame toy_frame ∷ works 0 ∷ frame toy_frame ∷ cancels ∷ works 0 ∷ []

run-Exclusive_example : Exclusive (
    run same_frame some_events
      (create {lib = stub toy_callbacks} {cam = toy_camera} (pos 10) true toy_engine true))
run-Exclusive_example =
    run-Exclusive (stub toy_callbacks) toy_camera same_frame some_events (pos 10) true toy_engine
      true

history-queue_run_example :
    history (
      queue_run
        (posts on_lockout_cleared ∷ round ∷ posts on_session_closed ∷ stop ∷ round ∷ [])
        fresh)
    ≡ on_lockout_cleared ∷ on_session_closed ∷ []
history-queue_run_example =
    history-queue_run
      (posts on_lockout_cleared ∷ round ∷ posts on_session_closed ∷ stop ∷ round ∷ [])

abbrev two_waiting : CallbackQueue
two_waiting = record fresh { queue = on_lockout_cleared ∷ on_session_closed ∷ []; running = false }

queue_run-rounds_example :
    (queue_run (rounds 3) two_waiting
      ≡ record two_waiting { queue = []; delivered = history two_waiting })
    × ((is_finished (queue_run (rounds 3) two_waiting) ≡ true) ↔ (two_waiting.running ≡ false))
queue_run-rounds_example = queue_run-rounds two_waiting 3 (omega arith)

cancel_lasts_example :
    let t =
      run same_frame
        (frame toy_frame ∷ works 0 ∷ delivers ∷ [])
        (cancel (running_session OperationReason.keyguard)) in
    (is_active t.session ≡ false) × (on_camera_frame same_frame toy_frame t ≡ (negsuc 0, t))
cancel_lasts_example =
    cancel_lasts (stub_laws toy_callbacks) same_frame (frame toy_frame ∷ works 0 ∷ delivers ∷ [])
      toy_frame (running_session OperationReason.keyguard) (refl, (refl, (refl, tt)))

active : is_active (running_session OperationReason.keyguard).session ≡ true
unfolding is_active
active = refl

report_success-cancel_example :
    let t =
      report (authenticated (pos 0) (pos 4)) (cancel (running_session OperationReason.keyguard)) in
    t.session.callbacks
    ≡ push
        (on_authentication_succeeded
          (pos 4)
          (token (running_session OperationReason.keyguard).session))
        (push (on_error Error.canceled (pos 0)) fresh)
report_success-cancel_example =
    report_success-cancel (pos 4) (running_session OperationReason.keyguard) active

step_fails_example :
    (running_flag enrolls (step same_frame enrolls (toy_session false)).session ≡ false)
    × ((step same_frame enrolls (toy_session false)).session.callbacks
        ≡ push (on_error Error.vendor (failure_code (toy_session false))) fresh)
    × (int_eq (failure_code (toy_session false)) (pos 0) ≡ false)
step_fails_example = step_fails same_frame enrolls (toy_session false) refl refl

-- The engine was cancelled before.
abbrev cancelled_session : System (stub toy_callbacks) toy_camera
cancelled_session = record (toy_session true) { engine = record toy_engine { cancelled = true } }

step_succeeds_example :
    let t = step same_frame (authenticates 7 0) cancelled_session in
    (running_flag (authenticates 7 0) t.session ≡ true)
    × (t.session.callbacks ≡ fresh)
    × (t.camera ≡ true)
    × TakesFrames same_frame t
step_succeeds_example =
    step_succeeds same_frame (authenticates 7 0) cancelled_session refl refl refl

matched :
    (stub toy_callbacks).authenticate toy_frame (pos 10) (negsuc 0) (start_operation toy_engine)
    ≡ (pos 0, pos 4, start_operation toy_engine)
unfolding start_operation Stub.authenticate
matched = refl

run-authenticates_example :
    let t =
      run same_frame
        (authenticates 7 0 ∷ frame toy_frame ∷ works 0 ∷ works 0 ∷ [])
        (toy_session true) in
    (t.session.callbacks ≡ answer_authentication (pos 0) (pos 4) 7 (pos 10) fresh)
    × (t.session.is_authenticating ≡ false)
    × (t.camera ≡ true)
    × (t.engine ≡ start_operation toy_engine)
    × (t.workers ≡ [])
    × (t.session.processing_frame ≡ false)
run-authenticates_example =
    run-authenticates same_frame 7 0 toy_frame (pos 0) (pos 4) (start_operation toy_engine)
      (toy_session true) refl refl refl matched

abbrev off_prompt : OperationContext
off_prompt = record { reason = OperationReason.unknown; display_state = DisplayState.aod }

on_context_changed-Allowed_example :
    Allowed off_prompt
      (on_context_changed off_prompt 5000 (running_session OperationReason.keyguard))
on_context_changed-Allowed_example =
    on_context_changed-Allowed off_prompt 5000 (running_session OperationReason.keyguard)

gone :
    prompt_gone off_prompt
      (take_reason off_prompt (running_session OperationReason.biometric_prompt).session)
    ≡ true
unfolding prompt_gone take_reason
gone = refl

abbrev face_app : OperationContext
face_app = record { reason = OperationReason.other 2; display_state = DisplayState.lockscreen }

on_context_changed_reason_example :
    let s = running_session OperationReason.biometric_prompt in
    let t = on_context_changed face_app 5000 s in
    (t.session.is_authenticating ≡ s.session.is_authenticating)
    × (t.session.is_enrolling ≡ s.session.is_enrolling)
    × (t.session.is_detecting_interaction ≡ s.session.is_detecting_interaction)
    × (t.session.callbacks ≡ s.session.callbacks)
    × (t.engine ≡ s.engine)
    × (t.camera ≡ s.camera)
on_context_changed_reason_example =
    on_context_changed_reason face_app 5000 (running_session OperationReason.biometric_prompt) refl
      refl
