-- ===== src/Session/Context.antt =====
-- `Session::onContextChanged`.
use android_vendor_extra_fac.Common.{ℕ, ◌-◌, Bool, true, false, not, ◌&&◌, ◌||◌, ltb, if◌then◌else◌}
use android_vendor_extra_fac.Engine.{EngineLibrary}
use android_vendor_extra_fac.Camera.{CameraBackend}
use android_vendor_extra_fac.Session.State.{
  Session, System, OperationReason, DisplayState, OperationContext,
}
use android_vendor_extra_fac.Session.Calls.{cancel}

abbrev pub is_unknown : OperationReason → Bool
is_unknown OperationReason.unknown = true
is_unknown OperationReason.biometric_prompt = false
is_unknown OperationReason.keyguard = false
is_unknown (OperationReason.other n) = false

abbrev pub is_prompt : OperationReason → Bool
is_prompt OperationReason.unknown = false
is_prompt OperationReason.biometric_prompt = true
is_prompt OperationReason.keyguard = false
is_prompt (OperationReason.other n) = false

abbrev pub is_keyguard : OperationReason → Bool
is_keyguard OperationReason.unknown = false
is_keyguard OperationReason.biometric_prompt = false
is_keyguard OperationReason.keyguard = true
is_keyguard (OperationReason.other n) = false

abbrev pub is_lockscreen : DisplayState → Bool
is_lockscreen DisplayState.unknown = false
is_lockscreen DisplayState.lockscreen = true
is_lockscreen DisplayState.no_ui = false
is_lockscreen DisplayState.aod = false
is_lockscreen (DisplayState.other n) = false

-- `AOD` or `NO_UI`.
abbrev pub is_off : DisplayState → Bool
is_off DisplayState.unknown = false
is_off DisplayState.lockscreen = false
is_off DisplayState.no_ui = true
is_off DisplayState.aod = true
is_off (DisplayState.other n) = false

-- The reason after the first test.
unfoldable pub take_reason : OperationContext → Session → Session
take_reason context s =
    if is_unknown context.reason then s else record s { current_operation_reason = context.reason }

-- The test of the prompt, without and with the grace period of a second.
unfoldable pub prompt_gone : OperationContext → Session → Bool
prompt_gone context s =
    s.is_authenticating && is_prompt s.current_operation_reason && not (is_prompt context.reason)

unfoldable pub in_grace : ℕ → Session → Bool
in_grace now s = ltb (now - s.auth_start_time) 1000

unfoldable pub take_display : OperationContext → Session → Session
take_display context s = record s { current_display_state = context.display_state }

unfoldable pub display_off : OperationContext → Session → Bool
display_off context s = is_off context.display_state && not (is_prompt s.current_operation_reason)

unfoldable pub correct_reason : OperationContext → Session → Session
correct_reason context s =
    if is_lockscreen context.display_state && s.is_authenticating
    then record s { current_operation_reason = OperationReason.keyguard }
    else s

unfoldable pub lockscreen_gone : OperationContext → Session → Bool
lockscreen_gone context s =
    s.is_authenticating
    && (is_keyguard s.current_operation_reason || is_lockscreen s.current_display_state)
    && not (is_lockscreen context.display_state)

module _ {lib : EngineLibrary} {cam : CameraBackend} where
  -- The part behind the prompt's test.
  unfoldable pub change_display : OperationContext → System lib cam → System lib cam
  unfolding take_display display_off correct_reason lockscreen_gone
  change_display context s =
      let s2 = record s { session = take_display context s.session } in
      let s3 = record s2 { session = correct_reason context s2.session } in
      if display_off context s2.session
      then cancel s2
      else if lockscreen_gone context s3.session
      then cancel s3
      else s3

  unfoldable pub on_context_changed : OperationContext → ℕ → System lib cam → System lib cam
  unfolding take_reason prompt_gone in_grace
  on_context_changed context now s =
      let s1 = record s { session = take_reason context s.session } in
      if prompt_gone context s1.session && not (in_grace now s1.session)
      then cancel s1
      else change_display context s1
