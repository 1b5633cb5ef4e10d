-- ===== src/Session/ContextLaws.antt =====
-- What a change of context does to the operations of a session.
use android_vendor_extra_fac.Common.{ℕ, ◌≡◌, ◌∙◌, true, false, ◌⊎◌, arith, not, ◌&&◌}
use android_vendor_extra_fac.Engine.{EngineLibrary}
use android_vendor_extra_fac.Camera.{CameraBackend}
use android_vendor_extra_fac.Session.State.{Session, System, DisplayState, OperationContext}
use android_vendor_extra_fac.Session.Calls.{is_active, cancel}
use android_vendor_extra_fac.Session.Context.{
  is_unknown, is_prompt, is_keyguard, is_lockscreen, is_off, take_reason, prompt_gone,
  change_display, take_display, display_off, correct_reason, lockscreen_gone, on_context_changed,
}

-- Behind the assignment of a reason that is named, no prompt is gone.
prompt_named :
    (context : OperationContext) (s : Session)
    → is_unknown context.reason ≡ false
    → prompt_gone context (take_reason context s) ≡ false
unfolding prompt_gone take_reason
prompt_named context s named = ground arith

take_reason_keeps :
    (context : OperationContext) (s : Session)
    → let t = take_reason context s in
      (t.is_authenticating ≡ s.is_authenticating)
      × (t.is_enrolling ≡ s.is_enrolling)
      × (t.is_detecting_interaction ≡ s.is_detecting_interaction)
      × (t.callbacks ≡ s.callbacks)
unfolding take_reason
take_reason_keeps context s = ground arith

lockscreen_not_off : (d : DisplayState) → is_lockscreen d ≡ true → is_off d ≡ false
lockscreen_not_off d h = ground arith

module _ {lib : EngineLibrary} {cam : CameraBackend} where
  change_display_shown :
      (context : OperationContext) (s : System lib cam)
      → is_lockscreen context.display_state ≡ true
      → let t = change_display context s in
        (t.session.is_authenticating ≡ s.session.is_authenticating)
        × (t.session.is_enrolling ≡ s.session.is_enrolling)
        × (t.session.is_detecting_interaction ≡ s.session.is_detecting_interaction)
        × (t.session.callbacks ≡ s.session.callbacks)
        × (t.engine ≡ s.engine)
        × (t.camera ≡ s.camera)
  unfolding change_display take_display display_off correct_reason lockscreen_gone
  change_display_shown context s shown =
      let lit = lockscreen_not_off context.display_state shown in ground arith

  -- A context that names a reason, whichever, and shows the lock screen stops nothing, however long ago
  -- the authentication began and whether or not a prompt asked for it: what runs goes on, nothing is
  -- posted, and the engine and the camera are left alone.
  pub on_context_changed_reason :
      (context : OperationContext) (now : ℕ) (s : System lib cam)
      → is_unknown context.reason ≡ false
      → is_lockscreen context.display_state ≡ true
      → let t = on_context_changed context now s in
        (t.session.is_authenticating ≡ s.session.is_authenticating)
        × (t.session.is_enrolling ≡ s.session.is_enrolling)
        × (t.session.is_detecting_interaction ≡ s.session.is_detecting_interaction)
        × (t.session.callbacks ≡ s.session.callbacks)
        × (t.engine ≡ s.engine)
        × (t.camera ≡ s.camera)
  unfolding on_context_changed
  on_context_changed_reason context now s named shown =
      let s1 = record s { session = take_reason context s.session } in
      let (p, q, r, posted) = take_reason_keeps context s.session in
      let (p1, q1, r1, posted1, engine, camera) = change_display_shown context s1 shown in
      rw (prompt_named context s.session named)
        (p1 ∙ p, q1 ∙ q, r1 ∙ r, posted1 ∙ posted, engine, camera)

  -- Nothing runs, or what runs may run with this context.
  abbrev pub Allowed : OperationContext → System lib cam → Type 0
  Allowed context s =
      (is_active s.session ≡ false)
      ⊎ (((is_off context.display_state && not (is_prompt s.session.current_operation_reason))
            ≡ false)
          × ((s.session.is_authenticating
                && is_keyguard s.session.current_operation_reason
                && not (is_lockscreen context.display_state))
              ≡ false))

  cancel_inactive : (s : System lib cam) → is_active (cancel s).session ≡ false
  unfolding cancel is_active
  cancel_inactive s = ground arith

  change_display-Allowed :
      (context : OperationContext) (s : System lib cam) → Allowed context (change_display context s)
  unfolding change_display
  change_display-Allowed context s = grind (arith, cancel_inactive)

  -- Behind a change of context nothing runs, or the screen is not off under an operation that no
  -- prompt asked for, and no authentication that the keyguard asked for runs off the lock screen.
  pub on_context_changed-Allowed :
      (context : OperationContext) (now : ℕ) (s : System lib cam)
      → Allowed context (on_context_changed context now s)
  unfolding on_context_changed
  on_context_changed-Allowed context now s = grind (arith, cancel_inactive, change_display-Allowed)
