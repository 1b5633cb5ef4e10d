-- ===== src/Camera/OneRound.antt =====
-- A round in which `start` of default/Camera2NdkBackend.cpp opens the camera keeps account of what it
-- made.
use android_vendor_extra_fac.Common.{
  ℕ, ◌-◌, ◌≡◌, refl, sym, ap, ◌∙◌, ◌⊎◌, subst, Bool, true, false, not, ◌&&◌, inl, inr, Option, none,
  some, arith, Bool-cases,
}
use android_vendor_extra_fac.VendorCode.{camera_image_reader_failed, camera_window_failed}
use android_vendor_extra_fac.Camera.Ndk.{CameraNdk}
use android_vendor_extra_fac.Camera.Backend.{System, is_null, fail, delete_reader}
use android_vendor_extra_fac.Camera.Starting.{
  Attempt, opened, failed, not_opened, drop_reader, listen, new_reader, get_window, open_device,
  attempt_open,
}
use android_vendor_extra_fac.Camera.Balance.{count, NdkLaws, Holds, delete_reader_in_use}
use android_vendor_extra_fac.Camera.Outcomes.{
  Underway, GivenUp, Outcome, outcome, fail-Outcome, acquire-Outcome,
}
use android_vendor_extra_fac.Camera.Outcomes.{Outcome-true, Outcome-false}
use android_vendor_extra_fac.Camera.Opening.{NoOutput, NoReader, WithReader}

null_none : {A : Type 0} (h : Option A) → is_null h ≡ true → h ≡ none
null_none none e = refl
null_none (some a) e = cc

count_not_null : {A : Type 0} (h : Option A) → is_null h ≡ false → count h ≡ 1
count_not_null none e = cc
count_not_null (some a) e = refl

not-true : (b : Bool) → not b ≡ true → b ≡ false
not-true true e = cc
not-true false e = refl

module _ {ndk : CameraNdk} (laws : NdkLaws ndk) where
  drop_in_use :
      (h : Option ndk.Handle) (k : ndk.State)
      → is_null h ≡ false
      → laws.in_use (delete_reader ndk h k) ≡ laws.in_use k - 1
  drop_in_use none k e = cc
  drop_in_use (some h) k e = delete_reader_in_use laws h k

  drop_reader-Holds :
      (base : ℕ) (s : System ndk)
      → is_null s.backend.handles.reader ≡ false
      → Holds laws base s
      → Holds laws base (drop_reader s)
  unfolding drop_reader
  drop_reader-Holds base s e holds = omega (
    arith,
    drop_in_use s.backend.handles.reader s.camera e,
    count_not_null s.backend.handles.reader e,
  )

  new_reader-Outcome :
      (base : ℕ) (s : System ndk)
      → Underway laws base NoReader s
      → Outcome laws base (Underway laws base WithReader) (new_reader s).0 (new_reader s).1
  unfolding new_reader
  new_reader-Outcome base s u =
      acquire-Outcome laws base NoReader WithReader (λ h r. record r { reader = h })
        (λ r k. ndk.reader_new s.backend.width s.backend.height k) false camera_image_reader_failed
        s u (λ r k. laws.reader_new_law s.backend.width s.backend.height k)
        (λ h r p. omega (arith, ap count p.0)) (λ h r p e. (not-true (is_null h) e, p.1))
        (omega arith) (omega arith)

  get_window-Outcome :
      (base : ℕ) (s : System ndk)
      → Underway laws base WithReader s
      → Outcome laws base (Underway laws base WithReader) (get_window s).0 (get_window s).1
  unfolding get_window drop_reader
  get_window-Outcome base s (holds, p, stopped, fine) =
      let (ok, h, k) = ndk.reader_get_window s.backend.handles.reader s.camera in
      let s1 = record s {
        backend = record s.backend { handles = record s.backend.handles { window = h } };
        camera = k;
      } in
      let holds1 : Holds laws base s1 =
        laws.reader_get_window_law s.backend.handles.reader s.camera ∙ holds in
      let next = Underway laws base WithReader in
      elim (Bool-cases (ok && not (is_null h))) [
        | inl e ↦
            outcome laws base next (get_window s) (true, s1) (rw (e) refl)
              (holds1, p, stopped, fine)
        | inr e ↦
            outcome laws base next (get_window s) (fail camera_window_failed (drop_reader s1))
              (rw (e) refl)
              (fail-Outcome laws base next camera_window_failed (drop_reader s1)
                (drop_reader-Holds base s1 p.0 holds1) stopped (omega arith) (omega arith))
      ]

  abbrev pub AttemptOutcome : ℕ → Attempt → System ndk → Type 0
  AttemptOutcome base opened s = Underway laws base NoOutput s
  AttemptOutcome base failed s = GivenUp laws base s
  AttemptOutcome base not_opened s = Underway laws base NoReader s

  at_attempt :
      (base : ℕ) (s : System ndk) (r : Attempt × System ndk)
      → attempt_open s ≡ r
      → AttemptOutcome base r.0 r.1
      → AttemptOutcome base (attempt_open s).0 (attempt_open s).1
  at_attempt base s r e h = subst (λ x. AttemptOutcome base x.0 x.1) (sym e) h

  open_device_cases :
      (base : ℕ) (s : System ndk)
      → Underway laws base WithReader s
      → (((open_device s).0 ≡ true) × Underway laws base NoOutput (open_device s).1)
        ⊎ (((open_device s).0 ≡ false)
            × Underway laws base NoReader (drop_reader (open_device s).1))
  unfolding open_device drop_reader
  open_device_cases base s (holds, p, stopped, fine) =
      let mgr = s.backend.handles.manager in
      let (ok, h, k) = ndk.open_camera mgr s.backend.camera_id s.camera in
      let s1 = record s {
        backend = record s.backend { handles = record s.backend.handles { device = h } };
        camera = k;
      } in
      let made = laws.open_camera_law mgr s.backend.camera_id s.camera in
      let holds1 : Holds laws base s1 = omega (arith, made, ap count p.1.0) in
      elim (Bool-cases (ok && not (is_null h))) [
        | inl e ↦ inl (e, (holds1, p.1.1, stopped, fine))
        | inr e ↦
            let null : h ≡ none = elim (Bool-cases (is_null h)) [
              | inl f ↦ null_none h f
              | inr f ↦ laws.open_camera_fails mgr s.backend.camera_id s.camera (ground arith)
            ] in
            inr (e, (drop_reader-Holds base s1 p.0 holds1, (refl, (null, p.1.1)), stopped, fine))
      ]

  pub attempt_open_lem :
      (base : ℕ) (s : System ndk)
      → Underway laws base NoReader s
      → AttemptOutcome base (attempt_open s).0 (attempt_open s).1
  unfolding attempt_open listen
  attempt_open_lem base s u =
      let (ready, s1) = new_reader s in
      let (windowed, s2) = get_window (listen s1) in
      let (is_open, s3) = open_device s2 in
      let made = new_reader-Outcome base s u in
      let next = Underway laws base WithReader in
      elim (Bool-cases ready) [
        | inr e ↦
            at_attempt base s (failed, s1) (rw (e) refl)
              (Outcome-false laws base next (new_reader s) made e)
        | inl e ↦
            let (holds, p, stopped, fine) = Outcome-true laws base next (new_reader s) made e in
            let heard =
              laws.reader_set_image_listener_law s1.backend.handles.reader true s1.camera in
            let found = get_window-Outcome base (listen s1) (heard ∙ holds, p, stopped, fine) in
            elim (Bool-cases windowed) [
              | inr f ↦
                  at_attempt base s (failed, s2) (rw (e, f) refl)
                    (Outcome-false laws base next (get_window (listen s1)) found f)
              | inl f ↦
                  elim (open_device_cases base s2
                    (Outcome-true laws base next (get_window (listen s1)) found f)) [
                      | inl (g, got) ↦ at_attempt base s (opened, s3) (rw (e, f, g) refl) got
                      | inr (g, shut) ↦
                          at_attempt base s (not_opened, drop_reader s3) (rw (e, f, g) refl) shut
                    ]
            ]
      ]
