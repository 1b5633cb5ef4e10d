-- ===== src/Camera/Opening.antt =====
-- The choice of the camera in `start` of default/Camera2NdkBackend.cpp makes nothing in the NDK.
use android_vendor_extra_fac.Common.{
  ℕ, zero, suc, ◌≡◌, refl, ◌∙◌, true, false, ◌&&◌, inl, inr, Option, none, arith, Bool-cases,
}
use android_vendor_extra_fac.VendorCode.{camera_no_device, camera_id_select_failed}
use android_vendor_extra_fac.Camera.Ndk.{CameraNdk}
use android_vendor_extra_fac.Camera.Select.{
  wait_for_non_empty_camera_list, select_front_camera_id, has_cameras,
}
use android_vendor_extra_fac.Camera.Backend.{Handles, System, is_null, fail}
use android_vendor_extra_fac.Camera.Starting.{has_warm, nonempty, selected, probe, choose_camera}
use android_vendor_extra_fac.Camera.Balance.{NdkLaws, Holds}
use android_vendor_extra_fac.Camera.Outcomes.{Underway, Outcome, outcome, fail-Outcome}

-- The pointers that are null before each part.
module _ {Handle : Type 0} where
  abbrev pub NoTarget : Handles Handle → Type 0
  NoTarget h = h.target ≡ none

  abbrev pub NoRequest : Handles Handle → Type 0
  NoRequest h = (h.request ≡ none) × NoTarget h

  abbrev pub NoSession : Handles Handle → Type 0
  NoSession h = (h.session ≡ none) × NoRequest h

  abbrev pub NoContainer : Handles Handle → Type 0
  NoContainer h = (h.container ≡ none) × NoSession h

  abbrev pub NoOutput : Handles Handle → Type 0
  NoOutput h = (h.output ≡ none) × NoContainer h

  abbrev pub NoDevice : Handles Handle → Type 0
  NoDevice h = (h.device ≡ none) × NoOutput h

  abbrev pub NoReader : Handles Handle → Type 0
  NoReader h = (h.reader ≡ none) × NoDevice h

  abbrev pub WithReader : Handles Handle → Type 0
  WithReader h = (is_null h.reader ≡ false) × NoDevice h

module _ {ndk : CameraNdk} (laws : NdkLaws ndk) where
  wait_in_use :
      (rounds : ℕ) (h : Option ndk.Handle) (k : ndk.State)
      → laws.in_use (wait_for_non_empty_camera_list ndk rounds h k).1 ≡ laws.in_use k
  unfolding wait_for_non_empty_camera_list
  wait_in_use zero h k = refl
  wait_in_use (suc rounds) h k =
      let (ok, list, k1) = ndk.get_camera_id_list h k in
      let rest = wait_in_use rounds h (ndk.sleep 100 k1) in
      let slept = laws.sleep_law 100 k1 in
      let read = laws.get_camera_id_list_law h k in
      elim (Bool-cases (ok && has_cameras list)) [
        | inl e ↦ rw (e) read
        | inr e ↦ elim (Bool-cases ok) [
          | inl f ↦ rw (e, f) (rest ∙ slept ∙ read)
          | inr f ↦ rw (e, f) read
        ]
      ]

  select_in_use :
      (h : Option ndk.Handle) (k : ndk.State)
      → laws.in_use (select_front_camera_id ndk h k).1 ≡ laws.in_use k
  unfolding select_front_camera_id
  select_in_use h k =
      let (ok, list, k1) = ndk.get_camera_id_list h k in
      let read = laws.get_camera_id_list_law h k in
      elim (Bool-cases ok) [ inl e ↦ rw (e) read | inr e ↦ rw (e) read ]

  pub probe-Outcome :
      (base rounds : ℕ) (P : Handles ndk.Handle → Type 0) (s : System ndk)
      → Underway laws base P s
      → Outcome laws base (Underway laws base P) (probe rounds s).0 (probe rounds s).1
  unfolding probe
  probe-Outcome base rounds P s u =
      let (holds, p, stopped, fine) = u in
      let mgr = s.backend.handles.manager in
      let (listed, k1) = wait_for_non_empty_camera_list ndk rounds mgr s.camera in
      let (id, k2) = select_front_camera_id ndk mgr k1 in
      let waited = wait_in_use rounds mgr s.camera in
      let s1 = record s { camera = k1 } in
      let s2 = record s {
        backend = record s.backend { camera_id = selected id s.backend.camera_id };
        camera = k2;
      } in
      let holds2 : Holds laws base s2 = select_in_use mgr k1 ∙ waited ∙ holds in
      elim (Bool-cases listed) [
        | inr e ↦
            outcome laws base (Underway laws base P) (probe rounds s) (fail camera_no_device s1)
              (rw (e) refl)
              (fail-Outcome laws base (Underway laws base P) camera_no_device s1 (waited ∙ holds)
                stopped (omega arith) (omega arith))
        | inl e ↦ elim (Bool-cases (nonempty id)) [
          | inl f ↦
              outcome laws base (Underway laws base P) (probe rounds s) (true, s2) (rw (e, f) refl)
                (holds2, p, stopped, fine)
          | inr f ↦
              outcome laws base (Underway laws base P) (probe rounds s)
                (fail camera_id_select_failed s2) (rw (e, f) refl)
                (fail-Outcome laws base (Underway laws base P) camera_id_select_failed s2 holds2
                  stopped (omega arith) (omega arith))
        ]
      ]

  pub choose_camera-Outcome :
      (base : ℕ) (P : Handles ndk.Handle → Type 0) (s : System ndk)
      → Underway laws base P s
      → Outcome laws base (Underway laws base P) (choose_camera s).0 (choose_camera s).1
  unfolding choose_camera
  choose_camera-Outcome base P s u = elim (Bool-cases (has_warm s.warm)) [
    | inl e ↦
        outcome laws base (Underway laws base P) (choose_camera s)
          (true, record s { backend = record s.backend { camera_id = s.warm.camera_id } })
          (rw (e) refl) u
    | inr e ↦
        outcome laws base (Underway laws base P) (choose_camera s) (probe 100 s) (rw (e) refl)
          (probe-Outcome base 100 P s u)
  ]
