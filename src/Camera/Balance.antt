-- ===== src/Camera/Balance.antt =====
-- What default/Camera2NdkBackend.cpp makes in the NDK and what it releases.
use android_vendor_extra_fac.Common.{
  ℕ, ◌+◌, ◌-◌, ◌≡◌, refl, ap, ◌∙◌, Bool, false, Option, none, some, arith, Bytes, ℤ,
}
use android_vendor_extra_fac.Camera.Ndk.{CameraNdk}
use android_vendor_extra_fac.Camera.Backend.{
  Handles, System, no_handles, unless_null, close_session, delete_reader, release, teardown,
}

abbrev pub count : {A : Type 0} → Option A → ℕ
count none = 0
count (some a) = 1

-- `in_use` counts the objects that were made and not released: a pointer that is given is one more,
-- and releasing one is one less. A device that is not opened is not given.
pub record NdkLaws (ndk : CameraNdk) : Type 0 where
  pub in_use : ndk.State → ℕ
  pub manager_create_law :
      (k : ndk.State) → in_use (ndk.manager_create k).1 ≡ in_use k + count (ndk.manager_create k).0
  pub manager_delete_law :
      (h : ndk.Handle) (k : ndk.State) → in_use (ndk.manager_delete (some h) k) ≡ in_use k - 1
  pub reader_new_law :
      (w h : ℤ) (k : ndk.State)
      → in_use (ndk.reader_new w h k).2 ≡ in_use k + count (ndk.reader_new w h k).1
  pub reader_delete_law :
      (h : ndk.Handle) (k : ndk.State) → in_use (ndk.reader_delete (some h) k) ≡ in_use k - 1
  pub reader_set_image_listener_law :
      (h : Option ndk.Handle) (b : Bool) (k : ndk.State)
      → in_use (ndk.reader_set_image_listener h b k) ≡ in_use k
  pub reader_get_window_law :
      (h : Option ndk.Handle) (k : ndk.State) → in_use (ndk.reader_get_window h k).2 ≡ in_use k
  pub open_camera_law :
      (h : Option ndk.Handle) (id : Bytes) (k : ndk.State)
      → in_use (ndk.open_camera h id k).2 ≡ in_use k + count (ndk.open_camera h id k).1
  pub open_camera_fails :
      (h : Option ndk.Handle) (id : Bytes) (k : ndk.State)
      → (ndk.open_camera h id k).0 ≡ false
      → (ndk.open_camera h id k).1 ≡ none
  pub device_close_law :
      (h : ndk.Handle) (k : ndk.State) → in_use (ndk.device_close (some h) k) ≡ in_use k - 1
  pub output_create_law :
      (h : Option ndk.Handle) (k : ndk.State)
      → in_use (ndk.output_create h k).2 ≡ in_use k + count (ndk.output_create h k).1
  pub output_free_law :
      (h : ndk.Handle) (k : ndk.State) → in_use (ndk.output_free (some h) k) ≡ in_use k - 1
  pub container_create_law :
      (k : ndk.State)
      → in_use (ndk.container_create k).2 ≡ in_use k + count (ndk.container_create k).1
  pub container_add_law :
      (c h : Option ndk.Handle) (k : ndk.State) → in_use (ndk.container_add c h k).1 ≡ in_use k
  pub container_free_law :
      (h : ndk.Handle) (k : ndk.State) → in_use (ndk.container_free (some h) k) ≡ in_use k - 1
  pub create_capture_session_law :
      (d c : Option ndk.Handle) (k : ndk.State)
      → in_use (ndk.create_capture_session d c k).2
        ≡ in_use k + count (ndk.create_capture_session d c k).1
  pub session_stop_repeating_law :
      (h : Option ndk.Handle) (k : ndk.State) → in_use (ndk.session_stop_repeating h k) ≡ in_use k
  pub session_close_law :
      (h : ndk.Handle) (k : ndk.State) → in_use (ndk.session_close (some h) k) ≡ in_use k - 1
  pub create_capture_request_law :
      (d : Option ndk.Handle) (k : ndk.State)
      → in_use (ndk.create_capture_request d k).2
        ≡ in_use k + count (ndk.create_capture_request d k).1
  pub request_free_law :
      (h : ndk.Handle) (k : ndk.State) → in_use (ndk.request_free (some h) k) ≡ in_use k - 1
  pub target_create_law :
      (h : Option ndk.Handle) (k : ndk.State)
      → in_use (ndk.target_create h k).2 ≡ in_use k + count (ndk.target_create h k).1
  pub target_free_law :
      (h : ndk.Handle) (k : ndk.State) → in_use (ndk.target_free (some h) k) ≡ in_use k - 1
  pub add_target_law :
      (r t : Option ndk.Handle) (k : ndk.State) → in_use (ndk.add_target r t k).1 ≡ in_use k
  pub set_repeating_request_law :
      (s r : Option ndk.Handle) (k : ndk.State)
      → in_use (ndk.set_repeating_request s r k).1 ≡ in_use k
  pub sleep_law : (n : ℕ) (k : ndk.State) → in_use (ndk.sleep n k) ≡ in_use k
  pub get_camera_id_list_law :
      (h : Option ndk.Handle) (k : ndk.State) → in_use (ndk.get_camera_id_list h k).2 ≡ in_use k

-- The objects that a backend holds; the window is the reader's.
abbrev pub live : {Handle : Type 0} → Handles Handle → ℕ
live h =
    count h.manager
    + count h.reader
    + count h.device
    + count h.output
    + count h.container
    + count h.session
    + count h.request
    + count h.target

module _ {ndk : CameraNdk} (laws : NdkLaws ndk) where
  unless_null_in_use :
      (h : Option ndk.Handle) (call : Option ndk.Handle → ndk.State → ndk.State) (k : ndk.State)
      → ((x : ndk.Handle) (l : ndk.State) → laws.in_use (call (some x) l) ≡ laws.in_use l - 1)
      → laws.in_use (unless_null h call k) ≡ laws.in_use k - count h
  unless_null_in_use none call k law = omega arith
  unless_null_in_use (some h) call k law = law h k

  close_session_in_use :
      (h : ndk.Handle) (k : ndk.State)
      → laws.in_use (close_session ndk (some h) k) ≡ laws.in_use k - 1
  close_session_in_use h k =
      laws.session_close_law h (ndk.session_stop_repeating (some h) k)
      ∙ ap (λ n. n - 1) (laws.session_stop_repeating_law (some h) k)

  pub delete_reader_in_use :
      (h : ndk.Handle) (k : ndk.State)
      → laws.in_use (delete_reader ndk (some h) k) ≡ laws.in_use k - 1
  delete_reader_in_use h k =
      laws.reader_delete_law h (ndk.reader_set_image_listener (some h) false k)
      ∙ ap (λ n. n - 1) (laws.reader_set_image_listener_law (some h) false k)

  pub release_in_use :
      (h : Handles ndk.Handle) (k : ndk.State)
      → laws.in_use (release ndk h k) ≡ laws.in_use k - live h
  unfolding release
  release_in_use h k =
      let k1 = unless_null h.session (close_session ndk) k in
      let k2 = unless_null h.target ndk.target_free k1 in
      let k3 = unless_null h.request ndk.request_free k2 in
      let k4 = unless_null h.container ndk.container_free k3 in
      let k5 = unless_null h.output ndk.output_free k4 in
      let k6 = unless_null h.device ndk.device_close k5 in
      let k7 = unless_null h.reader (delete_reader ndk) k6 in
      omega (
        arith,
        unless_null_in_use h.session (close_session ndk) k close_session_in_use,
        unless_null_in_use h.target ndk.target_free k1 laws.target_free_law,
        unless_null_in_use h.request ndk.request_free k2 laws.request_free_law,
        unless_null_in_use h.container ndk.container_free k3 laws.container_free_law,
        unless_null_in_use h.output ndk.output_free k4 laws.output_free_law,
        unless_null_in_use h.device ndk.device_close k5 laws.device_close_law,
        unless_null_in_use h.reader (delete_reader ndk) k6 delete_reader_in_use,
        unless_null_in_use h.manager ndk.manager_delete k7 laws.manager_delete_law,
      )

  -- All that the backend holds is in use beside `base` other objects.
  abbrev pub Holds : ℕ → System ndk → Type 0
  Holds base s = laws.in_use s.camera ≡ base + live s.backend.handles

  abbrev pub Released : ℕ → System ndk → Type 0
  Released base s = (s.backend.handles ≡ no_handles) × (laws.in_use s.camera ≡ base)

  pub teardown-Released : (base : ℕ) (s : System ndk) → Holds base s → Released base (teardown s)
  unfolding teardown
  teardown-Released base s h = (refl, omega (arith, release_in_use s.backend.handles s.camera))
