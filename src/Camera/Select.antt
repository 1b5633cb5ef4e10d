-- ===== src/Camera/Select.antt =====
-- Which camera default/Camera2NdkBackend.cpp takes, and how its picture is turned.
use android_vendor_extra_fac.Common.{
  ℕ, zero, suc, ◌+◌, ◌-◌, ◌%◌, Bool, true, false, not, ◌&&◌, List, [], ◌∷◌, Option, none, some,
  Bytes, is_empty, if◌then◌else◌, ltb, ◌==◌, ℤ, pos, negsuc,
}
use android_vendor_extra_fac.Camera.Ndk.{CameraNdk, Metadata}

-- The remainder of `a` and of its negation as C++ has it, with the sign of the dividend.
abbrev negated_remainder : ℕ → ℕ → ℤ
negated_remainder a b = elim (a % b) [ zero ↦ pos 0 | suc r ↦ negsuc r ]

-- `(sensorOrientation - 0 + 360) % 360`, where the sum is an `int`.
unfoldable pub rotation : ℤ → ℤ
rotation (pos n) = pos ((n + 360) % 360)
rotation (negsuc n) = if ltb n 360 then pos ((359 - n) % 360) else negated_remainder (n - 359) 360

abbrev first_orientation : Option (List ℤ) → ℤ
first_orientation (some (orientation ∷ rest)) = orientation
first_orientation _ = pos 0

abbrev pub has_cameras : Option (List Bytes) → Bool
has_cameras (some (id ∷ ids)) = true
has_cameras _ = false

module _ (ndk : CameraNdk) where
  -- A round for each 100 ms of the time-out.
  unfoldable pub wait_for_non_empty_camera_list :
      ℕ → Option ndk.Handle → ndk.State → Bool × ndk.State
  wait_for_non_empty_camera_list zero mgr k = (false, k)
  wait_for_non_empty_camera_list (suc rounds) mgr k =
      let (ok, list, k1) = ndk.get_camera_id_list mgr k in
      let later = wait_for_non_empty_camera_list rounds mgr (ndk.sleep 100 k1) in
      if ok && has_cameras list then (true, k1) else if not ok then (false, k1) else later

  abbrev is_front : Option Metadata → Bool
  is_front none = false
  is_front (some chars) = elim chars.lens_facing [
    | some (facing ∷ rest) ↦ facing == ndk.lens_facing_front
    | _ ↦ false
  ]

  -- The first front camera, or the empty string.
  unfoldable pub find_front : List Bytes → Option ndk.Handle → ndk.State → Bytes
  find_front [] mgr k = []
  find_front (id ∷ ids) mgr k =
      let later = find_front ids mgr k in
      if is_front (ndk.get_camera_characteristics mgr id k) then id else later

  unfoldable pub choose_id : Option (List Bytes) → Option ndk.Handle → ndk.State → Option Bytes
  unfolding find_front
  choose_id none mgr k = none
  choose_id (some []) mgr k = none
  choose_id (some (first_id ∷ ids)) mgr k =
      let found = find_front (first_id ∷ ids) mgr k in
      some (if is_empty found then first_id else found)

  unfoldable pub select_front_camera_id : Option ndk.Handle → ndk.State → Option Bytes × ndk.State
  unfolding choose_id
  select_front_camera_id mgr k =
      let (ok, list, k1) = ndk.get_camera_id_list mgr k in
      if not ok then (none, k1) else (choose_id list mgr k1, k1)

  unfoldable pub get_preview_rotation_degrees : Option ndk.Handle → Bytes → ndk.State → ℤ
  unfolding rotation
  get_preview_rotation_degrees mgr id k = elim (ndk.get_camera_characteristics mgr id k) [
    | none ↦ pos 0
    | some chars ↦ rotation (first_orientation chars.sensor_orientation)
  ]
