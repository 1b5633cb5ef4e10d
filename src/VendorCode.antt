-- ===== src/VendorCode.antt =====
-- default/include/FaceEngineTypes.h (`VendorCode`), AcquiredInfoMapper.h and VendorStateManager.h:
-- the engine's result codes, what the framework is told of them, and the code kept for the app.
pub mod Mapping
use android_vendor_extra_fac.Common.{ℕ, ◌==◌, if◌then◌else◌, ℤ, pos, negsuc}

-- `struct VendorCode`
abbrev pub face_ok : ℕ
face_ok = 0

abbrev pub failed : ℕ
failed = 3

abbrev pub face_not_found : ℕ
face_not_found = 5

abbrev pub face_too_small : ℕ
face_too_small = 6

abbrev pub face_too_large : ℕ
face_too_large = 7

abbrev pub face_offset_left : ℕ
face_offset_left = 8

abbrev pub face_offset_right : ℕ
face_offset_right = 10

abbrev pub face_offset_up : ℕ
face_offset_up = 11

abbrev pub face_offset_down : ℕ
face_offset_down = 12

abbrev pub face_rotated_left : ℕ
face_rotated_left = 15

abbrev pub face_rotated_right : ℕ
face_rotated_right = 17

abbrev pub keep : ℕ
keep = 19

abbrev pub face_multi : ℕ
face_multi = 27

abbrev pub face_blur : ℕ
face_blur = 28

abbrev pub face_not_complete : ℕ
face_not_complete = 29

abbrev pub darklight : ℕ
darklight = 30

abbrev pub highlight : ℕ
highlight = 31

abbrev pub half_shadow : ℕ
half_shadow = 32

abbrev pub camera_no_device : ℕ
camera_no_device = 50

abbrev pub camera_id_select_failed : ℕ
camera_id_select_failed = 51

abbrev pub camera_manager_failed : ℕ
camera_manager_failed = 52

abbrev pub camera_open_failed : ℕ
camera_open_failed = 53

abbrev pub camera_image_reader_failed : ℕ
camera_image_reader_failed = 54

abbrev pub camera_window_failed : ℕ
camera_window_failed = 55

abbrev pub camera_session_failed : ℕ
camera_session_failed = 56

abbrev pub camera_request_failed : ℕ
camera_request_failed = 57

abbrev pub camera_streaming_failed : ℕ
camera_streaming_failed = 58

abbrev pub require_reenrollment : ℕ
require_reenrollment = 1059

-- The constants of `AcquiredInfo` that the mapper names.
pub data AcquiredInfo : Type 0 where
  good insufficient not_detected too_far too_close face_too_right face_too_left : AcquiredInfo
  face_too_low face_too_high pan_too_extreme too_much_motion face_obscured : AcquiredInfo
  too_dark too_bright vendor : AcquiredInfo

-- The `switch`, on a code that is not negative.
map_code : ℕ → AcquiredInfo
map_code res =
    if res == face_ok
    then good
    else if res == keep
    then good
    else if res == failed
    then insufficient
    else if res == face_not_found
    then not_detected
    else if res == face_too_small
    then too_far
    else if res == face_too_large
    then too_close
    else if res == face_offset_left
    then face_too_right
    else if res == face_offset_right
    then face_too_left
    else if res == face_offset_up
    then face_too_low
    else if res == face_offset_down
    then face_too_high
    else if res == face_rotated_left
    then pan_too_extreme
    else if res == face_rotated_right
    then pan_too_extreme
    else if res == face_blur
    then too_much_motion
    else if res == face_not_complete
    then face_obscured
    else if res == darklight
    then too_dark
    else if res == highlight
    then too_bright
    else if res == half_shadow
    then insufficient
    else if res == face_multi
    then insufficient
    else vendor

-- `AcquiredInfoMapper::mapVendorCode`: the class, and `outVendorCode`.
unfoldable pub map_vendor_code : ℤ → AcquiredInfo × ℤ
unfolding map_code
map_vendor_code (pos res) = (map_code res, pos res)
map_vendor_code (negsuc n) = (vendor, negsuc n)

-- `VendorStateManager`: the code that is kept until it is consumed.
pub record VendorState : Type 0 where
  pub current : ℕ

abbrev pub initial : VendorState
initial = record { current = 0 }

unfoldable pub set_vendor_code : ℕ → VendorState → VendorState
set_vendor_code code s = record s { current = code }

unfoldable pub consume_vendor_code : VendorState → ℕ × VendorState
consume_vendor_code s = (s.current, record s { current = 0 })

unfoldable pub get_vendor_code : VendorState → ℕ
get_vendor_code s = s.current
