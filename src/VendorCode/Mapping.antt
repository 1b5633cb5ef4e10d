-- ===== src/VendorCode/Mapping.antt =====
-- Laws of AcquiredInfoMapper.h.
use android_vendor_extra_fac.Common.{◌≡◌, ◌↔◌, ◌⊎◌, refl, arith, ℤ, pos, negsuc}
use android_vendor_extra_fac.VendorCode.{good, map_vendor_code, face_ok, keep}

-- The vendor code that goes out is the engine's own, whatever the class; `GOOD` is told for
-- `FACE_OK` and `KEEP` alone.
map_vendor_code_lem :
    (res : ℤ)
    → ((map_vendor_code res).1 ≡ res)
      × (((map_vendor_code res).0 ≡ good) ↔ ((res ≡ pos face_ok) ⊎ (res ≡ pos keep)))
unfolding map_vendor_code
map_vendor_code_lem (pos res) = (refl, ground arith)
map_vendor_code_lem (negsuc n) = (refl, ground arith)
