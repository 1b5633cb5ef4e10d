-- ===== src/Session/DownscaleLaws.antt =====
-- downscaleNv21 of default/Session.cpp stays inside its buffers.
use android_vendor_extra_fac.Common.{ℕ, suc, ◌*◌, ◌≤◌, ◌<◌}
use android_vendor_extra_fac.Session.Downscale.{FrameFloats}

-- One part in 2 ^ 22 is more than the two roundings of `n * ((float)src / dst)` can add, each of at
-- most one part in 2 ^ 24, to numbers that a float holds exactly.
abbrev pub float_unit : ℕ
float_unit = 4194304

-- What IEEE 754 says of the scaled numbers of a size: none is above the exact one by more than its two
-- roundings.
abbrev pub RoundsOff : FrameFloats → ℕ → ℕ → Type 0
RoundsOff f src dst =
    (n : ℕ) → n < dst → f.scaled src dst n * dst * float_unit ≤ n * src * suc float_unit
