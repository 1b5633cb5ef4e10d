-- ===== src/Tests/ScaleRuns.antt =====
-- A frame of 4x4 for a camera of 2x2.
use android_vendor_extra_fac.Common.{ℕ, ◌*◌, ◌/◌, ◌≡◌, refl, none, some, Bytes, [], ◌∷◌}
use android_vendor_extra_fac.Engine.{Frame}
use android_vendor_extra_fac.Camera.Nv21.{copy_byte}
use android_vendor_extra_fac.Session.Downscale.{
  FrameFloats, Sizes, luma_row, luma_rows, chroma_row, chroma_rows, downscale_nv21, target_size,
  process_size,
}

-- Exact arithmetic, rounded down.
abbrev exact : FrameFloats
exact = record {
  scaled = λ src dst n. n * src / dst;
  over_ratio = λ n w h. n * h / w;
  times_ratio = λ n w h. n * w / h;
}

abbrev halved : Sizes
halved = record { src_w = 4; src_h = 4; dst_w = 2; dst_h = 2 }

abbrev pixels : Bytes
pixels =
    1 ∷ 2 ∷ 3 ∷ 4 ∷ 5 ∷ 6 ∷ 7 ∷ 8 ∷ 9 ∷ 10 ∷ 11 ∷ 12 ∷ 13 ∷ 14 ∷ 15 ∷ 16 ∷ 20 ∷ 21 ∷ 22 ∷ 23 ∷ 24
    ∷ 25 ∷ 26 ∷ 27 ∷ []

abbrev frame_of : Bytes → ℕ → Frame
frame_of bytes n = record { nv21 = bytes; width = n; height = n; angle = 0 }

too_large_scaled :
    process_size exact (some (2, 2)) (frame_of pixels 4)
    ≡ some (frame_of (1 ∷ 3 ∷ 9 ∷ 11 ∷ 20 ∷ 21 ∷ []) 2)
unfolding process_size target_size downscale_nv21 luma_rows luma_row chroma_rows chroma_row
    copy_byte
too_large_scaled = refl

small_kept : process_size exact none (frame_of pixels 4) ≡ some (frame_of pixels 4)
unfolding process_size
small_kept = refl

-- A frame that is shorter than its size says.
short_read : process_size exact (some (2, 2)) (frame_of (1 ∷ 2 ∷ []) 4) ≡ none
unfolding process_size target_size downscale_nv21 luma_rows luma_row chroma_rows chroma_row
    copy_byte
short_read = refl

-- Arithmetic that rounds up by all that two roundings can add.
abbrev rounded_up : FrameFloats
rounded_up = record {
  scaled = λ src dst n. n * src * 4194305 / (dst * 4194304);
  over_ratio = λ n w h. n * h / w;
  times_ratio = λ n w h. n * w / h;
}
