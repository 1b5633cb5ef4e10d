-- ===== src/Camera/Nv21.antt =====
-- packAImageToNv21 of default/Camera2NdkBackend.cpp: an image of three planes, each with its strides, as
-- one buffer of luma and of interleaved chroma. A read or a write out of bounds is `none`.
use android_vendor_extra_fac.Common.{
  ℕ, zero, suc, ◌+◌, ◌*◌, ◌/◌, ◌&&◌, ◌||◌, Option, none, some, if◌then◌else◌, ltb, leb, ◌==◌, ◌>>=◌,
  Bytes, length, take, drop, replicate, get_elem?, set, ℤ, pos, negsuc,
}
use android_vendor_extra_fac.Template.{memcpy}

-- A plane; its data can be null. Strides are not negative.
pub record Plane : Type 0 where
  pub data' : Option Bytes
  pub row_stride : ℕ
  pub pixel_stride : ℕ

-- What is read from an AImage.
pub record Image : Type 0 where
  pub width : ℤ
  pub height : ℤ
  pub plane_count : ℕ
  pub y : Plane
  pub u : Plane
  pub v : Plane

-- `memcpy` of `size` bytes between two offsets.
unfoldable pub copy_bytes : Bytes → ℕ → Bytes → ℕ → ℕ → Option Bytes
unfolding memcpy
copy_bytes out to src from size =
    if leb (to + size) (length out) && leb (from + size) (length src)
    then some (memcpy out to (take size (drop from src)))
    else none

unfoldable pub copy_rows : ℕ → ℕ → ℕ → ℕ → Bytes → Bytes → Option Bytes
unfolding copy_bytes
copy_rows zero row w stride src out = some out
copy_rows (suc rows) row w stride src out = do
  out1 ← copy_bytes out (row * w) src (row * stride) w
  copy_rows rows (suc row) w stride src out1

unfoldable pub copy_luma : ℕ → ℕ → Plane → Bytes → Bytes → Option Bytes
unfolding copy_rows copy_bytes
copy_luma w h plane src out =
    if plane.pixel_stride == 1 && plane.row_stride == w
    then copy_bytes out 0 src 0 (w * h)
    else copy_rows h 0 w plane.row_stride src out

-- `out[to] = src[from]`.
unfoldable pub copy_byte : Bytes → ℕ → Bytes → ℕ → Option Bytes
copy_byte out to src from = do
  b ← get_elem? src from
  if ltb to (length out) then some (set out to b) else none

-- A row of chroma: `pairs` more pairs from the pair `x` on.
unfoldable pub interleave : ℕ → ℕ → ℕ → ℕ → ℕ → ℕ → ℕ → Bytes → Bytes → Bytes → Option Bytes
unfolding copy_byte
interleave zero x dst u_line u_px v_line v_px u v out = some out
interleave (suc pairs) x dst u_line u_px v_line v_px u v out = do
  out1 ← copy_byte out (dst + 2 * x) v (v_line + x * v_px)
  out2 ← copy_byte out1 (dst + 2 * x + 1) u (u_line + x * u_px)
  interleave pairs (suc x) dst u_line u_px v_line v_px u v out2

-- `rows` more rows of chroma from the row `row` on.
unfoldable pub copy_chroma : ℕ → ℕ → ℕ → ℕ → Image → Bytes → Bytes → Bytes → Option Bytes
unfolding interleave
copy_chroma zero row w y_size img u v out = some out
copy_chroma (suc rows) row w y_size img u v out = do
  out1 ←
      interleave (w / 2) 0 (y_size + row * w) (row * img.u.row_stride) img.u.pixel_stride
        (row * img.v.row_stride) img.v.pixel_stride u v out
  copy_chroma rows (suc row) w y_size img u v out1

-- A refusal, or the buffer with its width and height.
pub data Packed : Type 0 where
  refused : Packed
  packed : Bytes → ℕ → ℕ → Packed

-- The image has a size and enough planes; `out` is the caller's empty vector.
unfoldable pub pack_planes : ℕ → ℕ → Image → Option Packed
unfolding copy_luma copy_chroma
pack_planes w h img =
    let y_size = w * h in
    let out = replicate (y_size + y_size / 2) 0 in
    elim img.y.data' [
      | none ↦ some refused
      | some y ↦ do
        out1 ← copy_luma w h img.y y out
        elim img.u.data' [
          | none ↦ some refused
          | some u ↦ elim img.v.data' [
            | none ↦ some refused
            | some v ↦ do out2 ← copy_chroma (h / 2) 0 w y_size img u v out1; some (packed out2 w h)
          ]
        ]
    ]

unfoldable pub pack_a_image_to_nv21 : Image → Option Packed
unfolding pack_planes
pack_a_image_to_nv21 img = elim img.width [
  | negsuc n ↦ some refused
  | pos w ↦ elim img.height [
    | negsuc n ↦ some refused
    | pos h ↦
        if w == 0 || h == 0 || ltb img.plane_count 2 then some refused else pack_planes w h img
  ]
]
