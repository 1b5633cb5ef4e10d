-- ===== src/Camera/Nv21Whole.antt =====
-- packAImageToNv21 of default/Camera2NdkBackend.cpp fills the whole buffer of an image whose planes are as
-- large as their strides say.
use android_vendor_extra_fac.Common.{
  ℕ, zero, suc, ◌+◌, ◌-◌, ◌*◌, ◌/◌, ◌≤◌, ◌<◌, ◌≡◌, refl, sym, ap, ◌∙◌, subst, false, ◌&&◌, ◌||◌,
  inl, inr, some, arith, ltb, ◌==◌, Bytes, length, replicate, pos, length-replicate, Bool-cases,
}
use native.Mathlib.Nat.{mul-le-mul_right, mul_assoc, mul-suc, mul_comm}
use android_vendor_extra_fac.Camera.Nv21.{
  Plane, Image, copy_luma, interleave, copy_chroma, packed, pack_planes, pack_a_image_to_nv21,
}
use android_vendor_extra_fac.Camera.Nv21Bounds.{
  InBounds, then_InBounds, copy_bytes-InBounds, copy_rows-InBounds, interleave-InBounds,
}

-- A luma plane of `h` rows of `w` bytes, and a chroma plane of `m` rows of `n` bytes, the last of
-- which need not be whole.
abbrev pub LumaFits : ℕ → ℕ → Plane → Bytes → Type 0
LumaFits w h plane bytes = (h - 1) * plane.row_stride + w ≤ length bytes

abbrev pub ChromaFits : ℕ → ℕ → Plane → Bytes → Type 0
ChromaFits n m plane bytes =
    0 < n → 0 < m → (m - 1) * plane.row_stride + (n - 1) * plane.pixel_stride < length bytes

luma_row :
    (w h : ℕ) (plane : Plane) (bytes : Bytes)
    → LumaFits w h plane bytes
    → (i : ℕ) → i < h
    → i * plane.row_stride + w ≤ length bytes
luma_row w h plane bytes fits i below =
    let rows : i * plane.row_stride ≤ (h - 1) * plane.row_stride =
      mul-le-mul_right plane.row_stride (omega arith) in
    omega (arith, rows, fits)

chroma_byte :
    (n m : ℕ) (plane : Plane) (bytes : Bytes)
    → ChromaFits n m plane bytes
    → (row : ℕ) → row < m
    → (i : ℕ) → i < n
    → row * plane.row_stride + i * plane.pixel_stride < length bytes
chroma_byte n m plane bytes fits row below i left =
    let rows : row * plane.row_stride ≤ (m - 1) * plane.row_stride =
      mul-le-mul_right plane.row_stride (omega arith) in
    let pixels : i * plane.pixel_stride ≤ (n - 1) * plane.pixel_stride =
      mul-le-mul_right plane.pixel_stride (omega arith) in
    omega (arith, rows, pixels, fits (omega arith) (omega arith))

-- A row more is a width more.
pub suc_row : (row w : ℕ) → suc row * w ≡ row * w + w
suc_row row w = mul_comm (suc row) w ∙ mul-suc w row ∙ ap (λ n. n + w) (mul_comm w row)

copy_luma-InBounds :
    (w h : ℕ) (plane : Plane) (src out : Bytes)
    → 0 < h
    → w * h ≤ length out
    → LumaFits w h plane src
    → InBounds out (copy_luma w h plane src out)
unfolding copy_luma
copy_luma-InBounds w zero plane src out tall long fits = absurd (omega arith)
copy_luma-InBounds w (suc h) plane src out tall long fits =
    let turned = mul_comm w (suc h) in
    elim (Bool-cases (plane.pixel_stride == 1 && plane.row_stride == w)) [
      | inl e ↦
          let stride : plane.row_stride ≡ w = ground arith in
          let last : h * w + w ≤ length src =
            subst (λ n. h * n + w ≤ length src) stride
              (luma_row w (suc h) plane src fits h (omega arith)) in
          rw (e) (
            copy_bytes-InBounds out 0 src 0 (w * suc h) (omega arith)
              (omega (arith, last, turned, suc_row h w)))
      | inr e ↦ rw (e) (
          copy_rows-InBounds (suc h) 0 (suc h) w plane.row_stride src out (omega arith)
            (omega (arith, turned, long)) (luma_row w (suc h) plane src fits))
    ]

copy_chroma-InBounds :
    (rows row m w y_size : ℕ) (img : Image) (u v out : Bytes)
    → row + rows ≡ m
    → y_size + m * w ≤ length out
    → ChromaFits (w / 2) m img.u u
    → ChromaFits (w / 2) m img.v v
    → InBounds out (copy_chroma rows row w y_size img u v out)
unfolding copy_chroma
copy_chroma-InBounds zero row m w y_size img u v out e long fit_u fit_v = (out, refl, refl)
copy_chroma-InBounds (suc rows) row m w y_size img u v out e long fit_u fit_v =
    let below : suc row * w ≤ m * w = mul-le-mul_right w (omega arith) in
    let here : row < m = omega arith in
    then_InBounds out
      (interleave (w / 2) 0 (y_size + row * w) (row * img.u.row_stride) img.u.pixel_stride
        (row * img.v.row_stride) img.v.pixel_stride u v out)
      (copy_chroma rows (suc row) w y_size img u v)
      (interleave-InBounds (w / 2) 0 (w / 2) (y_size + row * w) (row * img.u.row_stride)
        img.u.pixel_stride (row * img.v.row_stride) img.v.pixel_stride u v out (omega arith)
        (omega (arith, below, suc_row row w, long)) (chroma_byte (w / 2) m img.u u fit_u row here)
        (chroma_byte (w / 2) m img.v v fit_v row here))
      (λ made same.
        copy_chroma-InBounds rows (suc row) m w y_size img u v made (omega arith) (omega arith)
          fit_u fit_v)

-- The chroma rows take no more than half of the luma's size.
pub half_rows : (w h : ℕ) → h / 2 * w ≤ w * h / 2
half_rows w h =
    let twice : h / 2 * 2 * w ≤ h * w = mul-le-mul_right w (omega arith) in
    let moved : h / 2 * 2 * w ≡ h / 2 * w * 2 =
      mul_assoc (h / 2) 2 w ∙ ap (λ n. h / 2 * n) (mul_comm 2 w) ∙ sym (mul_assoc (h / 2) w 2) in
    omega (arith, twice, moved, mul_comm w h)

packs :
    (img : Image) (w h : ℕ) (y u v out1 out2 : Bytes)
    → img.y.data' ≡ some y
    → img.u.data' ≡ some u
    → img.v.data' ≡ some v
    → copy_luma w h img.y y (replicate (w * h + w * h / 2) 0) ≡ some out1
    → copy_chroma (h / 2) 0 w (w * h) img u v out1 ≡ some out2
    → pack_planes w h img ≡ some (packed out2 w h)
unfolding pack_planes
packs img w h y u v out1 out2 iy iu iv made1 made2 =
    rw (iy, pack_planes) (rw (made1, iu, iv) (rw (made2) refl))

sized_packs :
    (img : Image) (w h : ℕ)
    → img.width ≡ pos w
    → img.height ≡ pos h
    → (w == 0 || h == 0 || ltb img.plane_count 2) ≡ false
    → pack_a_image_to_nv21 img ≡ pack_planes w h img
unfolding pack_a_image_to_nv21
sized_packs img w h iw ih sized = simp (iw, pack_a_image_to_nv21) (simp ih (simp sized refl))

-- Both copies are made within bounds and the result is what they leave.
pub pack_parts :
    (img : Image) (w h : ℕ) (y u v : Bytes)
    → img.width ≡ pos w
    → img.height ≡ pos h
    → 0 < w
    → 0 < h
    → 2 ≤ img.plane_count
    → img.y.data' ≡ some y
    → img.u.data' ≡ some u
    → img.v.data' ≡ some v
    → LumaFits w h img.y y
    → ChromaFits (w / 2) (h / 2) img.u u
    → ChromaFits (w / 2) (h / 2) img.v v
    → (out1 : Bytes) × (out2 : Bytes) × (copy_luma w h img.y y (replicate (w * h + w * h / 2) 0)
        ≡ some out1)
      × (copy_chroma (h / 2) 0 w (w * h) img u v out1 ≡ some out2)
      × (pack_a_image_to_nv21 img ≡ some (packed out2 w h))
      × (length out2 ≡ w * h + w * h / 2)
pack_parts img w h y u v iw ih wide tall planes iy iu iv fit_y fit_u fit_v =
    let y_size = w * h in
    let out : Bytes = replicate (y_size + y_size / 2) 0 in
    let size : length out ≡ y_size + y_size / 2 = length-replicate (y_size + y_size / 2) 0 in
    let (out1, made1, same1) = copy_luma-InBounds w h img.y y out tall (omega arith) fit_y in
    let (out2, made2, same2) =
      copy_chroma-InBounds (h / 2) 0 (h / 2) w y_size img u v out1 (omega arith)
        (omega (arith, half_rows w h, same1, size)) fit_u fit_v in
    let sized : (w == 0 || h == 0 || ltb img.plane_count 2) ≡ false = ground arith in
    (
      out1,
      out2,
      made1,
      made2,
      sized_packs img w h iw ih sized ∙ packs img w h y u v out1 out2 iy iu iv made1 made2,
      same2 ∙ same1 ∙ size,
    )
