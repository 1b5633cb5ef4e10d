-- ===== src/Camera/Nv21Image.antt =====
-- packAImageToNv21 of default/Camera2NdkBackend.cpp puts every pixel where NV21 has it.
use android_vendor_extra_fac.Common.{
  ℕ, ◌+◌, ◌*◌, ◌/◌, ◌≤◌, ◌<◌, ◌≡◌, sym, ap, ◌∙◌, refl, suc, inl, inr, some, arith, ◌&&◌, ◌==◌,
  Bytes, length, get_elem?, Bool-cases, pos,
}
use native.Mathlib.Nat.{mul-le-mul_right, mul_comm}
use android_vendor_extra_fac.Camera.Nv21.{
  Image, Plane, copy_bytes, copy_rows, copy_luma, packed, pack_a_image_to_nv21,
}
use android_vendor_extra_fac.Camera.Nv21Whole.{suc_row, LumaFits, ChromaFits, pack_parts}
use android_vendor_extra_fac.Camera.Nv21Packed.{copy_bytes_lem, copy_rows_lem, copy_chroma_lem}

-- Each byte of luma is at its row and column of the buffer.
abbrev pub HoldsLuma : ℕ → ℕ → Plane → Bytes → Bytes → Type 0
HoldsLuma w h plane src out =
    (r : ℕ)
    → r < h
    → (x : ℕ) → x < w
    → get_elem? out (r * w + x) ≡ get_elem? src (r * plane.row_stride + x)

-- Behind the luma, each pair of chroma is at its row and column of the buffer, V first.
abbrev pub HoldsChroma : ℕ → ℕ → Image → Bytes → Bytes → Bytes → Type 0
HoldsChroma w h img u v out =
    (r : ℕ)
    → r < h / 2
    → (i : ℕ) → i < w / 2
    → (get_elem? out (w * h + r * w + 2 * i)
        ≡ get_elem? v (r * img.v.row_stride + i * img.v.pixel_stride))
      × (get_elem? out (w * h + r * w + 2 * i + 1)
          ≡ get_elem? u (r * img.u.row_stride + i * img.u.pixel_stride))

-- A place of a row is one of all the places.
place_below : (w h r x : ℕ) → r < h → x < w → r * w + x < w * h
place_below w h r x high left =
    let rows : suc r * w ≤ h * w = mul-le-mul_right w (omega arith) in
    omega (arith, rows, suc_row r w, mul_comm w h, left)

copy_luma_lem :
    (w h : ℕ) (plane : Plane) (src out made : Bytes)
    → copy_luma w h plane src out ≡ some made
    → HoldsLuma w h plane src made
unfolding copy_luma
copy_luma_lem w h plane src out made done r high x left =
    elim (Bool-cases (plane.pixel_stride == 1 && plane.row_stride == w)) [
      | inl e ↦
          let stride : plane.row_stride ≡ w = ground arith in
          let whole : copy_luma w h plane src out ≡ copy_bytes out 0 src 0 (w * h) = rw (e) refl in
          let (put, keep) = copy_bytes_lem out 0 src 0 (w * h) made (sym whole ∙ done) in
          let place = r * w + x in
          let zero_add : 0 + place ≡ place = omega arith in
          ap (get_elem? made) (sym zero_add)
          ∙ put place (place_below w h r x high left)
          ∙ ap (get_elem? src) zero_add
          ∙ ap (λ n. get_elem? src (r * n + x)) (sym stride)
      | inr e ↦
          let by_rows : copy_luma w h plane src out ≡ copy_rows h 0 w plane.row_stride src out =
            rw (e) refl in
          let (placed, kept) =
            copy_rows_lem h 0 h w plane.row_stride src out made (omega arith)
              (sym by_rows ∙ done) in
          placed r (omega arith) high x left
    ]

-- An image with a size, at least two planes counted and all three planes there and large enough for
-- their strides is packed without a read or a write out of bounds, into one and a half bytes for each
-- pixel, rounded down: the luma without the padding of its rows, and behind it the rows of chroma, a
-- pair for each two columns of each two rows, V before U.
pub pack_a_image_to_nv21_lem :
    (img : Image) (w h : ℕ) (y u v : Bytes)
    → img.width ≡ pos w
    → img.height ≡ pos h
    → 0 < w
    → 0 < h
    → 2 ≤ img.plane_count
    → img.y.data' ≡ some y
    → img.u.data' ≡ some u
    → img.v.data' ≡ some v
    → LumaFits w h img.y y
    → ChromaFits (w / 2) (h / 2) img.u u
    → ChromaFits (w / 2) (h / 2) img.v v
    → (out : Bytes) × (pack_a_image_to_nv21 img ≡ some (packed out w h))
      × (length out ≡ w * h + w * h / 2)
      × HoldsLuma w h img.y y out
      × HoldsChroma w h img u v out
pack_a_image_to_nv21_lem img w h y u v iw ih wide tall planes iy iu iv fit_y fit_u fit_v =
    let (out1, out, made1, made2, done, size) =
      pack_parts img w h y u v iw ih wide tall planes iy iu iv fit_y fit_u fit_v in
    let (placed, kept) =
      copy_chroma_lem (h / 2) 0 (h / 2) w (w * h) img u v out1 out (omega arith) made2 in
    (
      out,
      done,
      size,
      λ r high x left.
          kept (r * w + x) (omega (arith, place_below w h r x high left))
          ∙ copy_luma_lem w h img.y y _ out1 made1 r high x left,
      λ r high i left. placed r (omega arith) high i left,
    )
