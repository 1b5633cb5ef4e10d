-- ===== src/Camera/Nv21Packed.antt =====
-- What the copies of packAImageToNv21 of default/Camera2NdkBackend.cpp leave at each place of the buffer.
use android_vendor_extra_fac.Common.{
  ℕ, zero, suc, ◌+◌, ◌*◌, ◌/◌, ◌≤◌, ◌<◌, ◌≡◌, refl, sym, ap, ◌∙◌, subst, true, inl, inr, [], ◌∷◌,
  ◌++◌, none, some, arith, ltb, leb, ◌&&◌, Bytes, length, take, drop, get_elem?, Bool-cases,
  none≢some, some_injective, ltb→lt, length-take, length-drop, and_left, and_right,
}
use android_vendor_extra_fac.Template.{memcpy}
use android_vendor_extra_fac.Camera.Nv21.{Image, interleave, copy_bytes, copy_rows, copy_chroma}
use android_vendor_extra_fac.Camera.Nv21Whole.{suc_row}
use android_vendor_extra_fac.Camera.Nv21Pixels.{interleave_lem, chain_parts}

get-append_left : (xs ys : Bytes) (i : ℕ) → i < length xs → get_elem? (xs ++ ys) i ≡ get_elem? xs i
get-append_left [] ys i h = absurd (omega arith)
get-append_left (x ∷ xs) ys zero h = refl
get-append_left (x ∷ xs) ys (suc i) h = get-append_left xs ys i (omega arith)

get-append_right :
    (xs ys : Bytes) (n i j : ℕ)
    → length xs ≡ n
    → i ≡ n + j
    → get_elem? (xs ++ ys) i ≡ get_elem? ys j
get-append_right [] ys n i j e f = ap (get_elem? ys) (omega arith)
get-append_right (x ∷ xs) ys n zero j e f = absurd (omega arith)
get-append_right (x ∷ xs) ys n (suc i) j e f =
    get-append_right xs ys (length xs) i j refl (omega arith)

get-take : (n : ℕ) (xs : Bytes) (i : ℕ) → i < n → get_elem? (take n xs) i ≡ get_elem? xs i
get-take zero xs i h = absurd (omega arith)
get-take (suc n) [] i h = refl
get-take (suc n) (x ∷ xs) zero h = refl
get-take (suc n) (x ∷ xs) (suc i) h = get-take n xs i (omega arith)

get-drop : (n : ℕ) (xs : Bytes) (i k : ℕ) → k ≡ n + i → get_elem? (drop n xs) i ≡ get_elem? xs k
get-drop zero xs i k e = ap (get_elem? xs) (omega arith)
get-drop (suc n) [] i k e = refl
get-drop (suc n) (x ∷ xs) i zero e = absurd (omega arith)
get-drop (suc n) (x ∷ xs) i (suc k) e = get-drop n xs i k (omega arith)

-- A piece copied is at its place, and nothing before it is changed.
pub copy_bytes_lem :
    (out : Bytes) (to : ℕ) (src : Bytes) (from size : ℕ) (made : Bytes)
    → copy_bytes out to src from size ≡ some made
    → ((i : ℕ) → i < size → get_elem? made (to + i) ≡ get_elem? src (from + i))
      × ((j : ℕ) → j < to → get_elem? made j ≡ get_elem? out j)
unfolding copy_bytes memcpy
copy_bytes_lem out to src from size made h =
    let fits = leb (to + size) (length out) && leb (from + size) (length src) in
    let piece = take size (drop from src) in
    let front = take to out in
    let tail = drop (to + length piece) out in
    elim (Bool-cases fits) [
      | inr e ↦
          let gone : copy_bytes out to src from size ≡ none = rw (e) refl in
          absurd (none≢some (sym gone ∙ h))
      | inl e ↦
          let done : copy_bytes out to src from size ≡ some (front ++ (piece ++ tail)) =
            rw (e) refl in
          let same : made ≡ front ++ (piece ++ tail) = some_injective (sym h ∙ done) in
          let long : to + size ≤ length out =
            leb_le (to + size) (length out)
              (and_left (leb (to + size) (length out)) (leb (from + size) (length src)) e) in
          let deep : from + size ≤ length src =
            leb_le (from + size) (length src)
              (and_right (leb (to + size) (length out)) (leb (from + size) (length src)) e) in
          let front_size : length front ≡ to = omega (arith, length-take to out, long) in
          let piece_size : length piece ≡ size =
            omega (arith, length-take size (drop from src), length-drop from src, deep) in
          (
            λ i below.
                ap (λ r. get_elem? r (to + i)) same
                ∙ get-append_right front (piece ++ tail) to (to + i) i front_size refl
                ∙ get-append_left piece tail i (omega (arith, piece_size, below))
                ∙ get-take size (drop from src) i below
                ∙ get-drop from src i (from + i) refl,
            λ j before.
                ap (λ r. get_elem? r j) same
                ∙ get-append_left front (piece ++ tail) j (omega (arith, front_size, before))
                ∙ get-take to out j before,
          )
    ]
  where
    leb_le : (a b : ℕ) → leb a b ≡ true → a ≤ b
    leb_le a b h = ground arith

pub copy_rows_lem :
    (rows row h w stride : ℕ) (src out made : Bytes)
    → row + rows ≡ h
    → copy_rows rows row w stride src out ≡ some made
    → ((r : ℕ)
        → row ≤ r
        → r < h
        → (x : ℕ) → x < w
        → get_elem? made (r * w + x) ≡ get_elem? src (r * stride + x))
      × ((j : ℕ) → j < row * w → get_elem? made j ≡ get_elem? out j)
unfolding copy_rows
copy_rows_lem zero row h w stride src out made e done = (
  λ r low high x left. absurd (omega arith),
  λ j before. ap (λ b. get_elem? b j) (sym (some_injective done)),
)
copy_rows_lem (suc rows) row h w stride src out made e done =
    let (out1, c1, h1) =
      chain_parts (copy_bytes out (row * w) src (row * stride) w)
        (copy_rows rows (suc row) w stride src) made done in
    let (put, keep) = copy_bytes_lem out (row * w) src (row * stride) w out1 c1 in
    let (placed, kept) = copy_rows_lem rows (suc row) h w stride src out1 made (omega arith) h1 in
    let next = suc_row row w in
    (
      λ r low high x left. elim (Bool-cases (ltb row r)) [
        | inl f ↦ placed r (omega (arith, ltb→lt row r f)) high x left
        | inr f ↦
            let here : r ≡ row = ground arith in
            subst (λ k. get_elem? made (k * w + x) ≡ get_elem? src (k * stride + x)) (sym here)
              (kept (row * w + x) (omega (arith, next, left)) ∙ put x left)
      ],
      λ j before. kept j (omega (arith, next, before)) ∙ keep j before,
    )

pub copy_chroma_lem :
    (rows row m w y_size : ℕ) (img : Image) (u v out made : Bytes)
    → row + rows ≡ m
    → copy_chroma rows row w y_size img u v out ≡ some made
    → ((r : ℕ)
        → row ≤ r
        → r < m
        → (i : ℕ) → i < w / 2
        → (get_elem? made (y_size + r * w + 2 * i)
            ≡ get_elem? v (r * img.v.row_stride + i * img.v.pixel_stride))
          × (get_elem? made (y_size + r * w + 2 * i + 1)
              ≡ get_elem? u (r * img.u.row_stride + i * img.u.pixel_stride)))
      × ((j : ℕ) → j < y_size + row * w → get_elem? made j ≡ get_elem? out j)
unfolding copy_chroma
copy_chroma_lem zero row m w y_size img u v out made e done = (
  λ r low high i left. absurd (omega arith),
  λ j before. ap (λ b. get_elem? b j) (sym (some_injective done)),
)
copy_chroma_lem (suc rows) row m w y_size img u v out made e done =
    let (out1, c1, h1) =
      chain_parts
        (interleave (w / 2) 0 (y_size + row * w) (row * img.u.row_stride) img.u.pixel_stride
          (row * img.v.row_stride) img.v.pixel_stride u v out)
        (copy_chroma rows (suc row) w y_size img u v) made done in
    let (put, keep) =
      interleave_lem (w / 2) 0 (w / 2) (y_size + row * w) (row * img.u.row_stride)
        img.u.pixel_stride (row * img.v.row_stride) img.v.pixel_stride u v out out1 (omega arith)
        c1 in
    let (placed, kept) =
      copy_chroma_lem rows (suc row) m w y_size img u v out1 made (omega arith) h1 in
    let next = suc_row row w in
    (
      λ r low high i left. elim (Bool-cases (ltb row r)) [
        | inl f ↦ placed r (omega (arith, ltb→lt row r f)) high i left
        | inr f ↦
            let here : r ≡ row = ground arith in
            let (put_v, put_u) = put i (omega arith) left in
            subst
              (λ k.
                (get_elem? made (y_size + k * w + 2 * i)
                  ≡ get_elem? v (k * img.v.row_stride + i * img.v.pixel_stride))
                × (get_elem? made (y_size + k * w + 2 * i + 1)
                    ≡ get_elem? u (k * img.u.row_stride + i * img.u.pixel_stride)))
              (sym here)
              (
                kept (y_size + row * w + 2 * i) (omega (arith, next, left)) ∙ put_v,
                kept (y_size + row * w + 2 * i + 1) (omega (arith, next, left)) ∙ put_u,
              )
      ],
      λ j before. kept j (omega (arith, next, before)) ∙ keep j (inl (omega arith)),
    )
