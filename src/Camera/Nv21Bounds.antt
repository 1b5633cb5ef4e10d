-- ===== src/Camera/Nv21Bounds.antt =====
-- packAImageToNv21 of default/Camera2NdkBackend.cpp stays inside its buffers.
use android_vendor_extra_fac.Common.{
  ℕ, zero, suc, ◌+◌, ◌*◌, ◌≤◌, ◌<◌, ◌≡◌, refl, ap, ◌∙◌, true, Option, some, arith, leb, Bytes,
  length, take, drop, get_elem?, set, ◌++◌, [], ◌∷◌, lt→ltb, ◌>>=◌, length-append, length-take,
  length-drop, length-set,
}
use native.Mathlib.Nat.{mul-le-mul_right, mul-suc, mul_comm}
use android_vendor_extra_fac.Template.{memcpy}
use android_vendor_extra_fac.Camera.Nv21.{copy_bytes, copy_rows, copy_byte, interleave}

-- A result that is there, of the size of what it was made from.
abbrev pub InBounds : Bytes → Option Bytes → Type 0
InBounds out r = (made : Bytes) × (r ≡ some made) × (length made ≡ length out)

pub then_InBounds :
    (out : Bytes) (r : Option Bytes) (f : Bytes → Option Bytes)
    → InBounds out r
    → ((made : Bytes) → length made ≡ length out → InBounds made (f made))
    → InBounds out (r >>= f)
then_InBounds out r f (made, e, same) next =
    let (last, e2, same2) = next made same in (last, ap (λ x. x >>= f) e ∙ e2, same2 ∙ same)

pub leb-true : (a b : ℕ) → a ≤ b → leb a b ≡ true
leb-true a b h = ground arith

pub copy_bytes-InBounds :
    (out : Bytes) (to : ℕ) (src : Bytes) (from size : ℕ)
    → to + size ≤ length out
    → from + size ≤ length src
    → InBounds out (copy_bytes out to src from size)
unfolding copy_bytes memcpy
copy_bytes-InBounds out to src from size h k =
    let piece = take size (drop from src) in
    (
      memcpy out to piece,
      rw (leb-true (to + size) (length out) h, leb-true (from + size) (length src) k) refl,
      omega (
        arith,
        length-append (take to out) (piece ++ drop (to + length piece) out),
        length-append piece (drop (to + length piece) out),
        length-take to out,
        length-drop (to + length piece) out,
        length-take size (drop from src),
        length-drop from src,
      ),
    )

pub copy_rows-InBounds :
    (rows row h w stride : ℕ) (src out : Bytes)
    → row + rows ≡ h
    → h * w ≤ length out
    → ((i : ℕ) → i < h → i * stride + w ≤ length src)
    → InBounds out (copy_rows rows row w stride src out)
unfolding copy_rows
copy_rows-InBounds zero row h w stride src out e long fits = (out, refl, refl)
copy_rows-InBounds (suc rows) row h w stride src out e long fits =
    let below : suc row * w ≤ h * w = mul-le-mul_right w (omega arith) in
    let next : suc row * w ≡ row * w + w =
      mul_comm (suc row) w ∙ mul-suc w row ∙ ap (λ n. n + w) (mul_comm w row) in
    then_InBounds out (copy_bytes out (row * w) src (row * stride) w)
      (copy_rows rows (suc row) w stride src)
      (copy_bytes-InBounds out (row * w) src (row * stride) w (omega arith)
        (fits row (omega arith)))
      (λ made same.
        copy_rows-InBounds rows (suc row) h w stride src made (omega arith) (omega arith) fits)

get_in_bounds : (xs : Bytes) (i : ℕ) → i < length xs → (b : ℕ) × (get_elem? xs i ≡ some b)
get_in_bounds [] i h = absurd (omega arith)
get_in_bounds (x ∷ xs) zero h = (x, refl)
get_in_bounds (x ∷ xs) (suc i) h = get_in_bounds xs i (omega arith)

pub copy_byte-InBounds :
    (out : Bytes) (to : ℕ) (src : Bytes) (from : ℕ)
    → to < length out
    → from < length src
    → InBounds out (copy_byte out to src from)
unfolding copy_byte
copy_byte-InBounds out to src from h k =
    let (b, e) = get_in_bounds src from k in
    (set out to b, rw (e, lt→ltb to (length out) h) refl, length-set out to b)

pub interleave-InBounds :
    (pairs x n dst u_line u_px v_line v_px : ℕ) (u v out : Bytes)
    → x + pairs ≡ n
    → dst + 2 * n ≤ length out
    → ((i : ℕ) → i < n → u_line + i * u_px < length u)
    → ((i : ℕ) → i < n → v_line + i * v_px < length v)
    → InBounds out (interleave pairs x dst u_line u_px v_line v_px u v out)
unfolding interleave
interleave-InBounds zero x n dst u_line u_px v_line v_px u v out e long fit_u fit_v =
    (out, refl, refl)
interleave-InBounds (suc pairs) x n dst u_line u_px v_line v_px u v out e long fit_u fit_v =
    let rest = interleave pairs (suc x) dst u_line u_px v_line v_px u v in
    then_InBounds out (copy_byte out (dst + 2 * x) v (v_line + x * v_px))
      (λ made. copy_byte made (dst + 2 * x + 1) u (u_line + x * u_px) >>= rest)
      (copy_byte-InBounds out (dst + 2 * x) v (v_line + x * v_px) (omega arith)
        (fit_v x (omega arith)))
      (λ made same.
        then_InBounds made (copy_byte made (dst + 2 * x + 1) u (u_line + x * u_px)) rest
          (copy_byte-InBounds made (dst + 2 * x + 1) u (u_line + x * u_px) (omega arith)
            (fit_u x (omega arith)))
          (λ made2 same2.
            interleave-InBounds pairs (suc x) n dst u_line u_px v_line v_px u v made2 (omega arith)
              (omega arith) fit_u fit_v))
