-- ===== src/Session/Downscale.antt =====
-- The size in which `Session::onCameraFrame` of default/Session.cpp has a frame processed, and
-- downscaleNv21, which makes a frame of that size. An access out of bounds is `none`.
use android_vendor_extra_fac.Common.{
  ℕ, zero, suc, ◌+◌, ◌*◌, ◌/◌, ◌||◌, Option, none, some, if◌then◌else◌, ltb, ◌>>=◌, Bytes,
  replicate,
}
use android_vendor_extra_fac.Engine.{Frame}
use android_vendor_extra_fac.Camera.Nv21.{copy_byte}

-- The floating point arithmetic of a frame's size, in the compiler's hands: `(int)(n * scale)` with
-- `scale` the float `src / dst`, and `(int)(n / ratio)` and `(int)(n * ratio)` with `ratio` the
-- double `width / height`.
pub record FrameFloats : Type 0 where
  pub scaled : ℕ → ℕ → ℕ → ℕ
  pub over_ratio : ℕ → ℕ → ℕ → ℕ
  pub times_ratio : ℕ → ℕ → ℕ → ℕ

-- The sizes of the source and of the target.
pub record Sizes : Type 0 where
  pub src_w : ℕ
  pub src_h : ℕ
  pub dst_w : ℕ
  pub dst_h : ℕ

module _ (f : FrameFloats) (s : Sizes) (src : Bytes) where
  -- A row of luma: `left` more bytes from the column `x` on.
  unfoldable pub luma_row : ℕ → ℕ → ℕ → ℕ → Bytes → Option Bytes
  unfolding copy_byte
  luma_row zero x src_row dst_row out = some out
  luma_row (suc left) x src_row dst_row out = do
    out1 ← copy_byte out (dst_row + x) src (src_row + f.scaled s.src_w s.dst_w x)
    luma_row left (suc x) src_row dst_row out1

  unfoldable pub luma_rows : ℕ → ℕ → Bytes → Option Bytes
  unfolding luma_row
  luma_rows zero y out = some out
  luma_rows (suc left) y out = do
    out1 ← luma_row s.dst_w 0 (f.scaled s.src_h s.dst_h y * s.src_w) (y * s.dst_w) out
    luma_rows left (suc y) out1

  -- A row of chroma: `left` more pairs from the pair `x` on.
  unfoldable pub chroma_row : ℕ → ℕ → ℕ → ℕ → Bytes → Option Bytes
  unfolding copy_byte
  chroma_row zero x src_row dst_row out = some out
  chroma_row (suc left) x src_row dst_row out =
      let src_x = f.scaled s.src_w s.dst_w x in
      do
        out1 ← copy_byte out (dst_row + 2 * x) src (src_row + 2 * src_x)
        out2 ← copy_byte out1 (dst_row + 2 * x + 1) src (src_row + 2 * src_x + 1)
        chroma_row left (suc x) src_row dst_row out2

  unfoldable pub chroma_rows : ℕ → ℕ → Bytes → Option Bytes
  unfolding chroma_row
  chroma_rows zero y out = some out
  chroma_rows (suc left) y out = do
    out1 ←
        chroma_row (s.dst_w / 2) 0 (s.src_w * s.src_h + f.scaled s.src_h s.dst_h y * s.src_w)
          (s.dst_w * s.dst_h + y * s.dst_w) out
    chroma_rows left (suc y) out1

  -- `dst` is the caller's empty vector.
  unfoldable pub downscale_nv21 : Option Bytes
  unfolding luma_rows chroma_rows
  downscale_nv21 = do
    out1 ← luma_rows s.dst_h 0 (replicate (s.dst_w * s.dst_h * 3 / 2) 0)
    chroma_rows (s.dst_h / 2) 0 out1

module _ (f : FrameFloats) where
  abbrev pub optimal_dims : Option (ℕ × ℕ) → ℕ × ℕ
  optimal_dims none = (1280, 720)
  optimal_dims (some dims) = dims

  -- The target of a frame that is too large for the greater and the smaller dimension.
  unfoldable pub target_size : ℕ → ℕ → ℕ → ℕ → ℕ × ℕ
  target_size max_dim min_dim w h =
      if ltb h w
      then (let target_h = f.over_ratio max_dim w h in
          if ltb min_dim target_h
          then (f.times_ratio min_dim w h, min_dim)
          else (max_dim, target_h))
      else (let target_w = f.times_ratio max_dim w h in
          if ltb min_dim target_w then (min_dim, f.over_ratio min_dim w h) else (target_w, max_dim))

  -- `n & ~1`.
  abbrev pub even_part : ℕ → ℕ
  even_part n = n / 2 * 2

  -- The frame that is processed, from what getOptimalResolution gave. `none` is an access out of
  -- bounds.
  unfoldable pub process_size : Option (ℕ × ℕ) → Frame → Option Frame
  unfolding downscale_nv21 target_size
  process_size optimal frame =
      let (opt_w, opt_h) = optimal_dims optimal in
      let max_dim = if ltb opt_w opt_h then opt_h else opt_w in
      let min_dim = if ltb opt_h opt_w then opt_h else opt_w in
      if ltb max_dim frame.width || ltb max_dim frame.height
      then (let (target_w, target_h) = target_size max_dim min_dim frame.width frame.height in
          let s : Sizes = record {
            src_w = frame.width;
            src_h = frame.height;
            dst_w = even_part target_w;
            dst_h = even_part target_h;
          } in
          downscale_nv21 f s frame.nv21
          >>= (λ out. some (record frame { nv21 = out; width = s.dst_w; height = s.dst_h })))
      else some frame
