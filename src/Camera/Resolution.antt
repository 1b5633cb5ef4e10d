-- ===== src/Camera/Resolution.antt =====
-- The sizes of frames that default/Camera2NdkBackend.cpp picks out of a camera's stream configurations.
use android_vendor_extra_fac.Common.{
  ℕ, zero, suc, ◌+◌, ◌-◌, ◌*◌, Bool, true, ◌&&◌, ◌||◌, List, [], ◌∷◌, Option, none, some, Bytes,
  if◌then◌else◌, ltb, ℤ, pos, negsuc, int_eq, int_lt,
}
use android_vendor_extra_fac.Camera.Ndk.{CameraNdk, Metadata}

-- Four elements of the entry.
pub record Config : Type 0 where
  pub format : ℤ
  pub width : ℤ
  pub height : ℤ
  pub is_input : ℤ

-- An entry of a length that four does not divide is read out of bounds, so none is given.
unfoldable pub configs : List ℤ → List Config
configs (f ∷ w ∷ h ∷ i ∷ rest) =
    record { format = f; width = w; height = h; is_input = i } ∷ configs rest
configs _ = []

abbrev negated : ℕ → ℤ
negated zero = pos 0
negated (suc n) = negsuc n

-- The product of two `int32_t`, which a `long long` holds.
unfoldable pub int_mul : ℤ → ℤ → ℤ
int_mul (pos a) (pos b) = pos (a * b)
int_mul (pos a) (negsuc b) = negated (a * suc b)
int_mul (negsuc a) (pos b) = negated (suc a * b)
int_mul (negsuc a) (negsuc b) = pos (suc a * suc b)

unfoldable pub area : Config → ℤ
unfolding int_mul
area c = int_mul c.width c.height

-- `std::abs(a - b)`.
unfoldable pub abs_difference : ℤ → ℕ → ℕ
abs_difference (pos a) b = if ltb a b then b - a else a - b
abs_difference (negsuc a) b = a + 1 + b

unfoldable pub distance : Config → ℕ
unfolding abs_difference
distance c = abs_difference c.width 1280 + abs_difference c.height 720

abbrev pub is_usable : ℤ → Config → Bool
is_usable yuv c = int_eq c.format yuv && int_eq c.is_input (pos 0)

-- The size of the greatest area so far.
pub record Greatest : Type 0 where
  pub width : ℤ
  pub height : ℤ
  pub max_area : ℤ

-- The size nearest to 1280x720 so far; no distance yet is the source's -1.
pub record Nearest : Type 0 where
  pub width : ℤ
  pub height : ℤ
  pub best_diff : Option ℕ

unfoldable pub take_greatest : ℤ → Config → Greatest → Greatest
unfolding area
take_greatest yuv c g =
    if is_usable yuv c && int_lt g.max_area (area c)
    then (record { width = c.width; height = c.height; max_area = area c })
    else g

abbrev pub is_nearer : ℕ → Option ℕ → Bool
is_nearer diff none = true
is_nearer diff (some best) = ltb diff best

unfoldable pub take_nearest : ℤ → Config → Nearest → Nearest
unfolding distance
take_nearest yuv c n =
    if is_usable yuv c && is_nearer (distance c) n.best_diff
    then (record { width = c.width; height = c.height; best_diff = some (distance c) })
    else n

unfoldable pub greatest : ℤ → List Config → Greatest → Greatest
unfolding take_greatest
greatest yuv [] g = g
greatest yuv (c ∷ cs) g = greatest yuv cs (take_greatest yuv c g)

unfoldable pub nearest : ℤ → List Config → Nearest → Nearest
unfolding take_nearest
nearest yuv [] n = n
nearest yuv (c ∷ cs) n = nearest yuv cs (take_nearest yuv c n)

abbrev pub nothing_yet : Greatest
nothing_yet = record { width = pos 0; height = pos 0; max_area = pos 0 }

abbrev pub nowhere_yet : Nearest
nowhere_yet = record { width = pos 0; height = pos 0; best_diff = none }

abbrev pub is_positive : ℤ → Bool
is_positive a = int_lt (pos 0) a

abbrev pub positive_size : ℤ → ℤ → Option (ℤ × ℤ)
positive_size w h = if is_positive w && is_positive h then some (w, h) else none

unfoldable pub max_size : ℤ → List Config → Option (ℤ × ℤ)
unfolding greatest
max_size yuv cs = let g = greatest yuv cs nothing_yet in positive_size g.width g.height

unfoldable pub optimal_size : ℤ → List Config → Option (ℤ × ℤ)
unfolding greatest nearest
optimal_size yuv cs =
    let g = greatest yuv cs nothing_yet in
    let n = nearest yuv cs nowhere_yet in
    if is_positive g.width && (int_lt g.width (pos 1280) || int_lt g.height (pos 720))
    then some (g.width, g.height)
    else positive_size n.width n.height

module _ (ndk : CameraNdk) where
  abbrev available : Option Metadata → Option (List ℤ)
  available none = none
  available (some chars) = chars.stream_configurations

  unfoldable pub get_max_supported_resolution :
      Option ndk.Handle → Bytes → ndk.State → Option (ℤ × ℤ)
  unfolding max_size configs
  get_max_supported_resolution mgr id k =
      elim (available (ndk.get_camera_characteristics mgr id k)) [
        | none ↦ none
        | some entry ↦ max_size ndk.yuv_420_888 (configs entry)
      ]

  unfoldable pub get_optimal_supported_resolution :
      Option ndk.Handle → Bytes → ndk.State → Option (ℤ × ℤ)
  unfolding optimal_size configs
  get_optimal_supported_resolution mgr id k =
      elim (available (ndk.get_camera_characteristics mgr id k)) [
        | none ↦ none
        | some entry ↦ optimal_size ndk.yuv_420_888 (configs entry)
      ]
