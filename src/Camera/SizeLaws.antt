-- ===== src/Camera/SizeLaws.antt =====
-- The sizes that default/Camera2NdkBackend.cpp picks are offered by the camera, and the greatest, or the
-- nearest to 1280x720, of those that are.
use android_vendor_extra_fac.Common.{
  ◌≡◌, ◌⊎◌, inl, inr, refl, sym, ap, ◌∙◌, subst, zero, suc, arith, negsuc, true, false, ◌&&◌, ◌||◌,
  List, none, some, Bool-cases, ℤ, pos, int_lt, none≢some, and_left, and_right, some_injective,
}
use android_vendor_extra_fac.Camera.Resolution.{
  Config, int_mul, area, distance, is_usable, greatest, nearest, nothing_yet, nowhere_yet,
  is_positive, positive_size, max_size, optimal_size,
}
use android_vendor_extra_fac.Camera.Nv21Whole.{suc_row}
use android_vendor_extra_fac.Camera.Sizes.{
  Among, IsGreatest, IsNearest, AtMost, greatest_lem, nearest_lem,
}

zero_not : is_positive (pos 0) ≡ true → ⊥
zero_not e = cc

positive_size-some :
    (a b w h : ℤ) → positive_size a b ≡ some (w, h) → (is_positive a ≡ true) × ((a ≡ w) × (b ≡ h))
positive_size-some a b w h e = elim (Bool-cases (is_positive a && is_positive b)) [
  | inl f ↦
      let found : positive_size a b ≡ some (a, b) = rw (f) refl in
      let same = some_injective (sym found ∙ e) in
      (and_left (is_positive a) (is_positive b) f, (ap (λ x. x.0) same, ap (λ x. x.1) same))
  | inr f ↦ let found : positive_size a b ≡ none = rw (f) refl in absurd (none≢some (sym found ∙ e))
]

positive_size-height : (a b w h : ℤ) → positive_size a b ≡ some (w, h) → is_positive b ≡ true
positive_size-height a b w h e = elim (Bool-cases (is_positive a && is_positive b)) [
  | inl f ↦ and_right (is_positive a) (is_positive b) f
  | inr f ↦ let found : positive_size a b ≡ none = rw (f) refl in absurd (none≢some (sym found ∙ e))
]

true≢false : true ≡ false → ⊥
true≢false e = cc

module _ (yuv : ℤ) where
  size_of_greatest :
      (cs : List Config) (w h : ℤ)
      → let g = greatest yuv cs nothing_yet in
        is_positive g.width ≡ true
        → (g.width ≡ w) × (g.height ≡ h)
        → (c : Config) × Among c cs
          × (is_usable yuv c ≡ true)
          × (c.width ≡ w)
          × (c.height ≡ h)
          × IsGreatest yuv cs (area c)
  size_of_greatest cs w h p e =
      let (kind, up, all) = greatest_lem yuv cs nothing_yet in
      elim kind [
        | inl same ↦ absurd (zero_not (sym (ap (λ x. is_positive x.width) same) ∙ p))
        | inr (c, m, u, same) ↦ (
          c,
          m,
          u,
          sym (ap (λ x. x.width) same) ∙ e.0,
          sym (ap (λ x. x.height) same) ∙ e.1,
          subst (λ x. IsGreatest yuv cs x.max_area) same all,
        )
      ]

  size_of_nearest :
      (cs : List Config) (w h : ℤ)
      → let n = nearest yuv cs nowhere_yet in
        is_positive n.width ≡ true
        → (n.width ≡ w) × (n.height ≡ h)
        → (c : Config) × Among c cs
          × (is_usable yuv c ≡ true)
          × (c.width ≡ w)
          × (c.height ≡ h)
          × IsNearest yuv cs (distance c)
  size_of_nearest cs w h p e =
      let (kind, down, all) = nearest_lem yuv cs nowhere_yet in
      elim kind [
        | inl same ↦ absurd (zero_not (sym (ap (λ x. is_positive x.width) same) ∙ p))
        | inr (c, m, u, same) ↦ (
          c,
          m,
          u,
          sym (ap (λ x. x.width) same) ∙ e.0,
          sym (ap (λ x. x.height) same) ∙ e.1,
          λ d o v. subst (λ x. AtMost x.best_diff (some (distance d))) same (all d o v),
        )
      ]

  -- A size that GetMaxSupportedResolution finds is that of a usable configuration, none of which has
  -- a greater area.
  pub max_size-IsGreatest :
      (cs : List Config) (w h : ℤ)
      → max_size yuv cs ≡ some (w, h)
      → (c : Config) × Among c cs
        × (is_usable yuv c ≡ true)
        × (c.width ≡ w)
        × (c.height ≡ h)
        × IsGreatest yuv cs (area c)
  unfolding max_size
  max_size-IsGreatest cs w h e =
      let g = greatest yuv cs nothing_yet in
      let (p, parts) = positive_size-some g.width g.height w h e in size_of_greatest cs w h p parts

  -- A positive size is a positive area, so it is greater than nothing.
  int_mul_positive :
      (a b : ℤ) → is_positive a ≡ true → is_positive b ≡ true → int_lt (pos 0) (int_mul a b) ≡ true
  unfolding int_mul
  int_mul_positive (pos zero) b p q = ground arith
  int_mul_positive (pos (suc a)) (pos zero) p q = ground arith
  int_mul_positive (pos (suc a)) (pos (suc b)) p q =
      let grown = suc_row a (suc b) in ground (arith, grown)
  int_mul_positive (pos (suc a)) (negsuc b) p q = ground arith
  int_mul_positive (negsuc a) b p q = ground arith

  -- Some configuration of the greatest area is not positive and below 1280x720.
  abbrev pub SomeLarge : List Config → Type 0
  SomeLarge cs =
      (d : Config) × Among d cs
      × (is_usable yuv d ≡ true)
      × IsGreatest yuv cs (area d)
      × ((is_positive d.width && (int_lt d.width (pos 1280) || int_lt d.height (pos 720))) ≡ false)

  greatest-SomeLarge :
      (cs : List Config) (c : Config)
      → let g = greatest yuv cs nothing_yet in
        Among c cs
        → is_usable yuv c ≡ true
        → is_positive c.width ≡ true
        → is_positive c.height ≡ true
        → (is_positive g.width && (int_lt g.width (pos 1280) || int_lt g.height (pos 720))) ≡ false
        → SomeLarge cs
  unfolding area
  greatest-SomeLarge cs c m u p q large =
      let (kind, up, all) = greatest_lem yuv cs nothing_yet in
      elim kind [
        | inl same ↦
            let least : int_lt (pos 0) (area c) ≡ false =
              subst (λ x. int_lt x.max_area (area c) ≡ false) same (all c m u) in
            absurd (true≢false (sym (int_mul_positive c.width c.height p q) ∙ least))
        | inr (d, n, v, same) ↦ (
          d,
          n,
          v,
          subst (λ x. IsGreatest yuv cs x.max_area) same all,
          subst
              (λ x.
                (is_positive x.width && (int_lt x.width (pos 1280) || int_lt x.height (pos 720)))
                ≡ false)
              same large,
        )
      ]

  -- A size that GetOptimalSupportedResolution finds is that of a usable configuration: one of the
  -- greatest area, which is narrower than 1280 or lower than 720; or one nearest to 1280x720, and then
  -- not every configuration of the greatest area is so small (or has a width that is not positive).
  pub optimal_size-IsBest :
      (cs : List Config) (w h : ℤ)
      → optimal_size yuv cs ≡ some (w, h)
      → (c : Config) × Among c cs
        × (is_usable yuv c ≡ true)
        × (c.width ≡ w)
        × (c.height ≡ h)
        × ((IsGreatest yuv cs (area c) × ((int_lt w (pos 1280) || int_lt h (pos 720)) ≡ true))
            ⊎ (IsNearest yuv cs (distance c) × SomeLarge cs))
  unfolding optimal_size
  optimal_size-IsBest cs w h e =
      let g = greatest yuv cs nothing_yet in
      let n = nearest yuv cs nowhere_yet in
      let small = int_lt g.width (pos 1280) || int_lt g.height (pos 720) in
      elim (Bool-cases (is_positive g.width && small)) [
        | inl f ↦
            let found : optimal_size yuv cs ≡ some (g.width, g.height) = rw (f) refl in
            let same : (g.width, g.height) ≡ (w, h) = some_injective (sym found ∙ e) in
            let parts : (g.width ≡ w) × (g.height ≡ h) = (ap (λ x. x.0) same, ap (λ x. x.1) same) in
            let (c, m, u, cw, ch, best) =
              size_of_greatest cs w h (and_left (is_positive g.width) small f) parts in
            let low : (int_lt w (pos 1280) || int_lt h (pos 720)) ≡ true =
              ap (λ x. int_lt x.0 (pos 1280) || int_lt x.1 (pos 720)) (sym same)
              ∙ and_right (is_positive g.width) small f in
            (c, m, u, cw, ch, inl (best, low))
        | inr f ↦
            let found : optimal_size yuv cs ≡ positive_size n.width n.height = rw (f) refl in
            let (p, parts) = positive_size-some n.width n.height w h (sym found ∙ e) in
            let (c, m, u, cw, ch, best) = size_of_nearest cs w h p parts in
            let tall =
              ap is_positive ch
              ∙ ap is_positive (sym parts.1)
              ∙ positive_size-height n.width n.height w h (sym found ∙ e) in
            let wide = ap is_positive cw ∙ ap is_positive (sym parts.0) ∙ p in
            (c, m, u, cw, ch, inr (best, greatest-SomeLarge cs c m u wide tall f))
      ]
