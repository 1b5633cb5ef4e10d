-- ===== src/Camera/Sizes.antt =====
-- What the loops of default/Camera2NdkBackend.cpp over the stream configurations keep.
use android_vendor_extra_fac.Common.{
  ℕ, ◌≤◌, ◌≡◌, ◌⊎◌, inl, inr, refl, sym, ◌∙◌, subst, true, false, List, [], ◌∷◌, Option, none, some,
  arith, Bool-cases, ℤ, pos, negsuc, int_lt,
}
use android_vendor_extra_fac.Camera.Resolution.{
  is_nearer, Config, area, distance, is_usable, Greatest, Nearest, take_greatest, take_nearest,
  greatest, nearest,
}

at_least_trans : (a b c : ℤ) → int_lt a b ≡ false → int_lt b c ≡ false → int_lt a c ≡ false
at_least_trans (pos a) (pos b) (pos c) p q = ground arith
at_least_trans (pos a) (pos b) (negsuc c) p q = ground arith
at_least_trans (pos a) (negsuc b) (pos c) p q = ground arith
at_least_trans (pos a) (negsuc b) (negsuc c) p q = ground arith
at_least_trans (negsuc a) (pos b) (pos c) p q = ground arith
at_least_trans (negsuc a) (pos b) (negsuc c) p q = ground arith
at_least_trans (negsuc a) (negsuc b) (pos c) p q = ground arith
at_least_trans (negsuc a) (negsuc b) (negsuc c) p q = ground arith

at_least_self : (a : ℤ) → int_lt a a ≡ false
at_least_self (pos a) = ground arith
at_least_self (negsuc a) = ground arith

greater_at_least : (a b : ℤ) → int_lt a b ≡ true → int_lt b a ≡ false
greater_at_least (pos a) (pos b) h = ground arith
greater_at_least (pos a) (negsuc b) h = ground arith
greater_at_least (negsuc a) (pos b) h = ground arith
greater_at_least (negsuc a) (negsuc b) h = ground arith

abbrev pub of_config : Config → Greatest
of_config c = record { width = c.width; height = c.height; max_area = area c }

abbrev pub Among : Config → List Config → Type 0
Among d [] = ⊥
Among d (c ∷ cs) = (d ≡ c) ⊎ Among d cs

-- No usable configuration has a greater area.
abbrev pub IsGreatest : ℤ → List Config → ℤ → Type 0
IsGreatest yuv cs a = (d : Config) → Among d cs → is_usable yuv d ≡ true → int_lt a (area d) ≡ false

-- No usable configuration is nearer to 1280x720.
abbrev pub IsNearest : ℤ → List Config → ℕ → Type 0
IsNearest yuv cs n = (d : Config) → Among d cs → is_usable yuv d ≡ true → n ≤ distance d

abbrev pub place : Config → Nearest
place c = record { width = c.width; height = c.height; best_diff = some (distance c) }

-- A distance against another, where none is the greatest.
abbrev pub AtMost : Option ℕ → Option ℕ → Type 0
AtMost a none = Unit {0}
AtMost none (some b) = ⊥
AtMost (some a) (some b) = a ≤ b

AtMost-self : (a : Option ℕ) → AtMost a a
AtMost-self none = tt
AtMost-self (some a) = omega arith

AtMost-trans : (a b c : Option ℕ) → AtMost a b → AtMost b c → AtMost a c
AtMost-trans a b none p q = tt
AtMost-trans none none (some c) p q = q
AtMost-trans none (some b) (some c) p q = p
AtMost-trans (some a) none (some c) p q = absurd q
AtMost-trans (some a) (some b) (some c) p q = omega arith

nearer-AtMost : (a : ℕ) (b : Option ℕ) → is_nearer a b ≡ true → AtMost (some a) b
nearer-AtMost a none h = tt
nearer-AtMost a (some b) h = ground arith

not_nearer-AtMost : (a : ℕ) (b : Option ℕ) → is_nearer a b ≡ false → AtMost b (some a)
not_nearer-AtMost a none h = cc
not_nearer-AtMost a (some b) h = ground arith

module _ (yuv : ℤ) where
  take_greatest_lem :
      (c : Config) (g : Greatest)
      → let g1 = take_greatest yuv c g in
        ((g1 ≡ g) ⊎ ((is_usable yuv c ≡ true) × (g1 ≡ of_config c)))
        × (int_lt g1.max_area g.max_area ≡ false)
        × (is_usable yuv c ≡ true → int_lt g1.max_area (area c) ≡ false)
  unfolding take_greatest
  take_greatest_lem c g = elim (Bool-cases (is_usable yuv c)) [
    | inr e ↦ rw (e) (inl refl, at_least_self g.max_area, λ h. cc)
    | inl e ↦ elim (Bool-cases (int_lt g.max_area (area c))) [
      | inl f ↦
          rw (e, f)
            (inr (refl, refl), greater_at_least g.max_area (area c) f, λ h. at_least_self (area c))
      | inr f ↦ rw (e, f) (inl refl, at_least_self g.max_area, λ h. f)
    ]
  ]

  pub greatest_lem :
      (cs : List Config) (g : Greatest)
      → let r = greatest yuv cs g in
        ((r ≡ g) ⊎ ((c : Config) × Among c cs × (is_usable yuv c ≡ true) × (r ≡ of_config c)))
        × (int_lt r.max_area g.max_area ≡ false)
        × IsGreatest yuv cs r.max_area
  unfolding greatest
  greatest_lem [] g = (inl refl, at_least_self g.max_area, λ d m u. absurd m)
  greatest_lem (c ∷ cs) g =
      let g1 = take_greatest yuv c g in
      let r = greatest yuv cs g1 in
      let (kind1, up1, own) = take_greatest_lem c g in
      let (kind, up, all) = greatest_lem cs g1 in
      let from1 : (r ≡ g1)
          → (r ≡ g)
            ⊎ ((d : Config) × Among d (c ∷ cs) × (is_usable yuv d ≡ true) × (r ≡ of_config d)) =
        λ same. elim kind1 [
          | inl e ↦ inl (same ∙ e)
          | inr (u, e) ↦ inr (c, inl refl, u, same ∙ e)
        ] in
      (
        elim kind [ inl same ↦ from1 same | inr (d, m, u, e) ↦ inr (d, inr m, u, e) ],
        at_least_trans r.max_area g1.max_area g.max_area up up1,
        λ d m u. elim m [
          | inl e ↦ at_least_trans r.max_area g1.max_area (area d) up (
              subst (λ x. int_lt g1.max_area (area x) ≡ false) (sym e)
                (own (subst (λ x. is_usable yuv x ≡ true) e u)))
          | inr n ↦ all d n u
        ],
      )

  take_nearest_lem :
      (c : Config) (n : Nearest)
      → let n1 = take_nearest yuv c n in
        ((n1 ≡ n) ⊎ ((is_usable yuv c ≡ true) × (n1 ≡ place c)))
        × (AtMost n1.best_diff n.best_diff)
        × (is_usable yuv c ≡ true → AtMost n1.best_diff (some (distance c)))
  unfolding take_nearest
  take_nearest_lem c n = elim (Bool-cases (is_usable yuv c)) [
    | inr e ↦ rw (e) (inl refl, AtMost-self n.best_diff, λ h. cc)
    | inl e ↦ elim (Bool-cases (is_nearer (distance c) n.best_diff)) [
      | inl f ↦
          rw (e, f) (inr (refl, refl), nearer-AtMost (distance c) n.best_diff f, λ h. omega arith)
      | inr f ↦
          rw (e, f)
            (inl refl, AtMost-self n.best_diff, λ h. not_nearer-AtMost (distance c) n.best_diff f)
    ]
  ]

  pub nearest_lem :
      (cs : List Config) (n : Nearest)
      → let r = nearest yuv cs n in
        ((r ≡ n) ⊎ ((c : Config) × Among c cs × (is_usable yuv c ≡ true) × (r ≡ place c)))
        × (AtMost r.best_diff n.best_diff)
        × ((d : Config)
            → Among d cs
            → is_usable yuv d ≡ true
            → AtMost r.best_diff (some (distance d)))
  unfolding nearest
  nearest_lem [] n = (inl refl, AtMost-self n.best_diff, λ d m u. absurd m)
  nearest_lem (c ∷ cs) n =
      let n1 = take_nearest yuv c n in
      let r = nearest yuv cs n1 in
      let (kind1, down1, own) = take_nearest_lem c n in
      let (kind, down, all) = nearest_lem cs n1 in
      (
        elim kind [
          | inl same ↦ elim kind1 [
            | inl e ↦ inl (same ∙ e)
            | inr (u, e) ↦ inr (c, inl refl, u, same ∙ e)
          ]
          | inr (d, m, u, e) ↦ inr (d, inr m, u, e)
        ],
        AtMost-trans r.best_diff n1.best_diff n.best_diff down down1,
        λ d m u. elim m [
          | inl e ↦ AtMost-trans r.best_diff n1.best_diff (some (distance d)) down (
              subst (λ x. AtMost n1.best_diff (some (distance x))) (sym e)
                (own (subst (λ x. is_usable yuv x ≡ true) e u)))
          | inr o ↦ all d o u
        ],
      )
