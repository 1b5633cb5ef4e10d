-- ===== src/Camera/Nv21Pixels.antt =====
-- Where packAImageToNv21 of default/Camera2NdkBackend.cpp puts the bytes of chroma.
use android_vendor_extra_fac.Common.{
  ℕ, zero, suc, ◌+◌, ◌*◌, ◌≤◌, ◌<◌, ◌≡◌, ◌≢◌, ◌⊎◌, refl, sym, ap, ◌∙◌, subst, inl, inr, [], ◌∷◌,
  Option, none, some, arith, ltb, Bytes, length, get_elem?, set, ◌>>=◌, Bool-cases, Option-cases,
  none≢some, some_injective, ltb→lt,
}
use android_vendor_extra_fac.Camera.Nv21.{copy_byte, interleave}

get-set_other : (xs : Bytes) (i j b : ℕ) → i ≢ j → get_elem? (set xs i b) j ≡ get_elem? xs j
get-set_other [] i j b h = refl
get-set_other (x ∷ xs) zero zero b h = absurd (h refl)
get-set_other (x ∷ xs) zero (suc j) b h = refl
get-set_other (x ∷ xs) (suc i) zero b h = refl
get-set_other (x ∷ xs) (suc i) (suc j) b h = get-set_other xs i j b (λ e. h (ap suc e))

get-set_same : (xs : Bytes) (i b : ℕ) → i < length xs → get_elem? (set xs i b) i ≡ some b
get-set_same [] i b h = absurd (omega arith)
get-set_same (x ∷ xs) zero b h = refl
get-set_same (x ∷ xs) (suc i) b h = get-set_same xs i b (omega arith)

-- The first part of a chain that gave something.
pub chain_parts :
    (r : Option Bytes) (f : Bytes → Option Bytes) (last : Bytes)
    → (r >>= f) ≡ some last
    → (made : Bytes) × (r ≡ some made) × (f made ≡ some last)
chain_parts none f last h = absurd (none≢some h)
chain_parts (some made) f last h = (made, refl, h)

-- A byte copied is at its place and no other place is changed.
copy_byte_lem :
    (out : Bytes) (to : ℕ) (src : Bytes) (from : ℕ) (made : Bytes)
    → copy_byte out to src from ≡ some made
    → (get_elem? made to ≡ get_elem? src from)
      × ((j : ℕ) → j ≢ to → get_elem? made j ≡ get_elem? out j)
unfolding copy_byte
copy_byte_lem out to src from made h = elim (Option-cases (get_elem? src from)) [
  | inl e ↦
      let gone : copy_byte out to src from ≡ none = rw (e) refl in absurd (none≢some (sym gone ∙ h))
  | inr (b, e) ↦ elim (Bool-cases (ltb to (length out))) [
    | inr f ↦
        let gone : copy_byte out to src from ≡ none = rw (e, f) refl in
        absurd (none≢some (sym gone ∙ h))
    | inl f ↦
        let done : copy_byte out to src from ≡ some (set out to b) = rw (e, f) refl in
        let same : set out to b ≡ made = some_injective (sym done ∙ h) in
        (
          ap (λ x. get_elem? x to) (sym same)
              ∙ get-set_same out to b (ltb→lt to (length out) f)
              ∙ sym e,
          λ j apart.
              ap (λ x. get_elem? x j) (sym same) ∙ get-set_other out to j b (λ q. apart (sym q)),
        )
  ]
]

-- A row holds the pairs of V and U from its place on, and nothing before or behind it is changed.
pub interleave_lem :
    (pairs x n dst u_line u_px v_line v_px : ℕ) (u v out made : Bytes)
    → x + pairs ≡ n
    → interleave pairs x dst u_line u_px v_line v_px u v out ≡ some made
    → ((i : ℕ)
        → x ≤ i
        → i < n
        → (get_elem? made (dst + 2 * i) ≡ get_elem? v (v_line + i * v_px))
          × (get_elem? made (dst + 2 * i + 1) ≡ get_elem? u (u_line + i * u_px)))
      × ((j : ℕ) → (j < dst + 2 * x) ⊎ (dst + 2 * n ≤ j) → get_elem? made j ≡ get_elem? out j)
unfolding interleave
interleave_lem zero x n dst u_line u_px v_line v_px u v out made e h = (
  λ i low high. absurd (omega arith),
  λ j apart. ap (λ r. get_elem? r j) (sym (some_injective h)),
)
interleave_lem (suc pairs) x n dst u_line u_px v_line v_px u v out made e h =
    let rest = interleave pairs (suc x) dst u_line u_px v_line v_px u v in
    let (out1, c1, h1) =
      chain_parts (copy_byte out (dst + 2 * x) v (v_line + x * v_px))
        (λ r. copy_byte r (dst + 2 * x + 1) u (u_line + x * u_px) >>= rest) made h in
    let (out2, c2, h2) =
      chain_parts (copy_byte out1 (dst + 2 * x + 1) u (u_line + x * u_px)) rest made h1 in
    let (put_v, keep_v) = copy_byte_lem out (dst + 2 * x) v (v_line + x * v_px) out1 c1 in
    let (put_u, keep_u) = copy_byte_lem out1 (dst + 2 * x + 1) u (u_line + x * u_px) out2 c2 in
    let (placed, kept) =
      interleave_lem pairs (suc x) n dst u_line u_px v_line v_px u v out2 made (omega arith) h2 in
    (
      λ i low high. elim (Bool-cases (ltb x i)) [
        | inl f ↦ placed i (omega (arith, ltb→lt x i f)) high
        | inr f ↦
            let here : i ≡ x = ground arith in
            subst
              (λ k.
                (get_elem? made (dst + 2 * k) ≡ get_elem? v (v_line + k * v_px))
                × (get_elem? made (dst + 2 * k + 1) ≡ get_elem? u (u_line + k * u_px)))
              (sym here)
              (
                kept (dst + 2 * x) (inl (omega arith))
                    ∙ keep_u (dst + 2 * x) (λ q. omega arith)
                    ∙ put_v,
                kept (dst + 2 * x + 1) (inl (omega arith)) ∙ put_u,
              )
      ],
      λ j apart. elim apart [
        | inl before ↦
            kept j (inl (omega arith)) ∙ keep_u j (λ q. omega arith) ∙ keep_v j (λ q. omega arith)
        | inr behind ↦
            kept j (inr behind) ∙ keep_u j (λ q. omega arith) ∙ keep_v j (λ q. omega arith)
      ],
    )
