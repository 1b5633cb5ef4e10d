-- ===== src/Camera/Outcomes.antt =====
-- How `start` of default/Camera2NdkBackend.cpp goes on or is given up, for each kind of its parts.
use android_vendor_extra_fac.Common.{
  ℕ, ◌+◌, ◌≤◌, ◌≡◌, refl, sym, ◌∙◌, subst, Bool, true, false, not, ◌&&◌, ◌||◌, inl, inr, Option,
  arith, Bool-cases,
}
use android_vendor_extra_fac.Camera.Ndk.{CameraNdk}
use android_vendor_extra_fac.Camera.Backend.{
  Handles, System, is_null, teardown, note_failure, fail, ◌then◌, acquire, perform,
}
use android_vendor_extra_fac.Camera.Balance.{count, NdkLaws, live, release_in_use, Holds, Released}

module _ {ndk : CameraNdk} (laws : NdkLaws ndk) where
  -- `start` under way, and given up.
  abbrev pub Underway : ℕ → (Handles ndk.Handle → Type 0) → System ndk → Type 0
  Underway base P s =
      Holds laws base s
      × P s.backend.handles
      × (s.backend.is_running ≡ false)
      × (s.backend.last_start_failure ≡ 0)

  abbrev pub GivenUp : ℕ → System ndk → Type 0
  GivenUp base s =
      Released laws base s
      × (s.backend.is_running ≡ false)
      × (50 ≤ s.backend.last_start_failure)
      × (s.backend.last_start_failure ≤ 58)

  abbrev pub Outcome : ℕ → (System ndk → Type 0) → Bool → System ndk → Type 0
  Outcome base P true s = P s
  Outcome base P false s = GivenUp base s

  pub outcome :
      (base : ℕ) (P : System ndk → Type 0) (r r' : Bool × System ndk)
      → r ≡ r'
      → Outcome base P r'.0 r'.1
      → Outcome base P r.0 r.1
  outcome base P r r' e h = subst (λ x. Outcome base P x.0 x.1) (sym e) h

  pub Outcome-true :
      (base : ℕ) (P : System ndk → Type 0) (r : Bool × System ndk)
      → Outcome base P r.0 r.1
      → r.0 ≡ true
      → P r.1
  Outcome-true base P r h e = subst (λ b. Outcome base P b r.1) e h

  pub Outcome-false :
      (base : ℕ) (P : System ndk → Type 0) (r : Bool × System ndk)
      → Outcome base P r.0 r.1
      → r.0 ≡ false
      → GivenUp base r.1
  Outcome-false base P r h e = subst (λ b. Outcome base P b r.1) e h

  pub fail-Outcome :
      (base : ℕ) (P : System ndk → Type 0) (code : ℕ) (s : System ndk)
      → Holds laws base s
      → s.backend.is_running ≡ false
      → 50 ≤ code
      → code ≤ 58
      → Outcome base P (fail code s).0 (fail code s).1
  unfolding fail note_failure teardown
  fail-Outcome base P code s h r low high =
      ((refl, omega (arith, release_in_use laws s.backend.handles s.camera)), r, low, high)

  pub then-Outcome :
      (base : ℕ) (P Q : System ndk → Type 0) (r : Bool × System ndk)
      → (f : System ndk → Bool × System ndk) → Outcome base P r.0 r.1
      → ((s : System ndk) → P s → Outcome base Q (f s).0 (f s).1)
      → Outcome base Q (r then f).0 (r then f).1
  then-Outcome base P Q r f h g = elim (Bool-cases r.0) [
    | inl e ↦
        outcome base Q (r then f) (f r.1) (rw (e) refl)
          (g r.1 (subst (λ b. Outcome base P b r.1) e h))
    | inr e ↦
        outcome base Q (r then f) (false, r.1) (rw (e) refl) (subst (λ b. Outcome base P b r.1) e h)
  ]

  pub acquire-Outcome :
      (base : ℕ) (P : Handles ndk.Handle → Type 0) (Q : Handles ndk.Handle → Type 0)
      → (put : Option ndk.Handle → Handles ndk.Handle → Handles ndk.Handle)
      → (call : Handles ndk.Handle → ndk.State → Bool × Option ndk.Handle × ndk.State)
      → (may_be_null : Bool) (code : ℕ) (s : System ndk) → Underway base P s
      → ((r : Handles ndk.Handle) (k : ndk.State)
          → laws.in_use (call r k).2 ≡ laws.in_use k + count (call r k).1)
      → ((h : Option ndk.Handle) (r : Handles ndk.Handle) → P r → live (put h r) ≡ live r + count h)
      → ((h : Option ndk.Handle) (r : Handles ndk.Handle)
          → P r
          → (may_be_null || not (is_null h)) ≡ true
          → Q (put h r))
      → 50 ≤ code
      → code ≤ 58
      → let (went, s1) = acquire put call may_be_null code s in
        Outcome base (Underway base Q) went s1
  unfolding acquire
  acquire-Outcome base P Q put call may_be_null code s u more adds keeps low high =
      let (holds, p, stopped, fine) = u in
      let (ok, h, k) = call s.backend.handles s.camera in
      let s1 = record s {
        backend = record s.backend { handles = put h s.backend.handles };
        camera = k;
      } in
      let holds1 : Holds laws base s1 =
        omega (arith, more s.backend.handles s.camera, adds h s.backend.handles p) in
      let r = acquire put call may_be_null code s in
      elim (Bool-cases (ok && (may_be_null || not (is_null h)))) [
        | inl e ↦
            let non_null : (may_be_null || not (is_null h)) ≡ true = ground arith in
            outcome base (Underway base Q) r (true, s1) (rw (e) refl)
              (holds1, keeps h s.backend.handles p non_null, stopped, fine)
        | inr e ↦
            outcome base (Underway base Q) r (fail code s1) (rw (e) refl)
              (fail-Outcome base (Underway base Q) code s1 holds1 stopped low high)
      ]

  pub perform-Outcome :
      (base : ℕ) (P : Handles ndk.Handle → Type 0)
      → (call : Handles ndk.Handle → ndk.State → Bool × ndk.State) → (code : ℕ) (s : System ndk)
      → Underway base P s
      → ((r : Handles ndk.Handle) (k : ndk.State) → laws.in_use (call r k).1 ≡ laws.in_use k)
      → 50 ≤ code
      → code ≤ 58
      → Outcome base (Underway base P) (perform call code s).0 (perform call code s).1
  unfolding perform
  perform-Outcome base P call code s u same low high =
      let (holds, p, stopped, fine) = u in
      let (ok, k) = call s.backend.handles s.camera in
      let s1 = record s { camera = k } in
      let holds1 : Holds laws base s1 = same s.backend.handles s.camera ∙ holds in
      let r = perform call code s in
      elim (Bool-cases ok) [
        | inl e ↦
            outcome base (Underway base P) r (true, s1) (rw (e) refl) (holds1, p, stopped, fine)
        | inr e ↦
            outcome base (Underway base P) r (fail code s1) (rw (e) refl)
              (fail-Outcome base (Underway base P) code s1 holds1 stopped low high)
      ]
