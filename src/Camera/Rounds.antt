-- ===== src/Camera/Rounds.antt =====
-- The rounds in which `start` of default/Camera2NdkBackend.cpp opens the camera keep account of what they
-- made, and are two at most.
use android_vendor_extra_fac.Common.{
  ℕ, suc, ◌≡◌, refl, ◌⊎◌, subst, Bool, true, false, ◌&&◌, inl, inr, arith, Bool-cases, ◌==◌,
}
use android_vendor_extra_fac.VendorCode.{camera_open_failed}
use android_vendor_extra_fac.Camera.Ndk.{CameraNdk}
use android_vendor_extra_fac.Camera.Backend.{Handles, System, fail}
use android_vendor_extra_fac.Camera.Starting.{
  Attempt, opened, failed, not_opened, clear_warm, probe, turn, attempt_open, reprobe, open_loop,
}
use android_vendor_extra_fac.Camera.Balance.{NdkLaws}
use android_vendor_extra_fac.Camera.Outcomes.{
  Underway, Outcome, outcome, fail-Outcome, then-Outcome,
}
use android_vendor_extra_fac.Camera.Outcomes.{Outcome-true, Outcome-false}
use android_vendor_extra_fac.Camera.Opening.{NoOutput, NoReader, probe-Outcome}
use android_vendor_extra_fac.Camera.OneRound.{AttemptOutcome, attempt_open_lem}

Attempt-cases : (a : Attempt) → (a ≡ opened) ⊎ ((a ≡ failed) ⊎ (a ≡ not_opened))
Attempt-cases opened = inl refl
Attempt-cases failed = inr (inl refl)
Attempt-cases not_opened = inr (inr refl)

module _ {ndk : CameraNdk} (laws : NdkLaws ndk) where
  reprobe-Outcome :
      (base : ℕ) (P : Handles ndk.Handle → Type 0) (s : System ndk)
      → Underway laws base P s
      → Outcome laws base (Underway laws base P) (reprobe s).0 (reprobe s).1
  unfolding reprobe turn
  reprobe-Outcome base P s u =
      then-Outcome laws base (Underway laws base P) (Underway laws base P)
        (probe 80 (record s { warm = clear_warm })) (λ t. (true, turn t))
        (probe-Outcome laws base 80 P (record s { warm = clear_warm }) u) (λ t v. v)

  -- A round of the loop, if what follows a second try is accounted for.
  open_round :
      (base fuel open_attempt : ℕ) (used_warm_id : Bool) (s : System ndk)
      → Underway laws base NoReader s
      → ((open_attempt == 0 && used_warm_id) ≡ true
          → (t : System ndk) → Underway laws base NoReader t
          → let (went, t1) = open_loop fuel (suc open_attempt) false t in
            Outcome laws base (Underway laws base NoOutput) went t1)
      → let (went, s1) = open_loop (suc fuel) open_attempt used_warm_id s in
        Outcome laws base (Underway laws base NoOutput) went s1
  unfolding open_loop
  open_round base fuel open_attempt used_warm_id s u next =
      let (attempt, s1) = attempt_open s in
      let (again, s2) = reprobe s1 in
      let done = attempt_open_lem laws base s u in
      let goal = Underway laws base NoOutput in
      let loop = open_loop (suc fuel) open_attempt used_warm_id s in
      elim (Attempt-cases attempt) [
        | inl e ↦
            outcome laws base goal loop (true, s1) (rw (e, open_loop) refl)
              (subst (λ a. AttemptOutcome laws base a s1) e done)
        | inr (inl e) ↦
            outcome laws base goal loop (false, s1) (rw (e, open_loop) refl)
              (subst (λ a. AttemptOutcome laws base a s1) e done)
        | inr (inr e) ↦
            let shut = subst (λ a. AttemptOutcome laws base a s1) e done in
            elim (Bool-cases (open_attempt == 0 && used_warm_id)) [
              | inr f ↦
                  outcome laws base goal loop (fail camera_open_failed s1)
                    (rw (e, open_loop) (rw (f) refl))
                    (fail-Outcome laws base goal camera_open_failed s1 shut.0 shut.2 (omega arith)
                      (omega arith))
              | inl f ↦
                  let sought = reprobe-Outcome base NoReader s1 shut in
                  let found = Underway laws base NoReader in
                  elim (Bool-cases again) [
                    | inr g ↦
                        outcome laws base goal loop (false, s2) (rw (e, open_loop) (rw (f, g) refl))
                          (Outcome-false laws base found (reprobe s1) sought g)
                    | inl g ↦
                        outcome laws base goal loop (open_loop fuel (suc open_attempt) false s2)
                          (rw (e, open_loop) (rw (f, g) refl))
                          (next f s2 (Outcome-true laws base found (reprobe s1) sought g))
                  ]
            ]
      ]

  pub open_loop-Outcome :
      (base : ℕ) (used_warm_id : Bool) (s : System ndk)
      → Underway laws base NoReader s
      → let (went, s1) = open_loop 2 0 used_warm_id s in
        Outcome laws base (Underway laws base NoOutput) went s1
  open_loop-Outcome base used_warm_id s u =
      open_round base 1 0 used_warm_id s u
        (λ e t v. open_round base 0 1 false t v (λ f. absurd (not_both f)))
    where
      not_both : false ≡ true → ⊥
      not_both e = cc

module _ {ndk : CameraNdk} where
  -- Two numbers of rounds that agree on a second try agree on this one.
  same_round :
      (fuel more open_attempt : ℕ) (used_warm_id : Bool) (s : System ndk)
      → ((open_attempt == 0 && used_warm_id) ≡ true
          → (t : System ndk)
          → open_loop fuel (suc open_attempt) false t ≡ open_loop more (suc open_attempt) false t)
      → open_loop (suc fuel) open_attempt used_warm_id s
        ≡ open_loop (suc more) open_attempt used_warm_id s
  unfolding open_loop
  same_round fuel more open_attempt used_warm_id s next =
      let (attempt, s1) = attempt_open s in
      let (again, s2) = reprobe s1 in
      elim (Attempt-cases attempt) [
        | inl e ↦ rw (e, open_loop) refl
        | inr (inl e) ↦ rw (e, open_loop) refl
        | inr (inr e) ↦ elim (Bool-cases (open_attempt == 0 && used_warm_id)) [
          | inr f ↦ rw (e, open_loop) (rw (f) refl)
          | inl f ↦ elim (Bool-cases again) [
            | inr g ↦ rw (e, open_loop) (rw (f, g) refl)
            | inl g ↦ rw (e, open_loop) (rw (f, g) (next f s2))
          ]
        ]
      ]

  -- The loop without a bound that opens the camera ends in its second round at the latest: with any
  -- greater number of rounds it does the same.
  pub open_loop_enough :
      (more : ℕ) (used_warm_id : Bool) (s : System ndk)
      → open_loop (suc (suc more)) 0 used_warm_id s ≡ open_loop 2 0 used_warm_id s
  open_loop_enough more used_warm_id s =
      same_round (suc more) 1 0 used_warm_id s
        (λ e t. same_round more 0 1 false t (λ f. absurd (not_both f)))
    where
      not_both : false ≡ true → ⊥
      not_both e = cc
