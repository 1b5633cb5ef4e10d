-- ===== src/Crypto/Computes.antt =====
-- What an operation of default/CryptoClient.cpp that was fed all of its data has computed.
use android_vendor_extra_fac.Common.{
  ℕ, zero, suc, ◌≤◌, ◌≡◌, refl, sym, ap, ◌∙◌, subst, true, false, inl, inr, [], ◌∷◌, ◌++◌, Option,
  none, some, arith, Bytes, length, take, drop, length-drop, length-take, take-append-drop,
  Bool-cases, Option-cases, append_assoc, append-nil, none≢some,
}
use android_vendor_extra_fac.Crypto.Keystore.{SecurityLevel, is_ok, ok, output}
use android_vendor_extra_fac.Crypto.Operations.{chunk_size, feed, finish_operation, run_operation}
use android_vendor_extra_fac.Crypto.Keys.{KeystoreLaws}
use android_vendor_extra_fac.Crypto.Running.{is_ok→ok, feed-Kept}

module _ (level : SecurityLevel) where
  feed_goes_on :
      (fuel b : ℕ) (op : level.Operation) (bytes accum : Bytes) (k : level.State)
      → let (status, out, k1) = level.update op (take chunk_size (b ∷ bytes)) k in
        is_ok status ≡ true
        → feed level (suc fuel) op (b ∷ bytes) accum k
          ≡ feed level fuel op (drop chunk_size (b ∷ bytes)) (accum ++ output out) k1
  unfolding feed
  feed_goes_on fuel b op bytes accum k e = rw (e) refl

  feed_stops :
      (fuel b : ℕ) (op : level.Operation) (bytes accum : Bytes) (k : level.State)
      → is_ok (level.update op (take chunk_size (b ∷ bytes)) k).0 ≡ false
      → (feed level (suc fuel) op (b ∷ bytes) accum k).0 ≡ none
  unfolding feed
  feed_stops fuel b op bytes accum k e = rw (e) refl

module _ {level : SecurityLevel} (laws : KeystoreLaws level) where
  -- The bytes that went in come behind those that were taken before.
  feed_Running :
      (fuel : ℕ) (op : level.Operation) (f : Bytes → Option Bytes)
      → (bytes taken accum result : Bytes) (k : level.State) → length bytes ≤ fuel
      → laws.Running op f taken accum k
      → (feed level fuel op bytes accum k).0 ≡ some result
      → laws.Running op f (taken ++ bytes) result (feed level fuel op bytes accum k).1
  unfolding feed
  feed_Running zero op f [] taken accum result k p r h =
      let same : accum ≡ result = cc in
      subst (λ x. laws.Running op f x result k) (sym (append-nil taken))
        (subst (λ x. laws.Running op f taken x k) same r)
  feed_Running (suc fuel) op f [] taken accum result k p r h =
      let same : accum ≡ result = cc in
      subst (λ x. laws.Running op f x result k) (sym (append-nil taken))
        (subst (λ x. laws.Running op f taken x k) same r)
  feed_Running zero op f (b ∷ bytes) taken accum result k p r h = absurd (omega arith)
  feed_Running (suc fuel) op f (b ∷ bytes) taken accum result k p r h =
      let chunk = take chunk_size (b ∷ bytes) in
      let rest = drop chunk_size (b ∷ bytes) in
      let (status, out, k1) = level.update op chunk k in
      elim (Bool-cases (is_ok status)) [
        | inr e ↦ absurd (none≢some (sym (feed_stops level fuel b op bytes accum k e) ∙ h))
        | inl e ↦
            let on = feed_goes_on level fuel b op bytes accum k e in
            let fed : laws.Running op f (taken ++ chunk) (accum ++ output out) k1 =
              laws.update_Running op f taken accum chunk out k k1 r
                (ap (λ s. (s, out, k1)) (is_ok→ok status e)) in
            let last =
              feed_Running fuel op f rest (taken ++ chunk) (accum ++ output out) result k1
                (omega (arith, length-drop chunk_size (b ∷ bytes))) fed
                (ap (λ x. x.0) (sym on) ∙ h) in
            let whole : taken ++ chunk ++ rest ≡ taken ++ (b ∷ bytes) =
              append_assoc taken chunk rest
              ∙ ap (λ x. taken ++ x) (take-append-drop chunk_size (b ∷ bytes)) in
            subst (λ x. laws.Running op f (taken ++ (b ∷ bytes)) result x) (ap (λ x. x.1) (sym on))
              (subst
                (λ x.
                  laws.Running op f x result (feed level fuel op rest (accum ++ output out) k1).1)
                whole last)
      ]

  feed_answers :
      (fuel : ℕ) (op : level.Operation) (f : Bytes → Option Bytes)
      → (bytes taken accum : Bytes) (k : level.State) → length bytes ≤ fuel
      → laws.Answering k
      → laws.Running op f taken accum k
      → (result : Bytes) × ((feed level fuel op bytes accum k).0 ≡ some result)
  unfolding feed
  feed_answers zero op f [] taken accum k p a r = (accum, refl)
  feed_answers (suc fuel) op f [] taken accum k p a r = (accum, refl)
  feed_answers zero op f (b ∷ bytes) taken accum k p a r = absurd (omega arith)
  feed_answers (suc fuel) op f (b ∷ bytes) taken accum k p a r =
      let chunk = take chunk_size (b ∷ bytes) in
      let rest = drop chunk_size (b ∷ bytes) in
      let (status, out, k1) = level.update op chunk k in
      let well : status ≡ ok =
        laws.update_answers op f taken accum chunk k
          (omega (arith, length-take chunk_size (b ∷ bytes))) a r in
      let (result, e) =
        feed_answers fuel op f rest (taken ++ chunk) (accum ++ output out) k1
          (omega (arith, length-drop chunk_size (b ∷ bytes))) (laws.update_Answering op chunk k a)
          (laws.update_Running op f taken accum chunk out k k1 r (ap (λ s. (s, out, k1)) well)) in
      (result, ap (λ x. x.0) (feed_goes_on level fuel b op bytes accum k (ap is_ok well)) ∙ e)

  finish_result :
      (op : level.Operation) (f : Bytes → Option Bytes) (taken accum result : Bytes)
      → (k : level.State) → laws.Running op f taken accum k
      → (finish_operation level op accum k).0 ≡ some result
      → f taken ≡ some result
  unfolding finish_operation
  finish_result op f taken accum result k r h =
      let (status, out, k1) = level.finish op k in
      elim (Bool-cases (is_ok status)) [
        | inr e ↦
            let failed : (finish_operation level op accum k).0 ≡ none = rw (e) refl in
            absurd (none≢some (sym failed ∙ h))
        | inl e ↦
            let done : (finish_operation level op accum k).0 ≡ some (accum ++ output out) =
              rw (e) refl in
            laws.finish_Running op f taken accum out k k1 r
              (ap (λ s. (s, out, k1)) (is_ok→ok status e))
            ∙ sym done
            ∙ h
      ]

  finish_answers :
      (op : level.Operation) (f : Bytes → Option Bytes) (taken accum result : Bytes)
      → (k : level.State) → laws.Answering k
      → laws.Running op f taken accum k
      → f taken ≡ some result
      → (finish_operation level op accum k).0 ≡ some result
  unfolding finish_operation
  finish_answers op f taken accum result k a r h =
      let (status, out, k1) = level.finish op k in
      let well : status ≡ ok = laws.finish_answers op f taken accum result k a r h in
      let done : (finish_operation level op accum k).0 ≡ some (accum ++ output out) =
        rw (ap is_ok well) refl in
      done ∙ sym (laws.finish_Running op f taken accum out k k1 r (ap (λ s. (s, out, k1)) well)) ∙ h

  -- What comes out of an operation is what it computes of all the bytes that went in.
  pub run_operation_result :
      (op : level.Operation) (f : Bytes → Option Bytes) (bytes result : Bytes) (k : level.State)
      → laws.Running op f [] [] k
      → (run_operation level op bytes k).0 ≡ some result
      → f bytes ≡ some result
  unfolding run_operation
  run_operation_result op f bytes result k r h =
      let (fed, k1) = feed level (length bytes) op bytes [] k in
      elim (Option-cases fed) [
        | inl e ↦
            let failed : (run_operation level op bytes k).0 ≡ none = rw (e, run_operation) refl in
            absurd (none≢some (sym failed ∙ h))
        | inr (accum, e) ↦
            let end : (run_operation level op bytes k).0 ≡ (finish_operation level op accum k1).0 =
              rw (e, run_operation) refl in
            finish_result op f bytes accum result k1
              (feed_Running (length bytes) op f bytes [] [] accum k (omega arith) r e) (sym end ∙ h)
      ]

  pub run_operation_answers :
      (op : level.Operation) (f : Bytes → Option Bytes) (bytes result : Bytes) (k : level.State)
      → laws.Answering k
      → laws.Running op f [] [] k
      → f bytes ≡ some result
      → (run_operation level op bytes k).0 ≡ some result
  unfolding run_operation
  run_operation_answers op f bytes result k a r h =
      let (accum, e) = feed_answers (length bytes) op f bytes [] [] k (omega arith) a r in
      let k1 = (feed level (length bytes) op bytes [] k).1 in
      let end : (run_operation level op bytes k).0 ≡ (finish_operation level op accum k1).0 =
        rw (e, run_operation) refl in
      end
      ∙ finish_answers op f bytes accum result k1
          ((feed-Kept laws (length bytes) op bytes [] k).1 a)
          (feed_Running (length bytes) op f bytes [] [] accum k (omega arith) r e) h
