-- ===== src/Template/Decode.antt =====
-- What FaceTemplateSerializer.cpp accepts: exactly its own output.
use mathlib.Core.List.{append_assoc}
use native.Mathlib.Nat.{mod-eq_of_lt}
use android_vendor_extra_fac.Common.{
  ℕ, zero, suc, ◌+◌, ◌-◌, ◌^◌, ◌≤◌, ◌<◌, ◌≡◌, refl, sym, ap, ◌∙◌, true, List, [], ◌∷◌, ◌++◌, arith,
  Bytes, length, take, drop, length-append, take-append, take-append-drop, length-take, length-drop,
  IsByte, All, to_word, of_word, le_bytes, le_word,
}
use android_vendor_extra_fac.Crypto.{Crypto}
use android_vendor_extra_fac.Template.{
  FaceTemplate, calculate_checksum, write_fields, read_fields, mac_size, min_size, deserialize,
}
use android_vendor_extra_fac.Template.Layout.{header, body, write_fields_layout}

drop_twice {ℓ} : {A : Type ℓ} (n m k : ℕ) (xs : List A) → n + m ≡ k → drop n (drop m xs) ≡ drop k xs
drop_twice n zero k xs e = ap (λ i. drop i xs) (omega arith)
drop_twice zero (suc m) k [] e = let e' : k ≡ suc m = omega arith in rw e'
drop_twice (suc n) (suc m) k [] e = let e' : k ≡ suc (n + suc m) = omega arith in rw e'
drop_twice n (suc m) zero (x ∷ xs) e = absurd (omega arith)
drop_twice n (suc m) (suc k) (x ∷ xs) e = drop_twice n m k xs (omega arith)

All-drop {ℓ κ} : {A : Type ℓ} (P : A → Type κ) (n : ℕ) (xs : List A) → All P xs → All P (drop n xs)
All-drop P zero xs h = h
All-drop P (suc n) [] h = h
All-drop P (suc n) (x ∷ xs) h = All-drop P n xs h.1

-- The first word of a long enough byte sequence, and the rest.
word_split :
    (bytes : Bytes)
    → 4 ≤ length bytes
    → All IsByte bytes
    → (bytes ≡ le_bytes (le_word bytes) ++ drop 4 bytes) × (le_word bytes < 2 ^ 32)
word_split [] h v = absurd (omega arith)
word_split (a ∷ []) h v = absurd (omega arith)
word_split (a ∷ b ∷ []) h v = absurd (omega arith)
word_split (a ∷ b ∷ c ∷ []) h v = absurd (omega arith)
word_split (a ∷ b ∷ c ∷ d ∷ rest) h (pa, (pb, (pc, (pd, _)))) = (ground arith, omega arith)

to_word-of_word : (w : ℕ) → w < 2 ^ 32 → to_word (of_word w) ≡ w
to_word-of_word w h = ground arith

-- The tests that an accepted byte sequence has passed.
pub record Passed (current_version : ℕ) (bytes : Bytes) : Type 0 where
  pub version : le_word bytes ≡ current_version
  pub total : length bytes ≡ min_size + le_word (drop 12 bytes)
  pub sum :
      le_word (drop (16 + le_word (drop 12 bytes)) bytes)
      ≡ calculate_checksum (take (16 + le_word (drop 12 bytes)) bytes)

abbrev pub accepted : Bytes → FaceTemplate
accepted bytes = record {
  version = le_word bytes;
  face_id = of_word (le_word (drop 4 bytes));
  user_id = of_word (le_word (drop 8 bytes));
  template_data = take (le_word (drop 12 bytes)) (drop 16 bytes);
  checksum = le_word (drop (16 + le_word (drop 12 bytes)) bytes);
  mac = drop (length bytes - mac_size) bytes;
}

pub read_fields_accepts :
    (current_version : ℕ) (bytes : Bytes) (out : FaceTemplate)
    → (read_fields current_version bytes out).0 ≡ true
    → Passed current_version bytes × ((read_fields current_version bytes out).1 ≡ accepted bytes)
unfolding read_fields
read_fields_accepts current_version bytes out h = ground arith

-- The word at an offset that is in range.
word_at :
    (offset next : ℕ) (bytes : Bytes)
    → 4 + offset ≡ next
    → next ≤ length bytes
    → All IsByte bytes
    → (drop offset bytes ≡ le_bytes (le_word (drop offset bytes)) ++ drop next bytes)
      × (le_word (drop offset bytes) < 2 ^ 32)
word_at offset next bytes e h v =
    let (split, fits) =
      word_split (drop offset bytes) (omega (arith, length-drop offset bytes))
        (All-drop IsByte offset bytes v) in
    (rw (drop_twice 4 offset next bytes e) at split, fits)

module _ (current_version : ℕ) (bytes : Bytes) (v : All IsByte bytes)
    (p : Passed current_version bytes) where
  size : ℕ
  size = le_word (drop 12 bytes)

  long : min_size + size ≤ length bytes
  unfolding size
  long = omega (arith, p.total)

  length_data : length (accepted bytes).template_data ≡ size
  unfolding size
  length_data =
      omega
        (arith, long, length-take (le_word (drop 12 bytes)) (drop 16 bytes), length-drop 16 bytes)

  fields_split :
      bytes
      ≡ (((le_bytes (le_word bytes) ++ le_bytes (le_word (drop 4 bytes)))
            ++ le_bytes (le_word (drop 8 bytes)))
          ++ le_bytes size)
        ++ drop 16 bytes
  unfolding size
  fields_split =
      (word_at 0 4 bytes refl (omega (arith, long)) v).0
      ∙ ap (◌++◌ (le_bytes (le_word bytes))) (
          (word_at 4 8 bytes refl (omega (arith, long)) v).0
          ∙ ap (◌++◌ (le_bytes (le_word (drop 4 bytes)))) (
              (word_at 8 12 bytes refl (omega (arith, long)) v).0
              ∙ ap (◌++◌ (le_bytes (le_word (drop 8 bytes))))
                  (word_at 12 16 bytes refl (omega (arith, long)) v).0))

  header_split : header (accepted bytes) ++ drop 16 bytes ≡ bytes
  header_split =
      rw
        (
          length_data,
          mod-eq_of_lt (word_at 0 4 bytes refl (omega (arith, long)) v).1,
          to_word-of_word (le_word (drop 4 bytes))
              (word_at 4 8 bytes refl (omega (arith, long)) v).1,
          to_word-of_word (le_word (drop 8 bytes))
              (word_at 8 12 bytes refl (omega (arith, long)) v).1,
        )
        (sym fields_split)

  body_split : body (accepted bytes) ++ drop (16 + size) bytes ≡ bytes
  unfolding size
  body_split =
      append_assoc (header (accepted bytes)) (accepted bytes).template_data (drop (16 + size) bytes)
      ∙ ap (◌++◌ (header (accepted bytes))) (
          rw (← drop_twice size 16 (16 + size) bytes (omega arith))
            (take-append-drop size (drop 16 bytes)))
      ∙ header_split

  covered : take (16 + size) bytes ≡ body (accepted bytes)
  covered =
      ap (take (16 + size)) (sym body_split)
      ∙ take-append (16 + size) (body (accepted bytes)) (drop (16 + size) bytes) (
          omega (
            arith,
            length_data,
            length-append (header (accepted bytes)) (accepted bytes).template_data,
          ))

  tail_split :
      drop (16 + size) bytes
      ≡ le_bytes (calculate_checksum (body (accepted bytes))) ++ (accepted bytes).mac
  unfolding size
  tail_split =
      let mac_offset : 20 + size ≡ length bytes - mac_size = omega (arith, p.total) in
      (word_at (16 + size) (20 + size) bytes (omega arith) (omega (arith, long)) v).0
      ∙ ap (λ (w : ℕ). le_bytes w ++ drop (20 + size) bytes) (p.sum ∙ ap calculate_checksum covered)
      ∙ ap (λ (i : ℕ). le_bytes (calculate_checksum (body (accepted bytes))) ++ drop i bytes)
          mac_offset

  -- The bytes are what `serialize` writes for the template that was read, and its MAC.
  pub accepted_canonical : bytes ≡ write_fields (accepted bytes) ++ (accepted bytes).mac
  unfolding size
  accepted_canonical =
      let t = accepted bytes in
      let sum = le_bytes (calculate_checksum (body t)) in
      sym body_split
      ∙ ap (◌++◌ (body t)) tail_split
      ∙ sym (append_assoc (body t) sum t.mac)
      ∙ ap (λ (b : Bytes). b ++ t.mac) (sym (write_fields_layout t data_fits))
    where
      data_fits : length (accepted bytes).template_data < 2 ^ 32
      data_fits = omega (arith, length_data, word_at 12 16 bytes refl (omega (arith, long)) v)

module _ (crypto : Crypto) where
  deserialize-true :
      (current_version : ℕ) (bytes : Bytes) (out : FaceTemplate) (k : crypto.State)
      → (deserialize crypto current_version bytes out k).0 ≡ true
      → ((crypto.verify_mac
            (take (length bytes - mac_size) bytes)
            (drop (length bytes - mac_size) bytes)
            k).0
          ≡ true)
        × ((read_fields current_version bytes out).0 ≡ true)
        × ((deserialize crypto current_version bytes out k).1
            ≡ (read_fields current_version bytes out).1)
  unfolding deserialize
  deserialize-true current_version bytes out k h = ground arith

  -- No template of another version comes out of `deserialize`.
  pub deserialize_version :
      (current_version : ℕ) (bytes : Bytes) (out : FaceTemplate) (k : crypto.State)
      → (deserialize crypto current_version bytes out k).0 ≡ true
      → (deserialize crypto current_version bytes out k).1.version ≡ current_version
  deserialize_version current_version bytes out k h =
      let (verified, read, same) = deserialize-true current_version bytes out k h in
      let (passed, fields) = read_fields_accepts current_version bytes out read in
      ap (λ (t : FaceTemplate). t.version) same
      ∙ ap (λ (t : FaceTemplate). t.version) fields
      ∙ passed.version

  -- Whatever `deserialize` accepts is the output of `serialize` for the template that it returns:
  -- the version is the current one, the MAC verifies over the rest, and byte for byte the input is
  -- the fields, their checksum and that MAC.
  pub deserialize_accepts :
      (current_version : ℕ) (bytes : Bytes) (out : FaceTemplate) (k : crypto.State)
      → All IsByte bytes
      → (deserialize crypto current_version bytes out k).0 ≡ true
      → let t = (deserialize crypto current_version bytes out k).1 in
        (t.version ≡ current_version)
        × (bytes ≡ write_fields t ++ t.mac)
        × (length t.mac ≡ mac_size)
        × ((crypto.verify_mac (write_fields t) t.mac k).0 ≡ true)
  deserialize_accepts current_version bytes out k v h =
      let (verified, read, same) = deserialize-true current_version bytes out k h in
      let (passed, fields) = read_fields_accepts current_version bytes out read in
      let t = accepted bytes in
      let whole : bytes ≡ write_fields t ++ t.mac =
        accepted_canonical current_version bytes v passed in
      let mac_length : length t.mac ≡ mac_size =
        omega (arith, passed.total, length-drop (length bytes - mac_size) bytes) in
      let front : take (length bytes - mac_size) bytes ≡ write_fields t =
        ap (take (length bytes - mac_size)) whole
        ∙ take-append (length bytes - mac_size) (write_fields t) t.mac
            (omega (arith, ap length whole, length-append (write_fields t) t.mac)) in
      rw (same, fields) (passed.version, whole, mac_length, rw (← front) verified)
