-- ===== src/Template/Checksum.antt =====
-- The FNV-1a checksum of FaceTemplateSerializer.cpp notices every change of a single byte.
use android_vendor_extra_fac.Common.{
  ℕ, ◌*◌, ◌%◌, ◌^◌, ◌<◌, ◌≡◌, ◌≢◌, refl, ap, ◌∙◌, [], ◌∷◌, ◌++◌, arith, Bytes, bit_xor, bit_xor-lt,
  bit_xor_cancel_left, bit_xor_cancel_right, IsByte, All,
}
use android_vendor_extra_fac.Template.{hash_byte, hash_bytes, calculate_checksum}

-- The multiplier is odd, so multiplying by it can be undone modulo 2 ^ 32.
multiply_injective :
    (x y : ℕ) → x < 2 ^ 32 → y < 2 ^ 32 → x * 16777619 % 2 ^ 32 ≡ y * 16777619 % 2 ^ 32 → x ≡ y
multiply_injective x y p q e = undo x p ∙ ap (λ (t : ℕ). t * 899433627 % 2 ^ 32) e ∙ redo
  where
    undo : (z : ℕ) → z < 2 ^ 32 → z ≡ z * 16777619 % 2 ^ 32 * 899433627 % 2 ^ 32
    undo z h = omega arith

    redo : y * 16777619 % 2 ^ 32 * 899433627 % 2 ^ 32 ≡ y
    redo = omega arith

xor_fits : (h b : ℕ) → h < 2 ^ 32 → IsByte b → bit_xor h b < 2 ^ 32
xor_fits h b p q = bit_xor-lt 32 h b p (omega arith)

pub hash_byte-lt : (h b : ℕ) → hash_byte h b < 2 ^ 32
unfolding hash_byte
hash_byte-lt h b = omega arith

hash_byte_cancel_byte :
    (h a b : ℕ) → h < 2 ^ 32 → IsByte a → IsByte b → hash_byte h a ≡ hash_byte h b → a ≡ b
unfolding hash_byte
hash_byte_cancel_byte h a b p q r e =
    bit_xor_cancel_left h a b (multiply_injective _ _ (xor_fits h a p q) (xor_fits h b p r) e)

hash_byte_cancel_hash :
    (g h b : ℕ) → g < 2 ^ 32 → h < 2 ^ 32 → IsByte b → hash_byte g b ≡ hash_byte h b → g ≡ h
unfolding hash_byte
hash_byte_cancel_hash g h b p q r e =
    bit_xor_cancel_right g h b (multiply_injective _ _ (xor_fits g b p r) (xor_fits h b q r) e)

pub hash_bytes-lt : (h : ℕ) (bytes : Bytes) → h < 2 ^ 32 → hash_bytes h bytes < 2 ^ 32
unfolding hash_bytes
hash_bytes-lt h [] p = p
hash_bytes-lt h (b ∷ rest) p = hash_bytes-lt (hash_byte h b) rest (hash_byte-lt h b)

hash_bytes_cancel :
    (g h : ℕ) (bytes : Bytes)
    → g < 2 ^ 32
    → h < 2 ^ 32
    → All IsByte bytes
    → hash_bytes g bytes ≡ hash_bytes h bytes
    → g ≡ h
unfolding hash_bytes
hash_bytes_cancel g h [] p q v e = e
hash_bytes_cancel g h (b ∷ rest) p q v e = hash_byte_cancel_hash g h b p q v.0 (
    hash_bytes_cancel (hash_byte g b) (hash_byte h b) rest (hash_byte-lt g b) (hash_byte-lt h b) v.1
      e)

pub hash_bytes-append :
    (h : ℕ) (xs ys : Bytes) → hash_bytes h (xs ++ ys) ≡ hash_bytes (hash_bytes h xs) ys
unfolding hash_bytes
hash_bytes-append h [] ys = refl
hash_bytes-append h (x ∷ xs) ys = hash_bytes-append (hash_byte h x) xs ys

pub calculate_checksum-lt : (bytes : Bytes) → calculate_checksum bytes < 2 ^ 32
unfolding calculate_checksum
calculate_checksum-lt bytes = hash_bytes-lt 2166136261 bytes (omega arith)

-- Two byte sequences that differ in exactly one byte have different checksums.
pub calculate_checksum_one_byte :
    (front : Bytes) (a b : ℕ) (back : Bytes)
    → IsByte a
    → IsByte b
    → All IsByte back
    → a ≢ b
    → calculate_checksum (front ++ a ∷ back) ≢ calculate_checksum (front ++ b ∷ back)
unfolding calculate_checksum hash_bytes
calculate_checksum_one_byte front a b back p q v ne e =
    let start = hash_bytes 2166136261 front in
    ne (
      hash_byte_cancel_byte start a b (hash_bytes-lt _ front (omega arith)) p q (
        hash_bytes_cancel (hash_byte start a) (hash_byte start b) back (hash_byte-lt start a)
          (hash_byte-lt start b) v (rw (hash_bytes-append, hash_bytes-append) at e)))
