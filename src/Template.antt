-- ===== src/Template.antt =====
-- default/FaceTemplateSerializer.cpp and its header: the template record and its binary format.
pub mod Checksum
pub mod Layout
pub mod Decode
pub mod RoundTrip
pub mod Tamper
use android_vendor_extra_fac.Common.{
  ℕ, ◌+◌, ◌-◌, ◌*◌, ◌%◌, ◌^◌, Bool, true, false, not, [], ◌∷◌, ◌++◌, ltb, ◌==◌, if◌then◌else◌,
  Bytes, length, take, drop, replicate, is_empty, ℤ, to_word, of_word, le_bytes, le_word, bit_xor,
}
use android_vendor_extra_fac.Crypto.{Crypto}

-- `struct FaceTemplate`
pub record FaceTemplate : Type 0 where
  pub version : ℕ
  pub face_id : ℤ
  pub user_id : ℤ
  pub template_data : Bytes
  pub checksum : ℕ
  pub mac : Bytes

-- One round of the FNV-1a loop on a `uint32_t`.
unfoldable pub hash_byte : ℕ → ℕ → ℕ
hash_byte hash byte = bit_xor hash byte * 16777619 % 2 ^ 32

unfoldable pub hash_bytes : ℕ → Bytes → ℕ
hash_bytes hash [] = hash
hash_bytes hash (byte ∷ rest) = hash_bytes (hash_byte hash byte) rest

unfoldable pub calculate_checksum : Bytes → ℕ
calculate_checksum bytes = hash_bytes 2166136261 bytes

-- `memcpy(dst + offset, src, src.size())` into a vector.
unfoldable pub memcpy : Bytes → ℕ → Bytes → Bytes
memcpy dst offset src = take offset dst ++ (src ++ drop (offset + length src) dst)

-- The buffer before the MAC: the fields written one behind the other, then the checksum of them.
unfoldable pub write_fields : FaceTemplate → Bytes
write_fields t =
    let template_size = length t.template_data % 2 ^ 32 in
    let buffer : Bytes = replicate (4 + 4 + 4 + 4 + template_size + 4) 0 in
    let buffer1 = memcpy buffer 0 (le_bytes (t.version % 2 ^ 32)) in
    let buffer2 = memcpy buffer1 4 (le_bytes (to_word t.face_id)) in
    let buffer3 = memcpy buffer2 8 (le_bytes (to_word t.user_id)) in
    let buffer4 = memcpy buffer3 12 (le_bytes template_size) in
    let buffer5 =
      if ltb 0 template_size
      then memcpy buffer4 16 (take template_size t.template_data)
      else buffer4 in
    let offset = 16 + template_size in
    let buffer6 = memcpy buffer5 offset (le_bytes (calculate_checksum (take offset buffer5))) in
    take (offset + 4) buffer6

abbrev pub mac_size : ℕ
mac_size = 32

abbrev pub min_size : ℕ
min_size = 4 + 4 + 4 + 4 + 4 + mac_size

-- What `deserialize` does behind the MAC check. `out` is the caller's template, which keeps what was
-- read before a failure.
unfoldable pub read_fields : ℕ → Bytes → FaceTemplate → Bool × FaceTemplate
read_fields current_version bytes out =
    let out1 = record out { mac = drop (length bytes - mac_size) bytes; version = le_word bytes } in
    let out2 = record out1 {
      face_id = of_word (le_word (drop 4 bytes));
      user_id = of_word (le_word (drop 8 bytes));
    } in
    let template_size = le_word (drop 12 bytes) in
    let out3 = record out2 { template_data = take template_size (drop 16 bytes) } in
    let stored_checksum = le_word (drop (16 + template_size) bytes) in
    let calculated_checksum = calculate_checksum (take (16 + template_size) bytes) in
    if not (out1.version == current_version)
    then (false, out1)
    else if not (length bytes == min_size + template_size)
    then (false, out2)
    else if not (stored_checksum == calculated_checksum)
    then (false, out3)
    else (true, record out3 { checksum = stored_checksum })

module _ (crypto : Crypto) where
  unfoldable pub serialize : FaceTemplate → crypto.State → Bytes × crypto.State
  serialize t k =
      let buffer = write_fields t in
      let (mac, k1) = crypto.generate_mac buffer k in
      if is_empty mac then ([], k1) else (buffer ++ mac, k1)

  -- The result is the returned flag, the caller's template and the keystore's state.
  unfoldable pub deserialize :
      ℕ → Bytes → FaceTemplate → crypto.State → Bool × FaceTemplate × crypto.State
  deserialize current_version bytes out k =
      if ltb (length bytes) min_size
      then (false, out, k)
      else let actual_data = take (length bytes - mac_size) bytes in
        let stored_mac = drop (length bytes - mac_size) bytes in
        let (verified, k1) = crypto.verify_mac actual_data stored_mac k in
        let (valid, out') = read_fields current_version bytes out in
        if verified then (valid, out', k1) else (false, out, k1)
