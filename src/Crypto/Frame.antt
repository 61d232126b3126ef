-- ===== src/Crypto/Frame.antt =====
-- src/session/frame_crypto.c: a message under its sequence number. The digest of number and message is
-- the IV, and goes in front of the ciphertext. The session's key is a parameter.
use ihslib.Common.{
  ℕ, ◌+◌, ◌-◌, ◌*◌, ◌/◌, ◌%◌, ◌^◌, Bool, true, false, not, ◌&&◌, ◌||◌, Option, none, some, List, [],
  ◌∷◌, ◌++◌, length, take, drop, ltb, leb, ◌==◌, if◌then◌else◌, sub64,
}
use ihslib.Buffer.Defs.{◌>>=◌}
use ihslib.Packet.Codec.{write_uint32_le, read_uint32_le}
use ihslib.Crypto.Library.{Library}
use ihslib.Crypto.Cbc.{encrypt_with_iv, decrypt_with_iv}

-- `IHS_WriteUInt64LE`.
unfoldable pub write_uint64_le : ℕ → List ℕ
unfolding write_uint32_le
write_uint64_le v = write_uint32_le (v % 2 ^ 32) ++ write_uint32_le (v / 2 ^ 32)

-- `IHS_ReadUInt64LE`.
unfoldable pub read_uint64_le : List ℕ → ℕ
unfolding read_uint32_le
read_uint64_le src = read_uint32_le src 0 + 2 ^ 32 * read_uint32_le src 4

-- `IHS_SessionFrameDecryptResult`.
pub data DecryptResult : Type 0 where
  decrypt_ok : DecryptResult
  old_sequence : DecryptResult
  sequence_mismatch : DecryptResult
  hash_mismatch : DecryptResult
  decrypt_failed : DecryptResult

-- What the decryption leaves: its result, the bytes of `out`, and what it wrote to `actualSequence`.
pub record Decryption : Type 0 where
  pub result : DecryptResult
  pub out : List ℕ
  pub sequence : Option ℕ

-- `memcmp(...) == 0`.
unfoldable pub is_same : List ℕ → List ℕ → Bool
is_same [] [] = true
is_same [] (y ∷ ys) = false
is_same (x ∷ xs) [] = false
is_same (x ∷ xs) (y ∷ ys) = let rest = is_same xs ys in if x == y then rest else false

unfoldable pub compare_sequence : ℕ → ℕ → DecryptResult
compare_sequence actual expected =
    if actual == expected
    then decrypt_ok
    else if ltb actual expected
    then old_sequence
    else sequence_mismatch

module _ (lib : Library) (key : List ℕ) where
  -- `IHS_SessionFrameEncrypt`: `room` is `*outLen` at the call. None for a result that is not 0.
  unfoldable pub encrypt_frame : ℕ → List ℕ → ℕ → Option (List ℕ)
  unfolding write_uint64_le encrypt_with_iv
  encrypt_frame room bytes sequence =
      let plain = write_uint64_le sequence ++ bytes in
      lib.hmac key plain >>= λ iv.
      encrypt_with_iv lib key iv (sub64 room 16) plain >>= λ c. some (iv ++ c)

  -- The decrypted bytes against the digest that came with them, and then against the sequence.
  unfoldable pub check_plain : ℕ → List ℕ → List ℕ → Decryption
  unfolding is_same compare_sequence read_uint64_le
  check_plain expected digest plain =
      let failed : Decryption = record { result = decrypt_failed; out = plain; sequence = none } in
      let mismatch : Decryption = record { result = hash_mismatch; out = plain; sequence = none } in
      let actual = read_uint64_le plain in
      let compared : Decryption = record {
        result = compare_sequence actual expected;
        out = drop 8 plain;
        sequence = some actual;
      } in
      let checked : Decryption = elim (lib.hmac key plain) [
        | none ↦ failed
        | some hash ↦ if is_same hash digest then compared else mismatch
      ] in
      if ltb (length plain) 8 then failed else checked

  -- `IHS_SessionFrameDecrypt` into an empty buffer without offset and suffix, so that `outLen` is the
  -- size of the input. `limit` is that buffer's maximal capacity, and the value none a failed assertion
  -- of it.
  unfoldable pub decrypt_frame : ℕ → List ℕ → ℕ → Option Decryption
  unfolding decrypt_with_iv check_plain
  decrypt_frame limit input expected =
      let failed : Decryption = record { result = decrypt_failed; out = []; sequence = none } in
      let decrypted : Decryption =
        elim (decrypt_with_iv lib key (take 16 input) (length input) (drop 16 input)) [
          | none ↦ failed
          | some plain ↦ check_plain expected (take 16 input) plain
        ] in
      if leb (length input) 16 || not ((length input - 16) % 16 == 0)
      then some failed
      else if ltb 0 limit && ltb limit (length input)
      then none
      else some decrypted
