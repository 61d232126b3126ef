-- ===== src/Crypto/Padding.antt =====
-- src/crypto/impl_mbedtls.c: the padding of the last block comes off again, so what is encrypted
-- decrypts to itself.
use ihslib.Common.{
  ℕ, zero, suc, ◌+◌, ◌-◌, ◌*◌, ◌/◌, ◌≤◌, ◌<◌, ◌≡◌, refl, ap, ◌∙◌, true, some, List, [], ◌∷◌, ◌++◌,
  length, take, drop, replicate, get_or, ==_self, drop-append, take-append, take_all, arith,
  length-drop, take-append-drop,
}
use ihslib.Crypto.Library.{Library, IsLawful}
use ihslib.Crypto.Cbc.{pad_block, check_pad, take_off_pad, encrypt_cbc, decrypt_cbc, write_length}
use ihslib.Crypto.Blocks.{Sealed, seal}

check_pad-replicate : (n pad : ℕ) → check_pad n pad (replicate n pad) ≡ true
unfolding check_pad
check_pad-replicate zero pad = refl
check_pad-replicate (suc n) pad = rw (==_self pad, check_pad-replicate n pad) refl

get_or-replicate : (n i a d : ℕ) → i < n → get_or (replicate n a) i d ≡ a
get_or-replicate zero i a d h = absurd (omega arith)
get_or-replicate (suc n) zero a d h = refl
get_or-replicate (suc n) (suc i) a d h = get_or-replicate n i a d (omega arith)

get_or-append_right :
    (xs ys : List ℕ) (i d : ℕ) → length xs ≤ i → get_or (xs ++ ys) i d ≡ get_or ys (i - length xs) d
get_or-append_right [] ys i d h = ap (λ k. get_or ys k d) (omega arith)
get_or-append_right (x ∷ xs) ys zero d h = absurd (omega arith)
get_or-append_right (x ∷ xs) ys (suc i) d h =
    get_or-append_right xs ys i d (omega arith) ∙ ap (λ k. get_or ys k d) (omega arith)

-- The padding of a rest with less than a block.
take_off_pad-pad_block :
    (room len : ℕ) (front rest : List ℕ)
    → length rest < 16
    → len - (16 - length rest) ≤ room
    → take_off_pad room len front (pad_block rest) ≡ some (front ++ rest)
unfolding take_off_pad pad_block
take_off_pad-pad_block room len front rest short le =
    let n = length rest in
    let p = 16 - n in
    let start : take 16 rest ≡ rest = take_all 16 rest (omega arith) in
    let byte : get_or (rest ++ replicate p p) 15 0 ≡ p =
      get_or-append_right rest (replicate p p) 15 0 (omega arith)
      ∙ get_or-replicate p (15 - n) p 0 (omega arith) in
    let pad : drop (16 - p) (rest ++ replicate p p) ≡ replicate p p =
      drop-append (16 - p) rest (replicate p p) (omega arith) in
    let kept : take (16 - p) (rest ++ replicate p p) ≡ rest =
      take-append (16 - p) rest (replicate p p) (omega arith) in
    rw (start, byte, pad, kept, check_pad-replicate p p) (ground arith)

module _ (lib : Library) (key : List ℕ) (lawful : IsLawful lib key) where
  decrypt_cbc_rest :
      (n space : ℕ) (iv bytes : List ℕ) (s : Sealed lib key lawful n iv bytes)
      → 16 * n ≤ length bytes
      → length bytes < 16 * n + 16
      → length bytes ≤ space
      → decrypt_cbc lib key iv space s.cipher ≡ some bytes
  unfolding decrypt_cbc
  decrypt_cbc_rest n space iv bytes s le lt fits =
      let prefix : length s.cipher - 16 ≡ 16 * n = omega (arith, s.size) in
      let rounds : 16 * n / 16 ≡ n = omega arith in
      let unpadded =
        take_off_pad-pad_block space (length s.cipher) (take (16 * n) bytes) (drop (16 * n) bytes)
          (omega (arith, length-drop (16 * n) bytes))
          (omega (arith, length-drop (16 * n) bytes, s.size)) in
      rw
        (
          prefix,
          rounds,
          s.decrypted,
          s.last,
          lawful.decryption_key,
          unpadded,
          take-append-drop (16 * n) bytes,
        )
        (ground (arith, s.size))

  -- What encrypts, with how many bytes, and where it decrypts.
  pub encrypt_cbc_lem :
      (iv bytes : List ℕ) (room : ℕ)
      → length iv ≡ 16
      → write_length (length bytes) ≤ room
      → (c : List ℕ) × (encrypt_cbc lib key iv room bytes ≡ some c)
        × (length c ≡ write_length (length bytes))
        × ((space : ℕ) → length bytes ≤ space → decrypt_cbc lib key iv space c ≡ some bytes)
  unfolding encrypt_cbc write_length
  encrypt_cbc_lem iv bytes room h le =
      let n = length bytes / 16 in
      let s = seal lib key lawful n iv bytes h (omega arith) in
      (
        s.cipher,
        ground (arith, s.encrypted, le),
        omega (arith, s.size),
        λ space fits. decrypt_cbc_rest n space iv bytes s (omega arith) (omega arith) fits,
      )

  -- Under a lawful library and an IV of a block's size, and with room for whole blocks, bytes of
  -- every number are encrypted, to a ciphertext of the size that `write_length` foretells; it
  -- decrypts to them wherever there is room for them.
  pub decrypt_cbc-encrypt_cbc :
      (iv bytes : List ℕ) (room space : ℕ)
      → length iv ≡ 16
      → write_length (length bytes) ≤ room
      → length bytes ≤ space
      → (c : List ℕ) × (encrypt_cbc lib key iv room bytes ≡ some c)
        × (length c ≡ write_length (length bytes))
        × (decrypt_cbc lib key iv space c ≡ some bytes)
  decrypt_cbc-encrypt_cbc iv bytes room space h le fits =
      let (c, enc, size, dec) = encrypt_cbc_lem iv bytes room h le in (c, enc, size, dec space fits)
