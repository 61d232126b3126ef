-- ===== src/Crypto/Cbc.antt =====
-- src/crypto/impl_mbedtls.c: the block mode with its padding, without a leading IV. The value none
-- stands for a result that is not 0, after which the callers do not look at the output. Of the output
-- the model has the first `*outLen` bytes; the function also writes the padding behind them.
use ihslib.Common.{
  ℕ, zero, suc, ◌+◌, ◌-◌, ◌*◌, ◌/◌, ◌%◌, Bool, true, false, not, ◌||◌, Option, none, some, List, [],
  ◌∷◌, ◌++◌, length, take, drop, replicate, get_or, ltb, ◌==◌, if◌then◌else◌,
}
use ihslib.Buffer.Defs.{◌>>=◌}
use ihslib.Crypto.Library.{Library}

-- `IHS_CRYPTO_AES_BLOCK_SIZE`.
abbrev pub block_size : ℕ
block_size = 16

-- The block that is encrypted next: the input's next bytes, filled up with their missing number.
unfoldable pub pad_block : List ℕ → List ℕ
pad_block rest =
    take block_size rest ++ replicate (block_size - length rest) (block_size - length rest)

-- `CheckPKCS7Pad`, the rounds left first.
unfoldable pub check_pad : ℕ → ℕ → List ℕ → Bool
check_pad zero pad bytes = true
check_pad (suc n) pad [] = false
check_pad (suc n) pad (x ∷ bytes) =
    let rest = check_pad n pad bytes in if x == pad then rest else false

-- The size of the ciphertext.
unfoldable pub write_length : ℕ → ℕ
write_length len = (len / block_size + 1) * block_size

-- The padding of the last block is checked and taken off.
unfoldable pub take_off_pad : ℕ → ℕ → List ℕ → List ℕ → Option (List ℕ)
unfolding check_pad
take_off_pad room len front last =
    let pad = get_or last (block_size - 1) 0 in
    if pad == 0
      || (ltb block_size pad
          || (not (check_pad pad pad (drop (block_size - pad) last)) || ltb room (len - pad)))
    then none
    else some (front ++ take (block_size - pad) last)

module _ (lib : Library) (key : List ℕ) where
  -- The encrypting loop, for a number of blocks.
  unfoldable pub encrypt_blocks : ℕ → List ℕ → List ℕ → Option (List ℕ)
  unfolding pad_block
  encrypt_blocks zero iv rest = some []
  encrypt_blocks (suc n) iv rest = lib.cbc_encrypt key iv (pad_block rest) >>= λ (c, next).
      encrypt_blocks n next (drop block_size rest) >>= λ more. some (c ++ more)

  -- The decrypting loop, for a number of blocks: the output, and the IV that it leaves.
  unfoldable pub decrypt_blocks : ℕ → List ℕ → List ℕ → Option (List ℕ × List ℕ)
  decrypt_blocks zero iv rest = some ([], iv)
  decrypt_blocks (suc n) iv rest = lib.cbc_decrypt key iv (take block_size rest) >>= λ (b, next).
      decrypt_blocks n next (drop block_size rest) >>= λ (more, final). some (b ++ more, final)

  -- `CryptoAES_CBC_PKCS7Pad` with `enc`: `room` is `*outLen` at the call.
  unfoldable pub encrypt_cbc : List ℕ → ℕ → List ℕ → Option (List ℕ)
  unfolding encrypt_blocks write_length
  encrypt_cbc iv room bytes =
      let blocks = encrypt_blocks (length bytes / block_size + 1) iv bytes in
      if ltb room (write_length (length bytes)) then none else blocks

  -- `CryptoAES_CBC_PKCS7Pad` without `enc`.
  unfoldable pub decrypt_cbc : List ℕ → ℕ → List ℕ → Option (List ℕ)
  unfolding decrypt_blocks take_off_pad
  decrypt_cbc iv room bytes =
      let prefix = length bytes - block_size in
      let plain = decrypt_blocks (prefix / block_size) iv bytes >>= λ (front, next).
      lib.cbc_decrypt key next (take block_size (drop prefix bytes)) >>= λ (last, final).
      take_off_pad room (length bytes) front last in
      if ltb (length bytes) block_size
        || (not (length bytes % block_size == 0) || ltb room (length bytes - block_size))
      then none
      else if lib.is_decryption_key key
      then plain
      else none

  -- `IHS_CryptoSymmetricEncryptWithIV` without `withIV`.
  unfoldable pub encrypt_with_iv : List ℕ → ℕ → List ℕ → Option (List ℕ)
  unfolding encrypt_cbc
  encrypt_with_iv iv room bytes = encrypt_cbc iv room bytes

  -- `IHS_CryptoSymmetricDecryptWithIV`, whose IVs all have 16 bytes.
  unfoldable pub decrypt_with_iv : List ℕ → ℕ → List ℕ → Option (List ℕ)
  unfolding decrypt_cbc
  decrypt_with_iv iv room bytes =
      let plain = decrypt_cbc iv room bytes in if length bytes == 0 then none else plain
