-- ===== src/Crypto/Library.antt =====
-- The functions of mbedTLS that src/crypto/impl_mbedtls.c and src/session/frame_crypto.c call, as
-- parameters. None stands for a result that is not 0.
use ihslib.Common.{ℕ, ◌≡◌, Bool, true, Option, some, List, length}

-- `hmac` is `mbedtls_md_hmac` with MD5, of a key and a message; `cbc_encrypt` and `cbc_decrypt` are
-- `mbedtls_aes_crypt_cbc` on one block, of a key, the IV and the block, with the output and the IV
-- that the call leaves; `is_decryption_key` is whether `mbedtls_aes_setkey_dec` takes the key.
pub record Library : Type 0 where
  pub hmac : List ℕ → List ℕ → Option (List ℕ)
  pub cbc_encrypt : List ℕ → List ℕ → List ℕ → Option (List ℕ × List ℕ)
  pub is_decryption_key : List ℕ → Bool
  pub cbc_decrypt : List ℕ → List ℕ → List ℕ → Option (List ℕ × List ℕ)

-- What the library promises of a key of a valid size: an MD5 digest has 16 bytes; a block is
-- encrypted to a block, which decrypts to it under the same IV, and both calls leave the same IV for
-- the next block.
pub record IsLawful (lib : Library) (key : List ℕ) : Type 0 where
  pub decryption_key : lib.is_decryption_key key ≡ true
  pub hashes : (m : List ℕ) → (h : List ℕ) × (lib.hmac key m ≡ some h) × (length h ≡ 16)
  pub blocks :
      (iv block : List ℕ)
      → length iv ≡ 16
      → length block ≡ 16
      → (c : List ℕ) × (next : List ℕ) × (lib.cbc_encrypt key iv block ≡ some (c, next))
        × (length c ≡ 16)
        × (length next ≡ 16)
        × (lib.cbc_decrypt key iv c ≡ some (block, next))
