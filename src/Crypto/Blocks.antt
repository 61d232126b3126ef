-- ===== src/Crypto/Blocks.antt =====
-- src/crypto/impl_mbedtls.c: the loops over the blocks. What is encrypted block by block decrypts to
-- the full blocks of the input, and the last block to the rest with its padding.
use ihslib.Common.{
  take_all, drop_add, take_add, drop-append, take-append, append-nil, length-drop, ℕ, zero, suc,
  ◌+◌, ◌-◌, ◌*◌, ◌≤◌, ◌≡◌, ap, ◌∙◌, sym, refl, some, List, [], ◌∷◌, ◌++◌, length, take, drop,
  replicate, length-append, length-replicate, arith,
}
use ihslib.Crypto.Library.{Library, IsLawful}
use ihslib.Crypto.Cbc.{pad_block, encrypt_blocks, decrypt_blocks}

length-take_cut :
    {A : Type 0} (n : ℕ) (xs : List A) → length (take n xs) + (length xs - n) ≡ length xs
length-take_cut zero xs = omega arith
length-take_cut (suc n) [] = omega arith
length-take_cut (suc n) (x ∷ xs) = omega (arith, length-take_cut n xs)

-- A rest without a full block is filled up to one, and a full block stays as it is.
pub length-pad_block : (rest : List ℕ) → length (pad_block rest) ≡ 16
unfolding pad_block
length-pad_block rest =
    length-append (take 16 rest) (replicate (16 - length rest) (16 - length rest))
    ∙ omega (arith, length-replicate (16 - length rest) (16 - length rest), length-take_cut 16 rest)

pad_block_full : (rest : List ℕ) → 16 ≤ length rest → pad_block rest ≡ take 16 rest
unfolding pad_block
pad_block_full rest h =
    let none_missing : 16 - length rest ≡ 0 = omega arith in
    ap (λ n. take 16 rest ++ replicate n n) none_missing ∙ append-nil (take 16 rest)

module _ (lib : Library) (key : List ℕ) (lawful : IsLawful lib key) where
  -- The ciphertext of some full blocks and a last one, and what the decrypting loop makes of it.
  pub record Sealed (n : ℕ) (iv rest : List ℕ) : Type 0 where
    pub cipher : List ℕ
    pub final : List ℕ
    pub encrypted : encrypt_blocks lib key (suc n) iv rest ≡ some cipher
    pub size : length cipher ≡ 16 * suc n
    pub decrypted : decrypt_blocks lib key n iv cipher ≡ some (take (16 * n) rest, final)
    pub iv_size : length final ≡ 16
    pub after : List ℕ
    pub last :
        lib.cbc_decrypt key final (take 16 (drop (16 * n) cipher))
        ≡ some (pad_block (drop (16 * n) rest), after)

  encrypt_step :
      (n : ℕ) (iv rest c next more : List ℕ)
      → lib.cbc_encrypt key iv (pad_block rest) ≡ some (c, next)
      → encrypt_blocks lib key n next (drop 16 rest) ≡ some more
      → encrypt_blocks lib key (suc n) iv rest ≡ some (c ++ more)
  unfolding encrypt_blocks
  encrypt_step n iv rest c next more first others = rw (first, others) refl

  decrypt_step :
      (n : ℕ) (iv rest b next more final : List ℕ)
      → lib.cbc_decrypt key iv (take 16 rest) ≡ some (b, next)
      → decrypt_blocks lib key n next (drop 16 rest) ≡ some (more, final)
      → decrypt_blocks lib key (suc n) iv rest ≡ some (b ++ more, final)
  unfolding decrypt_blocks
  decrypt_step n iv rest b next more final first others = rw (first, others) refl

  seal_last : (iv rest : List ℕ) → length iv ≡ 16 → Sealed 0 iv rest
  unfolding encrypt_blocks decrypt_blocks
  seal_last iv rest h =
      let (c, next, enc, size, next_size, dec) =
        lawful.blocks iv (pad_block rest) h (length-pad_block rest) in
      record {
        cipher = c ++ [];
        final = iv;
        encrypted = rw enc refl;
        size = ap length (append-nil c) ∙ size;
        decrypted = refl;
        iv_size = h;
        after = next;
        last = rw (append-nil c, take_all 16 c (omega (arith, size))) dec;
      }

  seal_more :
      (n : ℕ) (iv rest : List ℕ)
      → length iv ≡ 16
      → 16 ≤ length rest
      → ((next : List ℕ) → length next ≡ 16 → Sealed n next (drop 16 rest))
      → Sealed (suc n) iv rest
  seal_more n iv rest h le more =
      let (c, next, enc, size, next_size, dec) =
        lawful.blocks iv (pad_block rest) h (length-pad_block rest) in
      let s = more next next_size in
      let first : take 16 (c ++ s.cipher) ≡ c = take-append 16 c s.cipher size in
      let others : drop 16 (c ++ s.cipher) ≡ s.cipher = drop-append 16 c s.cipher size in
      record {
        cipher = c ++ s.cipher;
        final = s.final;
        encrypted = encrypt_step (suc n) iv rest c next s.cipher enc s.encrypted;
        size = length-append c s.cipher ∙ omega (arith, size, s.size);
        decrypted =
            decrypt_step n iv (c ++ s.cipher) (pad_block rest) next (take (16 * n) (drop 16 rest))
              s.final (rw first dec) (rw others s.decrypted)
            ∙ ap (λ l. some (l, s.final))
                (ap (λ l. l ++ take (16 * n) (drop 16 rest)) (pad_block_full rest le)
                  ∙ sym (take_add (16 * suc n) 16 (16 * n) rest (omega arith)));
        iv_size = s.iv_size;
        after = s.after;
        last =
            rw
              (
                drop_add (16 * suc n) 16 (16 * n) (c ++ s.cipher) (omega arith),
                others,
                drop_add (16 * suc n) 16 (16 * n) rest (omega arith),
              )
              s.last;
      }

  pub seal : (n : ℕ) (iv rest : List ℕ) → length iv ≡ 16 → 16 * n ≤ length rest → Sealed n iv rest
  seal zero iv rest h le = seal_last iv rest h
  seal (suc n) iv rest h le =
      seal_more n iv rest h (omega arith)
        (λ next size. seal n next (drop 16 rest) size (omega (arith, length-drop 16 rest)))
