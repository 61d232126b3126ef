-- ===== src/Crypto/Sequence.antt =====
-- src/session/frame_crypto.c: what is encrypted under a sequence number decrypts to it with the result
-- that belongs to the number, and nothing is accepted whose digest or number is another.
use ihslib.Common.{
  sub64, ℕ, ◌+◌, ◌-◌, ◌*◌, ◌/◌, ◌%◌, ◌^◌, ◌≤◌, ◌<◌, ◌≡◌, inl, inr, refl, ap, ap₂, ◌∙◌, sym, true,
  false, not, ◌&&◌, ◌||◌, some, List, [], ◌∷◌, ◌++◌, length, take, drop, ltb, leb, ◌==◌, ==_self,
  drop-append, take-append, length-append, arith, Bool-cases, Option-cases,
}
use ihslib.Packet.Codec.{write_uint32_le, read_uint32_le}
use ihslib.Crypto.Library.{Library, IsLawful}
use ihslib.Crypto.Cbc.{decrypt_cbc, encrypt_with_iv, decrypt_with_iv, write_length}
use ihslib.Crypto.Padding.{encrypt_cbc_lem}
use ihslib.Crypto.Frame.{
  write_uint64_le, read_uint64_le, decrypt_ok, Decryption, is_same, compare_sequence, encrypt_frame,
  check_plain, decrypt_frame,
}

length-write_uint64_le : (v : ℕ) → length (write_uint64_le v) ≡ 8
unfolding write_uint64_le write_uint32_le
length-write_uint64_le v = refl

read_uint64_le-write :
    (v : ℕ) (bytes : List ℕ) → v < 2 ^ 64 → read_uint64_le (write_uint64_le v ++ bytes) ≡ v
unfolding write_uint64_le write_uint32_le read_uint64_le read_uint32_le
read_uint64_le-write v bytes h = omega arith

is_same_self : (xs : List ℕ) → is_same xs xs ≡ true
unfolding is_same
is_same_self [] = refl
is_same_self (x ∷ xs) = rw (==_self x, is_same_self xs) refl

is_same_eq : (xs ys : List ℕ) → is_same xs ys ≡ true → xs ≡ ys
unfolding is_same
is_same_eq [] [] h = refl
is_same_eq [] (y ∷ ys) h = cc
is_same_eq (x ∷ xs) [] h = cc
is_same_eq (x ∷ xs) (y ∷ ys) h =
    let head : x ≡ y = ground (arith, h) in
    let rest : is_same xs ys ≡ true = ground (arith, h) in
    ap₂ (λ a l. a ∷ l) head (is_same_eq xs ys rest)

module _ (lib : Library) (key : List ℕ) where
  check_plain_ok :
      (expected : ℕ) (digest plain : List ℕ)
      → (check_plain lib key expected digest plain).result ≡ decrypt_ok
      → (lib.hmac key plain ≡ some digest)
        × (read_uint64_le plain ≡ expected)
        × ((check_plain lib key expected digest plain).out ≡ drop 8 plain)
        × ((check_plain lib key expected digest plain).sequence ≡ some expected)
  unfolding check_plain compare_sequence
  check_plain_ok expected digest plain h = elim (Option-cases (lib.hmac key plain)) [
    | inl nothing ↦ absurd (ground (arith, nothing, h))
    | inr (hash, got) ↦ elim (Bool-cases (is_same hash digest)) [
      | inl same ↦ ground (arith, got, same, is_same_eq hash digest same, h)
      | inr other ↦ absurd (ground (arith, got, other, h))
    ]
  ]

  -- Of an accepted message, the number and the bytes hash to the digest in front of the ciphertext,
  -- and the number is the expected one.
  pub decrypt_frame_ok :
      (limit expected : ℕ) (input : List ℕ) (d : Decryption)
      → decrypt_frame lib key limit input expected ≡ some d
      → d.result ≡ decrypt_ok
      → (plain : List ℕ) × (lib.hmac key plain ≡ some (take 16 input))
        × (read_uint64_le plain ≡ expected)
        × (d.out ≡ drop 8 plain)
        × (d.sequence ≡ some expected)
  unfolding decrypt_frame
  decrypt_frame_ok limit expected input d run ok =
      elim (Option-cases (decrypt_with_iv lib key (take 16 input) (length input) (drop 16 input))) [
        | inl nothing ↦ absurd (ground (arith, nothing, run, ok))
        | inr (plain, got) ↦
            let same : check_plain lib key expected (take 16 input) plain ≡ d =
              ground (arith, got, run, ok) in
            let (hashed, number, out, actual) =
              check_plain_ok expected (take 16 input) plain (ap (λ e. e.result) same ∙ ok) in
            (
              plain,
              hashed,
              number,
              ap (λ e. e.out) (sym same) ∙ out,
              ap (λ e. e.sequence) (sym same) ∙ actual,
            )
      ]

shape_lem : (n k : ℕ) → n ≡ 16 + (k + 1) * 16 → (leb n 16 || not ((n - 16) % 16 == 0)) ≡ false
shape_lem n k h = ground (arith, h)

allowed_lem : (limit n : ℕ) → n ≤ limit → (ltb 0 limit && ltb limit n) ≡ false
allowed_lem limit n h = ground (arith, h)

module _ (lib : Library) (key : List ℕ) (lawful : IsLawful lib key) where
  check_plain-own :
      (bytes digest : List ℕ) (sequence expected : ℕ)
      → sequence < 2 ^ 64
      → lib.hmac key (write_uint64_le sequence ++ bytes) ≡ some digest
      → check_plain lib key expected digest (write_uint64_le sequence ++ bytes) ≡ record {
        result = compare_sequence sequence expected;
        out = bytes;
        sequence = some sequence;
      }
  unfolding check_plain
  check_plain-own bytes digest sequence expected h hash =
      rw
        (
          hash,
          is_same_self digest,
          read_uint64_le-write sequence bytes h,
          drop-append 8 (write_uint64_le sequence) bytes (length-write_uint64_le sequence),
        )
        (ground
          (arith, length-append (write_uint64_le sequence) bytes, length-write_uint64_le sequence))

  with_iv_lem :
      (iv : List ℕ) (room : ℕ) (c plain : List ℕ)
      → 0 < length c
      → decrypt_cbc lib key iv room c ≡ some plain
      → decrypt_with_iv lib key iv room c ≡ some plain
  unfolding decrypt_with_iv
  with_iv_lem iv room c plain some_bytes dec = ground (arith, dec)

  decrypt_parts :
      (limit expected : ℕ) (iv c plain : List ℕ)
      → length iv ≡ 16
      → length c ≡ write_length (length plain)
      → length (iv ++ c) ≤ limit
      → decrypt_cbc lib key iv (length (iv ++ c)) c ≡ some plain
      → decrypt_frame lib key limit (iv ++ c) expected
        ≡ some (check_plain lib key expected iv plain)
  unfolding decrypt_frame write_length
  decrypt_parts limit expected iv c plain h size fits dec =
      let n = length (iv ++ c) in
      let total : n ≡ 16 + (length plain / 16 + 1) * 16 =
        length-append iv c ∙ omega (arith, h, size) in
      let got : decrypt_with_iv lib key (take 16 (iv ++ c)) n (drop 16 (iv ++ c)) ≡ some plain =
        rw (take-append 16 iv c h, drop-append 16 iv c h)
          (with_iv_lem iv n c plain (omega (arith, size)) dec) in
      let shape : (leb n 16 || not ((n - 16) % 16 == 0)) ≡ false =
        shape_lem n (length plain / 16) total in
      let allowed : (ltb 0 limit && ltb limit n) ≡ false = allowed_lem limit n fits in
      rw (shape, allowed, got)
        (ap (λ d. some (check_plain lib key expected d plain)) (take-append 16 iv c h))

  -- What encrypts, with how many bytes, and what it decrypts to.
  pub encrypt_frame_lem :
      (bytes : List ℕ) (sequence room : ℕ)
      → sequence < 2 ^ 64
      → 16 + write_length (8 + length bytes) ≤ room
      → room < 2 ^ 64
      → (c : List ℕ) × (encrypt_frame lib key room bytes sequence ≡ some c)
        × (length c ≡ 16 + write_length (8 + length bytes))
        × ((limit expected : ℕ)
            → length c ≤ limit
            → decrypt_frame lib key limit c expected
              ≡ some (record {
                result = compare_sequence sequence expected;
                out = bytes;
                sequence = some sequence;
              }))
  unfolding encrypt_frame encrypt_with_iv write_length
  encrypt_frame_lem bytes sequence room h le wrap =
      let plain = write_uint64_le sequence ++ bytes in
      let long : length plain ≡ 8 + length bytes =
        length-append (write_uint64_le sequence) bytes
        ∙ omega (arith, length-write_uint64_le sequence) in
      let (iv, hash, iv_size) = lawful.hashes plain in
      let (c, enc, size, dec) =
        encrypt_cbc_lem lib key lawful iv plain (sub64 room 16) iv_size
          (omega (arith, long, le, wrap)) in
      (
        iv ++ c,
        rw (hash, enc) refl,
        length-append iv c ∙ omega (arith, iv_size, size, long),
        λ limit expected fits.
            decrypt_parts limit expected iv c plain iv_size size fits
              (dec (length (iv ++ c)) (omega (arith, length-append iv c, size)))
            ∙ ap some (check_plain-own bytes iv sequence expected h hash),
      )

  -- Under a lawful library, a message that is encrypted with room for its ciphertext decrypts,
  -- whatever sequence is expected and into a buffer that may hold it, to its bytes and its own
  -- sequence number, with the result that compares the number with the expected one.
  pub decrypt_frame-encrypt_frame :
      (bytes : List ℕ) (sequence room limit expected : ℕ)
      → sequence < 2 ^ 64
      → 16 + write_length (8 + length bytes) ≤ room
      → room < 2 ^ 64
      → 16 + write_length (8 + length bytes) ≤ limit
      → (c : List ℕ) × (encrypt_frame lib key room bytes sequence ≡ some c)
        × (decrypt_frame lib key limit c expected
            ≡ some (record {
              result = compare_sequence sequence expected;
              out = bytes;
              sequence = some sequence;
            }))
  decrypt_frame-encrypt_frame bytes sequence room limit expected h le wrap fits =
      let (c, enc, size, dec) = encrypt_frame_lem bytes sequence room h le wrap in
      (c, enc, dec limit expected (omega (arith, size, fits)))
