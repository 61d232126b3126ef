-- ===== src/Tests/Crypto.antt =====
-- src/session/frame_crypto.c, src/crypto/impl_mbedtls.c: a library that encrypts a block to itself and
-- whose digest is the message's first bytes.
use ihslib.Common.{
  ℕ, ◌+◌, ◌≤◌, ◌≡◌, refl, true, some, List, [], ◌∷◌, ◌++◌, length, take, drop, replicate, arith,
  length-append, length-replicate, length-take_le,
}
use ihslib.Crypto.Library.{Library, IsLawful}
use ihslib.Crypto.Cbc.{encrypt_cbc, decrypt_cbc, write_length}
use ihslib.Crypto.Padding.{decrypt_cbc-encrypt_cbc}
use ihslib.Crypto.Frame.{
  Decryption, decrypt_ok, encrypt_frame, decrypt_frame, compare_sequence, read_uint64_le,
}
use ihslib.Crypto.Sequence.{decrypt_frame_ok, decrypt_frame-encrypt_frame}

abbrev pub plain_library : Library
plain_library = record {
  hmac = λ key m. some (take 16 (m ++ replicate 16 0));
  cbc_encrypt = λ key iv block. some (block, block);
  is_decryption_key = λ key. true;
  cbc_decrypt = λ key iv block. some (block, block);
}

pub plain_library-IsLawful : IsLawful plain_library (1 ∷ [])
plain_library-IsLawful = record {
  decryption_key = refl;
  hashes = λ m. (
    take 16 (m ++ replicate 16 0),
    refl,
    length-take_le 16 (m ++ replicate 16 0)
        (omega (arith, length-append m (replicate 16 0), length-replicate {A = ℕ} 16 0)),
  );
  blocks = λ iv block h k. (block, block, refl, k, k, refl);
}

write_length_three : write_length 3 ≤ 16
unfolding write_length
write_length_three = omega arith

decrypt_cbc-encrypt_cbc_example :
    (c : List ℕ) × (encrypt_cbc plain_library (1 ∷ []) (replicate 16 9) 16 (5 ∷ 6 ∷ 7 ∷ [])
      ≡ some c)
    × (length c ≡ write_length 3)
    × (decrypt_cbc plain_library (1 ∷ []) (replicate 16 9) 3 c ≡ some (5 ∷ 6 ∷ 7 ∷ []))
decrypt_cbc-encrypt_cbc_example =
    decrypt_cbc-encrypt_cbc plain_library (1 ∷ []) plain_library-IsLawful (replicate 16 9)
      (5 ∷ 6 ∷ 7 ∷ []) 16 3 refl write_length_three (omega arith)

frame_room : 16 + write_length (8 + 2) ≤ 32
unfolding write_length
frame_room = omega arith

decrypt_frame-encrypt_frame_example :
    (c : List ℕ) × (encrypt_frame plain_library (1 ∷ []) 32 (5 ∷ 6 ∷ []) 300 ≡ some c)
    × (decrypt_frame plain_library (1 ∷ []) 32 c 301
        ≡ some
            (record { result = compare_sequence 300 301; out = 5 ∷ 6 ∷ []; sequence = some 300 }))
decrypt_frame-encrypt_frame_example =
    decrypt_frame-encrypt_frame plain_library (1 ∷ []) plain_library-IsLawful (5 ∷ 6 ∷ []) 300 32 32
      301 (omega arith) frame_room (omega arith) frame_room

-- The frame of the bytes 5 and 6 under the number 300.
abbrev sealed_frame : List ℕ
sealed_frame =
    44 ∷ 1 ∷ 0 ∷ 0 ∷ 0 ∷ 0 ∷ 0 ∷ 0 ∷ 5 ∷ 6 ∷ 0 ∷ 0 ∷ 0 ∷ 0 ∷ 0 ∷ 0 ∷ 44 ∷ 1 ∷ 0 ∷ 0 ∷ 0 ∷ 0 ∷ 0 ∷ 0
    ∷ 5 ∷ 6 ∷ 6 ∷ 6 ∷ 6 ∷ 6 ∷ 6 ∷ 6 ∷ []

abbrev opened_frame : Decryption
opened_frame = record { result = decrypt_ok; out = 5 ∷ 6 ∷ []; sequence = some 300 }

sealed_run : encrypt_frame plain_library (1 ∷ []) 32 (5 ∷ 6 ∷ []) 300 ≡ some sealed_frame
unfolding encrypt_frame
sealed_run = refl

opened_run : decrypt_frame plain_library (1 ∷ []) 1024 sealed_frame 300 ≡ some opened_frame
unfolding decrypt_frame
opened_run = refl

decrypt_frame_ok_example :
    (plain : List ℕ) × (plain_library.hmac (1 ∷ []) plain ≡ some (take 16 sealed_frame))
    × (read_uint64_le plain ≡ 300)
    × (opened_frame.out ≡ drop 8 plain)
    × (opened_frame.sequence ≡ some 300)
decrypt_frame_ok_example =
    decrypt_frame_ok plain_library (1 ∷ []) 1024 300 sealed_frame opened_frame opened_run refl
