-- ===== src/Common/Words.antt =====
-- The C word types. A word is a native number below its modulus; sums and differences wrap.
use Prim.Native.Nat.{ℕ, ◌+◌, ◌-◌, ◌%◌, ◌^◌, ◌<◌}
use mathlib.Core.Path.{◌≡◌}
use mathlib.Core.Bool.{Bool, ◌&&◌}
use native.Mathlib.Omega.{arith}
use ihslib.Common.Tests.{ltb, leb}

abbrev pub add16 : ℕ → ℕ → ℕ
add16 a b = (a + b) % 2 ^ 16

-- `(uint16_t)(a - b)`, for words a and b.
abbrev pub sub16 : ℕ → ℕ → ℕ
sub16 a b = (a + 2 ^ 16 - b) % 2 ^ 16

abbrev pub add32 : ℕ → ℕ → ℕ
add32 a b = (a + b) % 2 ^ 32

abbrev pub sub32 : ℕ → ℕ → ℕ
sub32 a b = (a + 2 ^ 32 - b) % 2 ^ 32

abbrev pub add64 : ℕ → ℕ → ℕ
add64 a b = (a + b) % 2 ^ 64

abbrev pub sub64 : ℕ → ℕ → ℕ
sub64 a b = (a + 2 ^ 64 - b) % 2 ^ 64

-- `(int32_t) x < 0` and `(int32_t) x > 0`, on the bit pattern.
abbrev pub is_negative32 : ℕ → Bool
is_negative32 x = leb (2 ^ 31) x

abbrev pub is_positive32 : ℕ → Bool
is_positive32 x = ltb 0 x && ltb x (2 ^ 31)

-- `(int16_t) x > 0`, on the bit pattern.
abbrev pub is_positive16 : ℕ → Bool
is_positive16 x = ltb 0 x && ltb x (2 ^ 15)

-- A subtraction that is undone by the addition of the same word.
pub add16-sub16 : (a b : ℕ) → a < 2 ^ 16 → b < 2 ^ 16 → add16 b (sub16 a b) ≡ a
add16-sub16 a b ha hb = omega arith

pub sub32-add32 : (a b : ℕ) → a < 2 ^ 32 → b < 2 ^ 32 → sub32 (add32 a b) b ≡ a
sub32-add32 a b ha hb = omega arith
