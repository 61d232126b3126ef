-- ===== src/Hid/Bits.antt =====
-- src/hid/report.c: the bits of a mask, and what a mark sets.
use Prim.Native.Nat.{bit_or}
use native.Mathlib.Nat.{zero-div}
use ihslib.Common.{
  ℕ, zero, suc, ◌/◌, ◌%◌, ◌^◌, ◌<◌, ◌≡◌, ◌≢◌, refl, ap, Bool, true, false, ◌&&◌, List, [], ◌∷◌,
  length, get_or, set, replicate, All, ltb, ◌==◌, ==_iff, if◌then◌else◌, arith, inl, inr,
  Bool-cases, length-set, get_or-set_self, get_or-set_ne, length-replicate,
}
use ihslib.Hid.Delta.{mark}

-- Whether the mask has the bit of byte `i`.
unfoldable pub has_bit : List ℕ → ℕ → Bool
has_bit mask i = get_or mask (i / 8) 0 / 2 ^ (i % 8) % 2 == 1

-- Checked over all bytes and pairs of bits.
every : (ℕ → Bool) → ℕ → Bool
every test zero = true
every test (suc top) = every test top && test top

every-test : (test : ℕ → Bool) (top : ℕ) → every test top ≡ true → (k : ℕ) → k < top → test k ≡ true
unfolding every
every-test test zero e k below = absurd (omega arith)
every-test test (suc top) e k below =
    ground (arith, λ (h : every test top ≡ true). every-test test top h k)

-- Below 2 ^ 8, setting the bit `a` sets it, and keeps every other bit.
sets_bit : ℕ → ℕ → ℕ → Bool
sets_bit m a b =
    (bit_or m (2 ^ a) / 2 ^ b % 2) == (if a == b then 1 else m / 2 ^ b % 2)
    && ltb (bit_or m (2 ^ a)) 256

sets_bit_table : every (λ m. every (λ a. every (sets_bit m a) 8) 8) 256 ≡ true
unfolding every sets_bit
sets_bit_table = refl

abbrev pub Byte : ℕ → Type 0
Byte m = m < 256

sets_bit_lem : (m a b : ℕ) → m < 256 → a < 8 → b < 8 → sets_bit m a b ≡ true
sets_bit_lem m a b hm ha hb =
    let of_byte = every-test (λ m. every (λ a. every (sets_bit m a) 8) 8) 256 sets_bit_table m hm in
    let of_bit = every-test (λ a. every (sets_bit m a) 8) 8 of_byte a ha in
    every-test (sets_bit m a) 8 of_bit b hb

get_or-Byte : (mask : List ℕ) (k : ℕ) → All Byte mask → get_or mask k 0 < 256
get_or-Byte [] k h = omega arith
get_or-Byte (m ∷ mask) zero h = h.0
get_or-Byte (m ∷ mask) (suc k) h = get_or-Byte mask k h.1

set-Byte : (mask : List ℕ) (k m : ℕ) → m < 256 → All Byte mask → All Byte (set mask k m)
set-Byte [] k m lt h = h
set-Byte (x ∷ mask) zero m lt h = (lt, h.1)
set-Byte (x ∷ mask) (suc k) m lt h = (h.0, set-Byte mask k m lt h.1)

bit_or-Byte : (m a : ℕ) → m < 256 → a < 8 → bit_or m (2 ^ a) < 256
bit_or-Byte m a hm ha = unfold sets_bit in ground (arith, sets_bit_lem m a 0 hm ha (omega arith))

pub mark-Byte : (i : ℕ) (mask : List ℕ) → All Byte mask → All Byte (mark i mask)
unfolding mark
mark-Byte i mask h =
    set-Byte mask (i / 8) (bit_or (get_or mask (i / 8) 0) (2 ^ (i % 8)))
      (bit_or-Byte (get_or mask (i / 8) 0) (i % 8) (get_or-Byte mask (i / 8) h) (omega arith)) h

pub length-mark : (i : ℕ) (mask : List ℕ) → length (mark i mask) ≡ length mask
unfolding mark
length-mark i mask = length-set mask (i / 8) (bit_or (get_or mask (i / 8) 0) (2 ^ (i % 8)))

bit_or_bit :
    (m a b : ℕ)
    → m < 256
    → a < 8
    → b < 8
    → bit_or m (2 ^ a) / 2 ^ b % 2 ≡ (if a == b then 1 else m / 2 ^ b % 2)
unfolding sets_bit
bit_or_bit m a b hm ha hb = ground (
  arith,
  sets_bit_lem m a b hm ha hb,
  ==_iff (bit_or m (2 ^ a) / 2 ^ b % 2) (if a == b then 1 else m / 2 ^ b % 2),
)

same_byte : (i j : ℕ) → i / 8 ≡ j / 8 → (i % 8 == j % 8) ≡ (i == j)
same_byte i j e = ground arith

pub has_bit-mark :
    (i j : ℕ) (mask : List ℕ)
    → All Byte mask
    → i / 8 < length mask
    → has_bit (mark i mask) j ≡ (if i == j then true else has_bit mask j)
unfolding has_bit mark
has_bit-mark i j mask h lt =
    let old = get_or mask (i / 8) 0 in
    elim (Bool-cases (i / 8 == j / 8)) [
      | inl same ↦
          let e = (==_iff (i / 8) (j / 8)).0 same in
          rw (← e) (
            rw
              (
                get_or-set_self mask (i / 8) (bit_or old (2 ^ (i % 8))) 0 lt,
                bit_or_bit old (i % 8) (j % 8) (get_or-Byte mask (i / 8) h) (omega arith)
                    (omega arith),
                same_byte i j e,
              )
              (ground arith))
      | inr other ↦
          let ne : i / 8 ≢ j / 8 = ground (arith, other, ==_iff (i / 8) (j / 8)) in
          rw (get_or-set_ne mask (i / 8) (j / 8) (bit_or old (2 ^ (i % 8))) 0 ne)
            (ground (arith, ne))
    ]

abbrev pub zeros : ℕ → List ℕ
zeros n = replicate n 0

pub length-zeros : (n : ℕ) → length (zeros n) ≡ n
length-zeros n = length-replicate n 0

pub zeros-Byte : (n : ℕ) → All Byte (zeros n)
zeros-Byte zero = tt
zeros-Byte (suc n) = (omega arith, zeros-Byte n)

get_or-zeros : (n k : ℕ) → get_or (zeros n) k 0 ≡ 0
get_or-zeros zero k = refl
get_or-zeros (suc n) zero = refl
get_or-zeros (suc n) (suc k) = get_or-zeros n k

pub has_bit-zeros : (n j : ℕ) → has_bit (zeros n) j ≡ false
unfolding has_bit
has_bit-zeros n j =
    rw (get_or-zeros n (j / 8)) (ap (λ (q : ℕ). q % 2 == 1) (zero-div (2 ^ (j % 8))))
