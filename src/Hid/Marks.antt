-- ===== src/Hid/Marks.antt =====
-- src/hid/report.c: the mask and the bytes that the loop of a delta writes.
use Prim.Native.Nat.{bit_or}
use ihslib.Common.{
  ℕ, zero, suc, ◌+◌, ◌*◌, ◌/◌, ◌%◌, ◌^◌, ◌≤◌, ◌<◌, ◌≡◌, refl, ap, ◌∙◌, Bool, true, false, List, [],
  ◌∷◌, ◌++◌, length, get_or, set, All, ◌==◌, if◌then◌else◌, arith, inl, inr, Bool-cases,
  append_assoc, append-nil,
}
use ihslib.Hid.Delta.{mark, delta_loop}
use ihslib.Hid.Bits.{Byte, has_bit, has_bit-mark, mark-Byte, length-mark}

-- The bytes that changed, in order.
unfoldable pub changes : List ℕ → List ℕ → List ℕ
changes previous [] = []
changes [] (c ∷ current) = []
changes (p ∷ previous) (c ∷ current) =
    if p == c then changes previous current else c ∷ changes previous current

-- The mask after the bytes from `i` on.
unfoldable pub marks : ℕ → List ℕ → List ℕ → List ℕ → List ℕ
marks i previous [] mask = mask
marks i [] (c ∷ current) mask = mask
marks i (p ∷ previous) (c ∷ current) mask =
    marks (suc i) previous current (if p == c then mask else mark i mask)

pub length-marks :
    (i : ℕ) (previous current mask : List ℕ) → length (marks i previous current mask) ≡ length mask
unfolding marks
length-marks i previous [] mask = refl
length-marks i [] (c ∷ current) mask = refl
length-marks i (p ∷ previous) (c ∷ current) mask =
    length-marks (suc i) previous current (if p == c then mask else mark i mask)
    ∙ ground (arith, length-mark i mask)

-- The mask after one byte.
abbrev pub marked : ℕ → ℕ → ℕ → List ℕ → List ℕ
marked i p c mask = if p == c then mask else mark i mask

pub marked-Byte : (i p c : ℕ) (mask : List ℕ) → All Byte mask → All Byte (marked i p c mask)
marked-Byte i p c mask h = elim (Bool-cases (p == c)) [
  | inl same ↦ rw same h
  | inr other ↦ rw other (mark-Byte i mask h)
]

pub length-marked : (i p c : ℕ) (mask : List ℕ) → length (marked i p c mask) ≡ length mask
length-marked i p c mask = ground (arith, length-mark i mask)

pub has_bit-marked :
    (i p c j : ℕ) (mask : List ℕ)
    → All Byte mask
    → i < 8 * length mask
    → has_bit (marked i p c mask) j
      ≡ (if i == j then (if p == c then has_bit mask j else true) else has_bit mask j)
has_bit-marked i p c j mask h lt = elim (Bool-cases (p == c)) [
  | inl same ↦ rw same (ground arith)
  | inr other ↦ rw other (has_bit-mark i j mask h (omega arith))
]

-- The bits of earlier bytes stay.
pub has_bit-marks :
    (i j : ℕ) (previous current mask : List ℕ)
    → All Byte mask
    → i + length current ≤ 8 * length mask
    → j < i
    → has_bit (marks i previous current mask) j ≡ has_bit mask j
unfolding marks
has_bit-marks i j previous [] mask h room lt = refl
has_bit-marks i j [] (c ∷ current) mask h room lt = refl
has_bit-marks i j (p ∷ previous) (c ∷ current) mask h room lt =
    has_bit-marks (suc i) j previous current (marked i p c mask) (marked-Byte i p c mask h)
      (omega (arith, length-marked i p c mask)) (omega arith)
    ∙ has_bit-marked i p c j mask h (omega arith)
    ∙ ground arith

get_or-append :
    (mask more : List ℕ) (k : ℕ) → k < length mask → get_or (mask ++ more) k 0 ≡ get_or mask k 0
get_or-append [] more k lt = absurd (omega arith)
get_or-append (m ∷ mask) more zero lt = refl
get_or-append (m ∷ mask) more (suc k) lt = get_or-append mask more k (omega arith)

set-append :
    (mask more : List ℕ) (k m : ℕ) → k < length mask → set (mask ++ more) k m ≡ set mask k m ++ more
set-append [] more k m lt = absurd (omega arith)
set-append (x ∷ mask) more zero m lt = refl
set-append (x ∷ mask) more (suc k) m lt = ap (λ l. x ∷ l) (set-append mask more k m (omega arith))

mark-append :
    (i : ℕ) (mask more : List ℕ) → i < 8 * length mask → mark i (mask ++ more) ≡ mark i mask ++ more
unfolding mark
mark-append i mask more lt =
    rw (get_or-append mask more (i / 8) (omega arith))
      (set-append mask more (i / 8) (bit_or (get_or mask (i / 8) 0) (2 ^ (i % 8))) (omega arith))

round-append :
    (same : Bool) (i c : ℕ) (mask changed rest : List ℕ)
    → i < 8 * length mask
    → (if same then mask ++ changed else mark i (mask ++ changed) ++ c ∷ [])
      ≡ (if same then mask else mark i mask) ++ (changed ++ (if same then [] else c ∷ []))
round-append true i c mask changed rest lt = rw append-nil
round-append false i c mask changed rest lt =
    rw (mark-append i mask changed lt) (append_assoc (mark i mask) changed (c ∷ []))

changes_step :
    (same : Bool) (c : ℕ) (changed rest : List ℕ)
    → (changed ++ (if same then [] else c ∷ [])) ++ rest
      ≡ changed ++ (if same then rest else c ∷ rest)
changes_step true c changed rest = rw append-nil
changes_step false c changed rest = append_assoc changed (c ∷ []) rest

-- The loop fills the mask and gathers the changes behind it.
pub delta_loop_lem :
    (i : ℕ) (previous current mask changed : List ℕ)
    → i + length current ≤ 8 * length mask
    → delta_loop i previous current (mask ++ changed)
      ≡ marks i previous current mask ++ (changed ++ changes previous current)
unfolding delta_loop marks changes
delta_loop_lem i previous [] mask changed room = rw append-nil
delta_loop_lem i [] (c ∷ current) mask changed room = rw append-nil
delta_loop_lem i (p ∷ previous) (c ∷ current) mask changed room =
    let more = changed ++ (if p == c then [] else c ∷ []) in
    ap (delta_loop (suc i) previous current)
      (round-append (p == c) i c mask changed (changes previous current) (omega arith))
    ∙ delta_loop_lem (suc i) previous current (marked i p c mask) more
        (omega (arith, length-marked i p c mask))
    ∙ ap (λ l. marks (suc i) previous current (marked i p c mask) ++ l)
        (changes_step (p == c) c changed (changes previous current))
