-- ===== src/Video/Escaping.antt =====
-- src/session/channels/video/frame_nal.c: what a decoder makes of the escaped bytes.
use ihslib.Common.{
  ℕ, ◌+◌, ◌*◌, ◌≤◌, ◌≡◌, refl, sym, ap, subst, ◌∙◌, Bool, true, false, ◌&&◌, List, [], ◌∷◌, ◌++◌,
  length, leb, ◌==◌, ==_iff, if◌then◌else◌, arith, Bool-cases, inl, inr,
}
use ihslib.Video.Nal.{ends_in_zeros, escape, nal_bytes, nal_reserve, is_refused, remember}

-- The decoder's side: a 3 behind two zero bytes is dropped.
unfoldable pub unescape : List ℕ → List ℕ → List ℕ
unescape history [] = []
unescape history (value ∷ bytes) =
    let rest = unescape (value ∷ history) bytes in
    if value == 3 && ends_in_zeros history then rest else value ∷ rest

-- No byte below 3 stands behind two zero bytes, as in a start code.
abbrev pub HasNoStartCode : List ℕ → List ℕ → Type 0
HasNoStartCode history [] = Unit
HasNoStartCode history (value ∷ bytes) =
    (ends_in_zeros history ≡ true → 3 ≤ value) × HasNoStartCode (value ∷ history) bytes

zeros-cons_cons3 : (value : ℕ) (history : List ℕ) → ends_in_zeros (value ∷ 3 ∷ history) ≡ false
unfolding ends_in_zeros
zeros-cons_cons3 value history = ground arith

zeros-cons3 : (history : List ℕ) → ends_in_zeros (3 ∷ history) ≡ false
unfolding ends_in_zeros
zeros-cons3 [] = refl
zeros-cons3 (x ∷ history) = refl

-- The decoder gets the fragment's bytes back.
pub unescape-escape : (history bytes : List ℕ) → unescape history (escape history bytes) ≡ bytes
unfolding escape unescape
unescape-escape history [] = refl
unescape-escape history (value ∷ bytes) = ground (
  arith,
  ==_iff value 3,
  zeros-cons3 history,
  unescape-escape (value ∷ history) bytes,
  unescape-escape (value ∷ 3 ∷ history) bytes,
)

-- The escaped bytes hold no start code, also none that begins before them.
pub escape-HasNoStartCode : (history bytes : List ℕ) → HasNoStartCode history (escape history bytes)
unfolding escape
escape-HasNoStartCode history [] = tt
escape-HasNoStartCode history (value ∷ bytes) =
    elim (Bool-cases (leb value 3 && ends_in_zeros history)) [
      | inl both ↦ rw both (
        λ z. omega arith,
        (
          λ z. absurd (ground (arith, zeros-cons3 history, z)),
          escape-HasNoStartCode (value ∷ 3 ∷ history) bytes,
        ),
      )
      | inr other ↦
          rw other (λ z. ground (arith, other, z), escape-HasNoStartCode (value ∷ history) bytes)
    ]

-- Fragments that are escaped one after the other give what the whole gives.
pub escape-append :
    (history xs ys : List ℕ)
    → escape history (xs ++ ys)
      ≡ escape history xs ++ escape (remember (escape history xs) history) ys
unfolding escape remember
escape-append history [] ys = refl
escape-append history (value ∷ xs) ys = elim (Bool-cases (leb value 3 && ends_in_zeros history)) [
  | inl both ↦ rw both (ap (λ l. 3 ∷ value ∷ l) (escape-append (value ∷ 3 ∷ history) xs ys))
  | inr other ↦ rw other (ap (λ l. value ∷ l) (escape-append (value ∷ history) xs ys))
]

-- Two fragments that are escaped one after the other, the second with the history that the first
-- leaves, give a decoder their bytes back, and hold no byte below 3 behind two zero bytes, also
-- across the seams.
pub escape_fragments :
    (history xs ys : List ℕ)
    → let out = escape history xs ++ escape (remember (escape history xs) history) ys in
      (unescape history out ≡ xs ++ ys) × HasNoStartCode history out
escape_fragments history xs ys = (
  ap (unescape history) (sym (escape-append history xs ys)) ∙ unescape-escape history (xs ++ ys),
  subst (HasNoStartCode history) (escape-append history xs ys)
      (escape-HasNoStartCode history (xs ++ ys)),
)

-- An escape needs two zero bytes before it, so it comes at every other byte at most.
length-escape :
    (history bytes : List ℕ)
    → 2 * length (escape history bytes)
      ≤ 3 * length bytes + (if ends_in_zeros history then 1 else 0)
unfolding escape
length-escape history [] = ground arith
length-escape history (value ∷ bytes) = ground (
  arith,
  zeros-cons_cons3 value history,
  length-escape (value ∷ history) bytes,
  length-escape (value ∷ 3 ∷ history) bytes,
)

-- What is written fits the room that was reserved for it.
pub length-nal_bytes :
    (start : Bool) (history bytes : List ℕ)
    → is_refused start history bytes ≡ false
    → length (nal_bytes start history bytes) ≤ nal_reserve (length bytes)
unfolding nal_bytes nal_reserve is_refused
length-nal_bytes false history bytes h = ground (arith, length-escape history bytes)
length-nal_bytes true history [] h = cc
length-nal_bytes true history (x ∷ []) h = omega arith
length-nal_bytes true history (x ∷ y ∷ []) h = omega arith
length-nal_bytes true history (x ∷ y ∷ z ∷ bytes) h =
    ground (arith, length-escape (z ∷ y ∷ x ∷ 1 ∷ 0 ∷ 0 ∷ 0 ∷ history) bytes)
