-- ===== src/Outgoing/Copies.antt =====
-- src/session/outgoing.c: what the loop of `capacity` copies into the larger arrays.
use ihslib.Common.{
  ℕ, zero, suc, ◌+◌, ◌%◌, ◌^◌, ◌≤◌, ◌<◌, ◌≡◌, ◌≢◌, ◌⊎◌, inl, inr, refl, ap, ◌∙◌, sym, false, Option,
  none, List, length, get_or, set, replicate, get_or-set_self, get_or-set_ne, length-set, ◌==◌,
  ==_iff, arith, Bool-cases, add16, sub16,
}
use native.Mathlib.Nat.{mod-lt}
use ihslib.Packet.Header.{Packet}
use ihslib.Outgoing.Cache.{Cache, cell, copy_slots}
use ihslib.Outgoing.Cells.{Divides, slot_unique}

pub blank-replicate : (n i : ℕ) → get_or (replicate {A = Option Packet} n none) i none ≡ none
blank-replicate zero i = refl
blank-replicate (suc n) zero = refl
blank-replicate (suc n) (suc i) = blank-replicate n i

pub not_here : (d k : ℕ) → k ≡ d → (k == d) ≡ false → ⊥
not_here d k e h = ground (arith, e, h)

-- The ID that lies `d` behind the head, and the one after it.
abbrev pub id_at : Cache → ℕ → ℕ
id_at w d = (w.head + d) % 2 ^ 16

next_id : (w : Cache) (d : ℕ) → add16 (id_at w d) 1 ≡ id_at w (suc d)
next_id w d = omega arith

module _ (w : Cache) (c : ℕ) (divides : Divides c) (pos : 0 < c) (big : c ≤ 2 ^ 16)
    (head_lt : w.head < 2 ^ 16) where
  id_at_ne :
      (d j : ℕ)
      → d < c
      → j < 2 ^ 16
      → sub16 j w.head < c
      → sub16 j w.head ≢ d
      → id_at w d % c ≢ j % c
  id_at_ne d j dc hj jc ne e =
      let same : id_at w d ≡ j =
        slot_unique c w.head (id_at w d) j divides pos head_lt (omega arith) hj
          (omega (arith, dc, big, head_lt)) jc e in
      ne (omega (arith, same, dc, big, head_lt))

  -- The copying loop writes the slots of its IDs, and no other.
  pub copied_far :
      (d n j : ℕ) (slots : List (Option Packet))
      → length slots ≡ c
      → d + n ≤ c
      → j < 2 ^ 16
      → sub16 j w.head < c
      → (sub16 j w.head < d) ⊎ (d + n ≤ sub16 j w.head)
      → get_or (copy_slots w (id_at w d) n slots) (j % c) none ≡ get_or slots (j % c) none
  unfolding copy_slots
  copied_far d zero j slots h fit hj jc away = refl
  copied_far d (suc n) j slots h fit hj jc away =
      let x = cell w (id_at w d) in
      let written = set slots (id_at w d % length slots) x in
      let apart : sub16 j w.head ≢ d = λ e. elim away [
        | inl before ↦ omega (arith, e, before)
        | inr behind ↦ omega (arith, e, behind)
      ] in
      let later : (sub16 j w.head < suc d) ⊎ (suc d + n ≤ sub16 j w.head) = elim away [
        | inl before ↦ inl (omega (arith, before))
        | inr behind ↦ inr (omega (arith, behind))
      ] in
      ap (λ i. get_or (copy_slots w i n written) (j % c) none) (next_id w d)
      ∙ copied_far (suc d) n j written (length-set slots (id_at w d % length slots) x ∙ h)
          (omega (arith, fit)) hj jc later
      ∙ get_or-set_ne slots (id_at w d % length slots) (j % c) x none
          (λ e. id_at_ne d j (omega (arith, fit)) hj jc apart (ap (λ m. id_at w d % m) (sym h) ∙ e))

  pub copied_near :
      (d n j : ℕ) (slots : List (Option Packet))
      → length slots ≡ c
      → d + n ≤ c
      → j < 2 ^ 16
      → d ≤ sub16 j w.head
      → sub16 j w.head < d + n
      → get_or (copy_slots w (id_at w d) n slots) (j % c) none ≡ cell w j
  unfolding copy_slots
  copied_near d zero j slots h fit hj le lt = absurd (omega arith)
  copied_near d (suc n) j slots h fit hj le lt =
      let i = id_at w d % length slots in
      let x = cell w (id_at w d) in
      let written = set slots i x in
      let kept = length-set slots i x ∙ h in
      ap (λ k. get_or (copy_slots w k n written) (j % c) none) (next_id w d)
      ∙ elim (Bool-cases (sub16 j w.head == d)) [
        | inl here ↦
            let off : sub16 j w.head ≡ d = (==_iff (sub16 j w.head) d).0 here in
            let same : id_at w d ≡ j = omega (arith, off, hj, head_lt) in
            let slot : j % c ≡ i = ap (λ m. m % c) (sym same) ∙ ap (λ m. id_at w d % m) (sym h) in
            copied_far (suc d) n j written kept (omega (arith, fit)) hj (omega (arith, lt, fit))
              (inl (omega (arith, off)))
            ∙ ap (λ m. get_or written m none) slot
            ∙ get_or-set_self slots i x none (mod-lt (id_at w d) (omega (arith, h, pos)))
            ∙ ap (cell w) same
        | inr there ↦
            let off : sub16 j w.head ≢ d = λ e. not_here d (sub16 j w.head) e there in
            copied_near (suc d) n j written kept (omega (arith, fit)) hj (omega (arith, le, off))
              (omega (arith, lt))
      ]
