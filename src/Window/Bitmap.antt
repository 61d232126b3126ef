-- ===== src/Window/Bitmap.antt =====
-- src/session/window.c: the bitmap of held packets, the contiguous ID and the test for a hole.
use ihslib.Common.{
  ◌∙◌, subst, ap, inl, inr, Bool-cases, ==_iff, ◌==◌, ℕ, zero, suc, ◌+◌, ◌-◌, ◌%◌, ◌^◌, ◌≤◌, ◌<◌,
  ◌≡◌, ◌≢◌, ◌↔◌, refl, Bool, true, false, List, length, get_or, replicate, if◌then◌else◌, sub16,
  arith, get_or-set_self, get_or-set_ne, length-set, length-replicate,
}
use ihslib.Window.State.{Window, is_used, size, live_slot}
use ihslib.Window.Feedback.{
  set_bit, mark_held, hole_bitmap, run_length, hole_from, has_hole, contiguous_id,
}

-- The bit of the ID that lies `back` behind the newest.
abbrev pub bit_of : Window → ℕ → ℕ → ℕ
bit_of w start back = sub16 (sub16 w.tail_id (back % 2 ^ 16)) start

length-set_bit : (k room : ℕ) (bits : List Bool) → length (set_bit k room bits) ≡ length bits
unfolding set_bit
length-set_bit k room bits = ground (arith, length-set bits k true)

set_bit_ne :
    (k j room : ℕ) (bits : List Bool)
    → k ≢ j
    → get_or (set_bit k room bits) j false ≡ get_or bits j false
unfolding set_bit
set_bit_ne k j room bits ne = ground (arith, get_or-set_ne bits k j true false, ne)

set_bit_self :
    (k room : ℕ) (bits : List Bool)
    → k < room
    → length bits ≡ room
    → get_or (set_bit k room bits) k false ≡ true
unfolding set_bit
set_bit_self k room bits lt e = ground (arith, get_or-set_self bits k true false)

get_or-replicate : (n k : ℕ) → get_or (replicate n false) k false ≡ false
get_or-replicate zero k = refl
get_or-replicate (suc n) zero = refl
get_or-replicate (suc n) (suc k) = get_or-replicate n k

-- The bits after the round of the `i`th slot, with `n` slots behind it.
abbrev round : Window → ℕ → ℕ → ℕ → ℕ → List Bool → List Bool
round w start room i n bits =
    if is_used (live_slot w i) then set_bit (bit_of w start n) room bits else bits

length-round :
    (w : Window) (start room i n : ℕ) (bits : List Bool)
    → length (round w start room i n bits) ≡ length bits
length-round w start room i n bits = ground (arith, length-set_bit (bit_of w start n) room bits)

round_ne :
    (w : Window) (start room i n k : ℕ) (bits : List Bool)
    → bit_of w start n ≢ k
    → get_or (round w start room i n bits) k false ≡ get_or bits k false
round_ne w start room i n k bits ne = ground (arith, set_bit_ne (bit_of w start n) k room bits ne)

round_self :
    (w : Window) (start room i n : ℕ) (bits : List Bool)
    → bit_of w start n < room
    → length bits ≡ room
    → get_or bits (bit_of w start n) false ≡ false
    → get_or (round w start room i n bits) (bit_of w start n) false ≡ is_used (live_slot w i)
round_self w start room i n bits lt e f =
    ground (arith, f, set_bit_self (bit_of w start n) room bits lt e)

module _ (w : Window) (start room : ℕ) (ht : w.tail_id < 2 ^ 16) (hs : start < 2 ^ 16) where
  bit_of_ne : (m n : ℕ) → m ≢ n → m < 2 ^ 16 → n < 2 ^ 16 → bit_of w start n ≢ bit_of w start m
  bit_of_ne m n ne lt le = omega arith

  -- Later rounds leave the bit alone.
  mark_held_later :
      (i n m : ℕ) (bits : List Bool)
      → n ≤ m
      → m < 2 ^ 16
      → get_or (mark_held w start room i n bits) (bit_of w start m) false
        ≡ get_or bits (bit_of w start m) false
  unfolding mark_held
  mark_held_later i zero m bits le lt = refl
  mark_held_later i (suc n) m bits le lt =
      mark_held_later (suc i) n m (round w start room i n bits) (omega arith) lt
      ∙ round_ne w start room i n (bit_of w start m) bits
          (bit_of_ne m n (omega arith) lt (omega arith))

  get_or-mark_held :
      (i n m : ℕ) (bits : List Bool)
      → m < n
      → n ≤ 2 ^ 16
      → bit_of w start m < room
      → length bits ≡ room
      → get_or bits (bit_of w start m) false ≡ false
      → get_or (mark_held w start room i n bits) (bit_of w start m) false
        ≡ is_used (live_slot w (i + (n - 1 - m)))
  unfolding mark_held
  get_or-mark_held i zero m bits lt le h e f = absurd (omega arith)
  get_or-mark_held i (suc n) m bits lt le h e f =
      let more = round w start room i n bits in
      elim (Bool-cases (m == n)) [
        | inl same ↦ ground (
          arith,
          (==_iff m n).0 same,
          mark_held_later (suc i) n m more (omega ((==_iff m n).0 same, arith)) (omega arith),
          round_self w start room i n bits,
        )
        | inr other ↦
            let ne : m ≢ n = ground (arith, ==_iff m n, other) in
            get_or-mark_held (suc i) n m more (omega (ne, arith)) (omega arith) h
              (length-round w start room i n bits ∙ e)
              (round_ne w start room i n (bit_of w start m) bits
                  (bit_of_ne m n ne (omega arith) (omega arith))
                ∙ f)
            ∙ ap (λ x. is_used (live_slot w x)) (omega (ne, arith))
      ]

  -- Of every ID in the window that the bitmap reaches, the bit says whether its packet is held, where
  -- the IDs are 16-bit words and the window holds no more of them than there are.
  pub hole_bitmap_lem :
      (back : ℕ) (bits : List Bool)
      → back < size w
      → size w ≤ 2 ^ 16
      → bit_of w start back < room
      → get_or (hole_bitmap w start room bits) (bit_of w start back) false
        ≡ is_used (live_slot w (size w - 1 - back))
  unfolding hole_bitmap
  hole_bitmap_lem back bits lt le h = ground (
    arith,
    get_or-mark_held 0 (size w) back (replicate room false) lt le h (length-replicate room false)
        (get_or-replicate room (bit_of w start back)),
  )

-- The slots from the `i`th on hold packets, `n` of them.
abbrev pub AllHeld : Window → ℕ → ℕ → Type 0
AllHeld w i n = (k : ℕ) → k < n → is_used (live_slot w (i + k)) ≡ true

AllHeld-suc :
    (w : Window) (i n : ℕ)
    → (AllHeld w i (suc n)) ↔ ((is_used (live_slot w i) ≡ true) × AllHeld w (suc i) n)
AllHeld-suc w i n = (
  (λ h. (
    subst (λ j. is_used (live_slot w j) ≡ true) (omega arith) (h 0 (omega arith)),
    λ k lt. subst (λ j. is_used (live_slot w j) ≡ true) (omega arith) (h (suc k) (omega arith)),
  )),
  (λ (first, rest). at first rest),
)
  where
    at :
        is_used (live_slot w i) ≡ true
        → AllHeld w (suc i) n
        → (k : ℕ) → k < suc n
        → is_used (live_slot w (i + k)) ≡ true
    at first rest zero lt = subst (λ j. is_used (live_slot w j) ≡ true) (omega arith) first
    at first rest (suc k) lt =
        subst (λ j. is_used (live_slot w j) ≡ true) (omega arith) (rest k (omega arith))

hole_from_lem : (w : Window) (i n : ℕ) → (hole_from w i n ≡ false) ↔ AllHeld w i n
unfolding hole_from
hole_from_lem w i zero = ((λ h k lt. absurd (omega arith)), (λ h. refl))
hole_from_lem w i (suc n) =
    let ih = hole_from_lem w (suc i) n in
    let parts = AllHeld-suc w i n in
    elim (Bool-cases (is_used (live_slot w i))) [
      | inl used ↦ rw used ((λ h. parts.1 (used, ih.0 h)), (λ h. ih.1 (parts.0 h).1))
      | inr free ↦ rw free ((λ h. absurd (cc)), (λ h. absurd (let held = (parts.0 h).0 in cc)))
    ]

run_length_le : (w : Window) (i n : ℕ) → run_length w true i n ≤ n
unfolding run_length
run_length_le w i zero = omega arith
run_length_le w i (suc n) = ground (arith, run_length_le w (suc i) n)

run_length_lem : (w : Window) (i n : ℕ) → (run_length w true i n ≡ n) ↔ AllHeld w i n
unfolding run_length
run_length_lem w i zero = ((λ h k lt. absurd (omega arith)), (λ h. refl))
run_length_lem w i (suc n) =
    let ih = run_length_lem w (suc i) n in
    let parts = AllHeld-suc w i n in
    elim (Bool-cases (is_used (live_slot w i))) [
      | inl used ↦
          rw used ((λ h. parts.1 (used, ih.0 (omega arith))), (λ h. ap suc (ih.1 (parts.0 h).1)))
      | inr free ↦
          rw free ((λ h. absurd (omega arith)), (λ h. absurd (let held = (parts.0 h).0 in cc)))
    ]

-- In a window of fewer than 2 ^ 16 packets, whose newest ID is a 16-bit word, the test for a hole
-- fails just where every slot from the oldest to the newest holds a packet, and the contiguous ID is
-- the newest just then.
pub has_hole-contiguous_id :
    (w : Window)
    → size w < 2 ^ 16
    → w.tail_id < 2 ^ 16
    → ((has_hole w ≡ false) ↔ AllHeld w 0 (size w))
      × ((contiguous_id w ≡ w.tail_id) ↔ AllHeld w 0 (size w))
unfolding has_hole contiguous_id
has_hole-contiguous_id w lt h =
    let test : (has_hole w ≡ false) ↔ (hole_from w 0 (size w) ≡ false) =
      (ground arith, ground arith) in
    let newest : (contiguous_id w ≡ w.tail_id) ↔ (run_length w true 0 (size w) ≡ size w) =
      (ground (arith, run_length_le w 0 (size w)), ground (arith, run_length_le w 0 (size w))) in
    let a = hole_from_lem w 0 (size w) in
    let b = run_length_lem w 0 (size w) in
    ((λ e. a.0 (test.0 e), λ e. test.1 (a.1 e)), (λ e. b.0 (newest.0 e), λ e. newest.1 (b.1 e)))
