-- ===== src/Outgoing/Growth.antt =====
-- src/session/outgoing.c: a window with more room gives the same packets.
use ihslib.Common.{
  ℕ, zero, suc, ◌*◌, ◌%◌, ◌^◌, ◌≤◌, ◌<◌, ◌≡◌, ◌⊎◌, inl, inr, refl, ap, ◌∙◌, sym, true, false,
  Option, none, some, List, length, get_or, set, replicate, length-set, length-replicate, ltb, leb,
  ◌==◌, if◌then◌else◌, arith, subst, Bool-cases, add16, sub16,
}
use ihslib.Packet.Header.{Packet}
use ihslib.Buffer.Laws.{double_to_lem}
use ihslib.Outgoing.Cache.{
  Cache, room, span, cell, get, copy_slots, larger_room, enlarge_cache, ensure_room,
}
use ihslib.Outgoing.Cells.{Divides, whole, half, double_to-Divides}
use ihslib.Outgoing.Copies.{blank-replicate, id_at, copied_far, copied_near}

-- A window whose IDs fit its ring, and whose slots behind its IDs are empty.
pub record IsCache (w : Cache) : Type 0 where
  pub head_lt : w.head < 2 ^ 16
  pub tail_lt : w.tail < 2 ^ 16
  pub divides : (room w ≡ 0) ⊎ Divides (room w)
  pub span_le : span w ≤ room w
  pub blank :
      (j : ℕ) → j < 2 ^ 16 → span w ≤ sub16 j w.head → sub16 j w.head < room w → cell w j ≡ none

-- A window with the same IDs and packets, and room for `need` IDs.
pub record Roomy (w : Cache) (need : ℕ) (e : Cache) : Type 0 where
  pub cache : IsCache e
  pub head_eq : e.head ≡ w.head
  pub tail_eq : e.tail ≡ w.tail
  pub enough : need ≤ room e
  pub gets : (j : ℕ) → j < 2 ^ 16 → get e j ≡ get w j

-- What an ID gives beyond the window's, and among them.
pub get_beyond : (w : Cache) (j : ℕ) → span w ≤ sub16 j w.head → get w j ≡ none
unfolding get
get_beyond w j h = ground (arith, h)

pub get_among : (w : Cache) (j : ℕ) → sub16 j w.head < span w → 0 < room w → get w j ≡ cell w j
unfolding get
get_among w j h k = ground (arith, h, k)

length-copy_slots :
    (w : Cache) (id n : ℕ) (slots : List (Option Packet))
    → length (copy_slots w id n slots) ≡ length slots
unfolding copy_slots
length-copy_slots w id zero slots = refl
length-copy_slots w id (suc n) slots =
    length-copy_slots w (add16 id 1) n (set slots (id % length slots) (cell w id))
    ∙ length-set slots (id % length slots) (cell w id)

Divides-le : (n : ℕ) → Divides n → n ≤ 2 ^ 16
Divides-le m (whole n e) = omega (arith, e)
Divides-le m (half n d) = omega (arith, Divides-le (n * 2) d)

sixty_four-Divides : Divides 64
sixty_four-Divides = half 64 (
    half 128 (
      half 256 (
        half 512 (
          half 1024
            (half 2048 (half 4096 (half 8192 (half 16384 (half 32768 (whole 65536 refl))))))))))

module _ (w : Cache) (size : ℕ) (v : IsCache w) (divides : Divides size) (pos : 0 < size)
    (more : room w ≤ size) where
  count_eq : (if room w == 0 then 0 else span w) ≡ span w
  count_eq = ground (arith, v.span_le)

  start_eq : w.head ≡ id_at w 0
  start_eq = omega (arith, v.head_lt)

  room_eq : room (enlarge_cache w size) ≡ size
  unfolding enlarge_cache
  room_eq =
      length-copy_slots w w.head (if room w == 0 then 0 else span w) (replicate size none)
      ∙ length-replicate size none

  cell_copies :
      (j : ℕ)
      → cell (enlarge_cache w size) j
        ≡ get_or (copy_slots w (id_at w 0) (span w) (replicate size none)) (j % size) none
  unfolding cell enlarge_cache
  cell_copies j =
      ap (λ m. get_or (enlarge_cache w size).slots (j % m) none) room_eq
      ∙ ap (λ n. get_or (copy_slots w w.head n (replicate size none)) (j % size) none) count_eq
      ∙ ap (λ i. get_or (copy_slots w i (span w) (replicate size none)) (j % size) none) start_eq

  cell_kept :
      (j : ℕ) → j < 2 ^ 16 → sub16 j w.head < span w → cell (enlarge_cache w size) j ≡ cell w j
  cell_kept j hj lt =
      cell_copies j
      ∙ copied_near w size divides pos (Divides-le size divides) v.head_lt 0 (span w) j
          (replicate size none) (length-replicate size none) (omega (arith, v.span_le, more)) hj
          (omega arith) (omega (arith, lt))

  cell_blank :
      (j : ℕ)
      → j < 2 ^ 16
      → span w ≤ sub16 j w.head
      → sub16 j w.head < size
      → cell (enlarge_cache w size) j ≡ none
  cell_blank j hj le lt =
      cell_copies j
      ∙ copied_far w size divides pos (Divides-le size divides) v.head_lt 0 (span w) j
          (replicate size none) (length-replicate size none) (omega (arith, v.span_le, more)) hj lt
          (inr (omega (arith, le)))
      ∙ blank-replicate size (j % size)

  get_kept : (j : ℕ) → j < 2 ^ 16 → get (enlarge_cache w size) j ≡ get w j
  unfolding enlarge_cache span
  get_kept j hj = elim (Bool-cases (leb (span w) (sub16 j w.head))) [
    | inl beyond ↦
        get_beyond (enlarge_cache w size) j (ground (arith, beyond))
        ∙ sym (get_beyond w j (ground (arith, beyond)))
    | inr among ↦
        let inside : sub16 j w.head < span w = ground (arith, among) in
        get_among (enlarge_cache w size) j inside (omega (arith, room_eq, pos))
        ∙ cell_kept j hj inside
        ∙ sym (get_among w j inside (omega (arith, v.span_le, inside)))
  ]

  enlarge_cache-Roomy : Roomy w size (enlarge_cache w size)
  unfolding enlarge_cache span
  enlarge_cache-Roomy = record {
    cache = record {
      head_lt = v.head_lt;
      tail_lt = v.tail_lt;
      divides = inr (subst Divides (sym room_eq) divides);
      span_le = omega (arith, v.span_le, more, room_eq);
      blank = λ j hj le lt. cell_blank j hj le (omega (arith, lt, room_eq));
    };
    head_eq = refl;
    tail_eq = refl;
    enough = omega (arith, room_eq);
    gets = get_kept;
  }

abbrev first_room : Cache → ℕ
first_room w = if room w == 0 then 64 else room w

first_room_lem :
    (w : Cache) → IsCache w → Divides (first_room w) × (0 < first_room w) × (room w ≤ first_room w)
first_room_lem w v = elim (Bool-cases (room w == 0)) [
  | inl no_room ↦ rw no_room (sixty_four-Divides, omega arith, ground (arith, no_room))
  | inr some_room ↦ elim v.divides [
    | inl zero_room ↦ absurd (ground (arith, some_room, zero_room))
    | inr d ↦ rw some_room (d, ground (arith, some_room), omega arith)
  ]
]

-- Where memory is given, there is room for any span below half the IDs.
pub ensure_room-Roomy :
    (w : Cache) (need : ℕ)
    → IsCache w
    → 0 < need
    → need ≤ 32768
    → (e : Cache) × (ensure_room true w need ≡ some e) × Roomy w need e
unfolding ensure_room larger_room
ensure_room-Roomy w need v pos half_le = elim (Bool-cases (leb need (room w))) [
  | inl fits ↦ (
    w,
    rw fits refl,
    record {
      cache = v;
      head_eq = refl;
      tail_eq = refl;
      enough = ground (arith, fits);
      gets = λ j h. refl;
    },
  )
  | inr larger ↦
      let (d, start_pos, start_le) = first_room_lem w v in
      let size = larger_room w need in
      let (reached, kept) = double_to_lem need (first_room w) need start_pos (omega arith) in
      let divides : Divides size = double_to-Divides need (first_room w) need d half_le in
      let allowed : ltb 32768 need ≡ false = ground (arith, half_le) in
      let r =
        enlarge_cache-Roomy w size v divides (omega (arith, reached, pos))
          (omega (arith, kept, start_le)) in
      (
        enlarge_cache w size,
        rw (larger, allowed) refl,
        record {
          cache = r.cache;
          head_eq = r.head_eq;
          tail_eq = r.tail_eq;
          enough = omega (arith, r.enough, reached);
          gets = r.gets;
        },
      )
]
