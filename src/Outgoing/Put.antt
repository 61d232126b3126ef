-- ===== src/Outgoing/Put.antt =====
-- src/session/outgoing.c: a packet in its slot, where no packet was.
use ihslib.Common.{
  ℕ, suc, ◌%◌, ◌^◌, ◌≤◌, ◌<◌, ◌≡◌, ◌≢◌, ◌⊎◌, inl, inr, refl, ap, ◌∙◌, sym, true, false, none, some,
  get_or, set, get_or-set_self, get_or-set_ne, length-set, leb, if◌then◌else◌, arith, subst,
  Bool-cases, sub16,
}
use native.Mathlib.Nat.{mod-lt}
use ihslib.Packet.Header.{Packet}
use ihslib.Outgoing.Cache.{Cache, room, span, cell, get, put_packet}
use ihslib.Outgoing.Cells.{Divides, slot_unique}
use ihslib.Outgoing.Growth.{IsCache, get_beyond, get_among}

pub leb_le : {a b : ℕ} → leb a b ≡ true → a ≤ b
leb_le h = ground (arith, h)

pub leb_gt : {a b : ℕ} → leb a b ≡ false → b < a
leb_gt h = ground (arith, h)

module _ (w : Cache) (p : Packet) (time : ℕ) (v : IsCache w) where
  abbrev own_id : ℕ
  own_id = p.header.packet_id

  abbrev distance : ℕ
  distance = sub16 p.header.packet_id w.head

  module _ (id_lt : own_id < 2 ^ 16) (near : distance < 32768) (fits : distance < room w)
      (divides : Divides (room w)) where
    room_put : room (put_packet w p time) ≡ room w
    unfolding put_packet
    room_put = length-set w.slots (own_id % room w) (some p)

    span_put : span (put_packet w p time) ≡ (if leb (span w) distance then suc distance else span w)
    unfolding put_packet span
    span_put = elim (Bool-cases (leb (span w) distance)) [
      | inl beyond ↦ rw (beyond, span) (omega (arith, near, v.head_lt, id_lt))
      | inr among ↦ rw (among, span) refl
    ]

    own_cell : cell (put_packet w p time) own_id ≡ some p
    unfolding cell put_packet
    own_cell =
        ap (λ n. get_or (set w.slots (own_id % room w) (some p)) (own_id % n) none)
          (length-set w.slots (own_id % room w) (some p))
        ∙ get_or-set_self w.slots (own_id % room w) (some p) none
            (mod-lt own_id (omega (arith, fits)))

    other_cell :
        (j : ℕ)
        → j < 2 ^ 16
        → sub16 j w.head < room w
        → j ≢ own_id
        → cell (put_packet w p time) j ≡ cell w j
    unfolding cell put_packet
    other_cell j hj jc ne =
        ap (λ n. get_or (set w.slots (own_id % room w) (some p)) (j % n) none)
          (length-set w.slots (own_id % room w) (some p))
        ∙ get_or-set_ne w.slots (own_id % room w) (j % room w) (some p) none (λ e. ne (
            slot_unique (room w) w.head j own_id divides (omega (arith, fits)) v.head_lt hj id_lt jc
              fits (sym e)))

    head_put : (put_packet w p time).head ≡ w.head
    unfolding put_packet
    head_put = refl

    tail_put : (put_packet w p time).tail < 2 ^ 16
    unfolding put_packet
    tail_put = elim (Bool-cases (leb (span w) distance)) [
      | inl beyond ↦ rw beyond (omega arith)
      | inr among ↦ rw among v.tail_lt
    ]

    span_cases :
        ((span w ≤ distance) × (span (put_packet w p time) ≡ suc distance))
        ⊎ ((distance < span w) × (span (put_packet w p time) ≡ span w))
    span_cases = elim (Bool-cases (leb (span w) distance)) [
      | inl beyond ↦ inl (ground (arith, beyond), rw beyond at span_put)
      | inr among ↦ inr (ground (arith, among), rw among at span_put)
    ]

    grown : (span w ≤ span (put_packet w p time)) × (distance < span (put_packet w p time))
    grown = elim span_cases [
      | inl (beyond, e) ↦ (omega (arith, beyond, e), omega (arith, e))
      | inr (among, e) ↦ (omega (arith, e), omega (arith, among, e))
    ]

    within_lem :
        (j : ℕ)
        → sub16 j w.head < span (put_packet w p time)
        → span w ≤ sub16 j w.head
        → sub16 j w.head < room w
    within_lem j lt out = elim span_cases [
      | inl (beyond, e) ↦ omega (arith, lt, e, fits)
      | inr (among, e) ↦ omega (arith, lt, e, out)
    ]

    span_fits : span (put_packet w p time) ≤ room (put_packet w p time)
    span_fits = elim span_cases [
      | inl (beyond, e) ↦ omega (arith, e, fits, room_put)
      | inr (among, e) ↦ omega (arith, e, v.span_le, room_put)
    ]

    own_inside : (j : ℕ) → j ≡ own_id → span (put_packet w p time) ≤ sub16 j w.head → ⊥
    own_inside j e le = omega (arith, e, le, grown.1)

    pub put_own : get (put_packet w p time) own_id ≡ some p
    put_own =
        get_among (put_packet w p time) own_id (omega (arith, head_put, grown.1))
          (omega (arith, room_put, fits))
        ∙ own_cell

    pub put_other : (j : ℕ) → j < 2 ^ 16 → j ≢ own_id → get (put_packet w p time) j ≡ get w j
    put_other j hj ne = elim (Bool-cases (leb (span w) (sub16 j w.head))) [
      | inl beyond ↦
          let out : span w ≤ sub16 j w.head = ground (arith, beyond) in
          elim (Bool-cases (leb (span (put_packet w p time)) (sub16 j w.head))) [
            | inl behind ↦
                get_beyond (put_packet w p time) j (omega (arith, head_put, leb_le behind))
                ∙ sym (get_beyond w j out)
            | inr inside ↦
                let lt : sub16 j w.head < span (put_packet w p time) = leb_gt inside in
                let short : sub16 j w.head < room w = within_lem j lt out in
                get_among (put_packet w p time) j (omega (arith, head_put, lt))
                  (omega (arith, room_put, fits))
                ∙ other_cell j hj short ne
                ∙ v.blank j hj out short
                ∙ sym (get_beyond w j out)
          ]
      | inr among ↦
          let lt : sub16 j w.head < span w = leb_gt among in
          get_among (put_packet w p time) j (omega (arith, head_put, lt, grown.0))
            (omega (arith, room_put, fits))
          ∙ other_cell j hj (omega (arith, lt, v.span_le)) ne
          ∙ sym (get_among w j lt (omega (arith, fits)))
    ]

    pub put-IsCache : IsCache (put_packet w p time)
    put-IsCache = record {
      head_lt = omega (arith, head_put, v.head_lt);
      tail_lt = tail_put;
      divides = inr (subst Divides (sym room_put) divides);
      span_le = span_fits;
      blank = λ j hj le lt.
          let out : span w ≤ sub16 j w.head = omega (arith, head_put, le, grown.0) in
          let short : sub16 j w.head < room w = omega (arith, head_put, lt, room_put) in
          let ne : j ≢ own_id = λ e. own_inside j e (omega (arith, head_put, le)) in
          other_cell j hj short ne ∙ v.blank j hj out short;
    }
