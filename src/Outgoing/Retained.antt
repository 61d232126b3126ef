-- ===== src/Outgoing/Retained.antt =====
-- src/session/outgoing.c: a packet that is retained is the one that its ID gives from then on, and every
-- other ID gives what it gave before, also where the window had to grow.
use ihslib.Common.{
  ℕ, ◌+◌, ◌^◌, ◌<◌, ◌≡◌, inl, inr, refl, ap, ◌∙◌, sym, Bool, true, none, some, ltb, leb, ◌==◌,
  ==_iff, if◌then◌else◌, arith, Bool-cases, sub16,
}
use ihslib.Packet.Header.{Packet}
use ihslib.Outgoing.Cache.{
  Cache, room, span, cell, get, ensure_room, start_cache, put_packet, put_if_empty, retain_near,
  retain,
}
use ihslib.Outgoing.Cells.{Divides}
use ihslib.Outgoing.Copies.{not_here}
use ihslib.Outgoing.Growth.{IsCache, get_among, ensure_room-Roomy}
use ihslib.Outgoing.Put.{leb_le, leb_gt, put_own, put_other, put-IsCache}

if_true : {A : Type 0} (b : Bool) (x y : A) → b ≡ true → (if b then x else y) ≡ x
if_true b x y h = rw h refl

some_room : (e : Cache) → IsCache e → 0 < room e → Divides (room e)
some_room e v pos = elim v.divides [
  | inl no_room ↦ absurd (omega (arith, no_room, pos))
  | inr d ↦ d
]

free_cell :
    (e : Cache) (id : ℕ)
    → IsCache e
    → id < 2 ^ 16
    → sub16 id e.head < room e
    → get e id ≡ none
    → cell e id ≡ none
free_cell e id v id_lt fits free = elim (Bool-cases (leb (span e) (sub16 id e.head))) [
  | inl beyond ↦ v.blank id id_lt (leb_le beyond) fits
  | inr among ↦ sym (get_among e id (leb_gt among) (omega (arith, fits))) ∙ free
]

put_free :
    (e : Cache) (packet : Packet) (time : ℕ)
    → cell e packet.header.packet_id ≡ none
    → put_if_empty e packet time ≡ (true, put_packet e packet time)
unfolding put_if_empty
put_free e packet time h = rw (h, put_if_empty) refl

start_same : (w : Cache) (id : ℕ) → w.initialized ≡ true → start_cache w id ≡ w
unfolding start_cache
start_same w id h = if_true w.initialized w _ h

retained_lem :
    (w e : Cache) (packet : Packet) (time : ℕ)
    → sub16 packet.header.packet_id w.head < 32768
    → ensure_room true w (sub16 packet.header.packet_id w.head + 1) ≡ some e
    → cell e packet.header.packet_id ≡ none
    → retain_near true true w packet time ≡ (true, put_packet e packet time)
unfolding retain_near
retained_lem w e packet time near made free =
    let allowed : ltb (sub16 packet.header.packet_id w.head) 32768 ≡ true = ground (arith, near) in
    rw (allowed, made, retain_near) (put_free e packet time free)

-- On a started window whose IDs fit its ring, a packet with an ID less than half the IDs ahead of
-- the head, which no packet has yet, is retained where memory is given. Its ID gives it from then
-- on, every other ID gives what it gave before, also where the window had to grow, and the window's
-- IDs still fit its ring.
pub get-retain :
    (w : Cache) (packet : Packet) (time j : ℕ)
    → IsCache w
    → w.initialized ≡ true
    → packet.header.packet_id < 2 ^ 16
    → sub16 packet.header.packet_id w.head < 32768
    → get w packet.header.packet_id ≡ none
    → j < 2 ^ 16
    → (t : Cache) × (retain true true w packet time ≡ (true, t))
      × IsCache t
      × (get t j ≡ (if j == packet.header.packet_id then some packet else get w j))
unfolding retain
get-retain w packet time j v started id_lt near free hj =
    let id = packet.header.packet_id in
    let (e, made, r) =
      ensure_room-Roomy w (sub16 id w.head + 1) v (omega arith) (omega (arith, near)) in
    let close : sub16 id e.head < 32768 = omega (arith, r.head_eq, near) in
    let fits : sub16 id e.head < room e = omega (arith, r.head_eq, r.enough) in
    let divides = some_room e r.cache (omega (arith, fits)) in
    let is_free = free_cell e id r.cache id_lt fits (r.gets id id_lt ∙ free) in
    (
      put_packet e packet time,
      ap (λ s. retain_near true true s packet time) (start_same w id started)
          ∙ retained_lem w e packet time near made is_free,
      put-IsCache e packet time r.cache id_lt close fits divides,
      elim (Bool-cases (j == id)) [
        | inl own ↦
            let same : j ≡ id = (==_iff j id).0 own in
            rw own (
              ap (get (put_packet e packet time)) same
              ∙ put_own e packet time r.cache id_lt close fits divides)
        | inr other ↦ rw other (
            put_other e packet time r.cache id_lt close fits divides j hj
              (λ e. not_here id j e other)
            ∙ r.gets j hj)
      ],
    )
