-- ===== src/Window/Ring.antt =====
-- src/session/window.c: what a newly inserted packet does to the ring's size and to its first needed
-- ID.
use native.Mathlib.Nat.{mod-eq_of_lt, mod-eq-sub-mod, mod-lt}
use ihslib.Common.{
  ℕ, suc, ◌+◌, ◌-◌, ◌%◌, ◌^◌, ◌≤◌, ◌<◌, ◌≡◌, ◌⊎◌, refl, sym, ap, subst, ◌∙◌, true, false, add16,
  arith, length-set,
}
use ihslib.Packet.Wire.{WirePacket}
use ihslib.Buffer.Defs.{is_null}
use ihslib.Window.State.{Window, capacity, is_used, slot_at, is_full, size, available, next_needed}
use ihslib.Window.Insert.{ahead, place, take_slot, move_tail, use_packet, write_position, exceeds}
use ihslib.Window.Stamps.{stamp_slots-Alike, used-use_packet}

-- The cursors lie in the ring, which has slots; the window has seen a packet.
pub record IsRing (w : Window) : Type 0 where
  pub slots_lt : 0 < capacity w
  pub capacity_lt : capacity w < 2 ^ 16
  pub head_le : w.head ≤ capacity w
  pub tail_lt : 0 < w.tail_end
  pub tail_le : w.tail_end ≤ capacity w
  pub tail_id_lt : w.tail_id < 2 ^ 16

size_le : (w : Window) → IsRing w → size w ≤ capacity w
unfolding size
size_le w v = ground (arith, v)

use_packet-lt :
    (p : ℕ) (packet : WirePacket) (w : Window)
    → p < capacity w
    → p < capacity (use_packet p packet w)
unfolding use_packet
use_packet-lt p packet w lt = omega (
  length-set w.slots p (record (slot_at w p) { header = packet.header; body = packet.body }),
  lt,
  arith,
)

mod_wrap : (x c : ℕ) → c ≤ x → x < c + c → x % c ≡ x - c
mod_wrap x c le lt = mod-eq-sub-mod le ∙ mod-eq_of_lt (omega arith)

minus_turn : (te n c : ℕ) → 0 < te → te + n + c - 1 - c ≡ te + n - 1
minus_turn te n c a = omega arith

position_cases :
    (te n c : ℕ)
    → 0 < te
    → te ≤ c
    → 0 < n
    → n ≤ c
    → ((te + n + c - 1) % c ≡ te + n - 1 × te + n - 1 < c)
      ⊎ ((te + n + c - 1) % c ≡ te + n - 1 - c × c ≤ te + n - 1)
position_cases te n c a b d e =
    let turn : (te + n + c - 1) % c ≡ (te + n - 1) % c =
      mod-eq-sub-mod (omega arith) ∙ ap (λ y. y % c) (minus_turn te n c a) in
    ground (arith, turn, mod-eq_of_lt {n = te + n - 1} {m = c}, mod_wrap (te + n - 1) c)

minus_one : (p k : ℕ) → k ≡ suc p → p ≡ k - 1
minus_one p k e = omega (e, arith)

-- The size of a ring whose newest packet lies `n` further.
size-ahead :
    (w t : Window) (n p : ℕ)
    → IsRing w
    → 0 < n
    → size w + n ≤ capacity w
    → capacity t ≡ capacity w
    → t.head ≡ w.head
    → p ≡ (w.tail_end + n + capacity w - 1) % capacity w
    → t.tail_end ≡ suc p
    → is_used (slot_at t p) ≡ true
    → size t ≡ size w + n
unfolding size is_full
size-ahead w t n p v lt le c h at e u =
    let newest : is_used (slot_at t (t.tail_end - 1)) ≡ true =
      subst (λ k. is_used (slot_at t k) ≡ true) (minus_one p t.tail_end e) u in
    ground (
      arith,
      v,
      c,
      h,
      at,
      e,
      newest,
      position_cases w.tail_end n (capacity w) v.tail_lt v.tail_le lt (omega (le, arith)),
    )

-- What `move_tail` leaves is a slot used in the slots before it.
take_slot-used :
    (position n : ℕ) (packet : WirePacket) (w : Window)
    → position < capacity w
    → is_null packet.body ≡ false
    → is_used (slot_at (take_slot position packet (ahead n) w) position) ≡ true
unfolding take_slot move_tail slot_at
take_slot-used position n packet w lt e =
    (stamp_slots-Alike position position packet.header.send_timestamp (ahead n)
      (use_packet position packet w) (use_packet-lt position packet w lt)).used_eq
    ∙ used-use_packet position packet w lt e

take_slot-capacity :
    (position n : ℕ) (packet : WirePacket) (w : Window)
    → position < capacity w
    → capacity (take_slot position packet (ahead n) w) ≡ capacity w
unfolding take_slot move_tail use_packet
take_slot-capacity position n packet w lt =
    (stamp_slots-Alike position position packet.header.send_timestamp (ahead n)
      (use_packet position packet w) (use_packet-lt position packet w lt)).length_eq
    ∙ length-set w.slots position
        (record (slot_at w position) { header = packet.header; body = packet.body })

take_slot-head :
    (position n : ℕ) (packet : WirePacket) (w : Window)
    → position < capacity w
    → (take_slot position packet (ahead n) w).head ≡ w.head
unfolding take_slot move_tail use_packet
take_slot-head position n packet w lt =
    (stamp_slots-Alike position position packet.header.send_timestamp (ahead n)
      (use_packet position packet w) (use_packet-lt position packet w lt)).head_eq

write_position-lt : (w : Window) (n : ℕ) → IsRing w → write_position w (ahead n) < capacity w
unfolding write_position
write_position-lt w n v = mod-lt (w.tail_end + n + capacity w - 1) v.slots_lt

write_position_lem :
    (n : ℕ) (w : Window)
    → write_position w (ahead n) ≡ (w.tail_end + n + capacity w - 1) % capacity w
unfolding write_position
write_position_lem n w = refl

take_slot-tail_end :
    (n : ℕ) (packet : WirePacket) (w : Window)
    → (take_slot (write_position w (ahead n)) packet (ahead n) w).tail_end
      ≡ suc (write_position w (ahead n))
unfolding take_slot move_tail
take_slot-tail_end n packet w = refl

take_slot-tail_id :
    (n : ℕ) (packet : WirePacket) (w : Window)
    → (take_slot (write_position w (ahead n)) packet (ahead n) w).tail_id ≡ packet.header.packet_id
unfolding take_slot move_tail
take_slot-tail_id n packet w = refl

next_needed_kept :
    (w t : Window) (n : ℕ)
    → IsRing w
    → {id : ℕ} → id ≡ add16 w.tail_id n
    → t.tail_id ≡ id
    → size t ≡ size w + n
    → 0 < n
    → size w + n ≤ capacity w
    → size w ≤ capacity w
    → next_needed t ≡ next_needed w
unfolding next_needed
next_needed_kept w t n v e f g lt le h =
    omega (v.tail_id_lt, v.capacity_lt, e, f, g, lt, le, h, arith)

place_eq :
    (packet : WirePacket) (n : ℕ) (w : Window)
    → IsRing w
    → 0 < n
    → size w + n ≤ capacity w
    → is_used (slot_at w (write_position w (ahead n))) ≡ false
    → (place packet (ahead n) w).window ≡ take_slot (write_position w (ahead n)) packet (ahead n) w
unfolding place exceeds available
place_eq packet n w v lt le free = ground (arith, v, free)

take_slot-ahead :
    (packet : WirePacket) (n : ℕ) (w : Window)
    → IsRing w
    → is_null packet.body ≡ false
    → 0 < n
    → size w + n ≤ capacity w
    → packet.header.packet_id ≡ add16 w.tail_id n
    → let t = take_slot (write_position w (ahead n)) packet (ahead n) w in
      size t ≡ size w + n × t.tail_id ≡ packet.header.packet_id × next_needed t ≡ next_needed w
take_slot-ahead packet n w v e lt le id =
    let p = write_position w (ahead n) in
    let t = take_slot p packet (ahead n) w in
    let below : p < capacity w = write_position-lt w n v in
    let sized : size t ≡ size w + n =
      size-ahead w t n p v lt le (take_slot-capacity p n packet w below)
        (take_slot-head p n packet w below) (write_position_lem n w) (take_slot-tail_end n packet w)
        (take_slot-used p n packet w below e) in
    (
      sized,
      take_slot-tail_id n packet w,
      next_needed_kept w t n v id (take_slot-tail_id n packet w) sized lt le (size_le w v),
    )

-- A packet `n` IDs ahead of the newest, for which the ring has a free slot and room, makes the window
-- larger by `n` and becomes the newest, and the window's first needed ID stays the same.
pub place-ahead :
    (packet : WirePacket) (n : ℕ) (w : Window)
    → IsRing w
    → is_null packet.body ≡ false
    → 0 < n
    → size w + n ≤ capacity w
    → packet.header.packet_id ≡ add16 w.tail_id n
    → is_used (slot_at w (write_position w (ahead n))) ≡ false
    → let t = (place packet (ahead n) w).window in
      size t ≡ size w + n × t.tail_id ≡ packet.header.packet_id × next_needed t ≡ next_needed w
place-ahead packet n w v e lt le id free =
    subst
      (λ t.
        size t ≡ size w + n × t.tail_id ≡ packet.header.packet_id × next_needed t ≡ next_needed w)
      (sym (place_eq packet n w v lt le free)) (take_slot-ahead packet n w v e lt le id)
