-- ===== src/Window/Stamps.antt =====
-- src/session/window.c: what the passing on of times and the taking of a slot leave alone.
use ihslib.Common.{
  ℕ, zero, suc, ◌+◌, ◌-◌, ◌%◌, ◌<◌, ◌≡◌, inl, inr, refl, ap, ◌∙◌, Bool, true, false, Bool-cases,
  get_or, ◌==◌, ==_iff, if◌then◌else◌, arith, get_or-set_self, get_or-set_ne, length-set,
}
use ihslib.Packet.Wire.{WirePacket}
use ihslib.Buffer.Defs.{is_null}
use ihslib.Window.State.{Window, empty_slot, capacity, is_used, slot_at}
use ihslib.Window.Insert.{Offset, stamp_slots, propagate, set_stamp, use_packet}

-- Two windows with the same cursors and as many slots, of which one slot is used in both or in none.
pub record Alike (p : ℕ) (w t : Window) : Type 0 where
  pub length_eq : capacity t ≡ capacity w
  pub head_eq : t.head ≡ w.head
  pub tail_eq : t.tail_end ≡ w.tail_end
  pub tail_id_eq : t.tail_id ≡ w.tail_id
  pub used_eq : is_used (slot_at t p) ≡ is_used (slot_at w p)

Alike-refl : (p : ℕ) (w : Window) → Alike p w w
Alike-refl p w = record {
  length_eq = refl;
  head_eq = refl;
  tail_eq = refl;
  tail_id_eq = refl;
  used_eq = refl;
}

Alike-trans : (p : ℕ) (w t u : Window) → Alike p w t → Alike p t u → Alike p w u
Alike-trans p w t u a b = record {
  length_eq = b.length_eq ∙ a.length_eq;
  head_eq = b.head_eq ∙ a.head_eq;
  tail_eq = b.tail_eq ∙ a.tail_eq;
  tail_id_eq = b.tail_id_eq ∙ a.tail_id_eq;
  used_eq = b.used_eq ∙ a.used_eq;
}

used-set_stamp :
    (p q stamp : ℕ) (w : Window)
    → p < capacity w
    → is_used (slot_at (set_stamp q stamp w) p) ≡ is_used (slot_at w p)
unfolding set_stamp slot_at is_used
used-set_stamp p q stamp w lt = elim (Bool-cases (q == p)) [
  | inl e ↦
      rw
        (
          (==_iff q p).0 e,
          get_or-set_self w.slots p
              (record (get_or w.slots p empty_slot) { sender_timestamp = stamp }) empty_slot lt,
        )
        refl
  | inr e ↦
      ap (λ s. is_used s)
        (get_or-set_ne w.slots q p
          (record (get_or w.slots q empty_slot) { sender_timestamp = stamp }) empty_slot
          (ground (arith, ==_iff q p, e)))
]

set_stamp-Alike : (p q stamp : ℕ) (w : Window) → p < capacity w → Alike p w (set_stamp q stamp w)
unfolding set_stamp
set_stamp-Alike p q stamp w lt = record {
  length_eq = length-set w.slots q (record (slot_at w q) { sender_timestamp = stamp });
  head_eq = refl;
  tail_eq = refl;
  tail_id_eq = refl;
  used_eq = used-set_stamp p q stamp w lt;
}

Alike-if :
    (b : Bool) (p : ℕ) (w t u : Window) → Alike p w t → Alike p w u → Alike p w (if b then t else u)
Alike-if true p w t u a c = a
Alike-if false p w t u a c = c

propagate-Alike :
    (p position stamp back n : ℕ) (w : Window)
    → p < capacity w
    → Alike p w (propagate position stamp back n w)
unfolding propagate
propagate-Alike p position stamp back zero w lt = Alike-refl p w
propagate-Alike p position stamp back (suc n) w lt =
    let q = (position + capacity w - back) % capacity w in
    let a = set_stamp-Alike p q stamp w lt in
    Alike-if _ p w w _ (Alike-refl p w) (
      Alike-trans p w (set_stamp q stamp w) _ a (
        propagate-Alike p position stamp (suc back) n (set_stamp q stamp w)
          (omega (a.length_eq, lt, arith))))

pub stamp_slots-Alike :
    (p position stamp : ℕ) (offset : Offset) (w : Window)
    → p < capacity w
    → Alike p w (stamp_slots position stamp offset w)
unfolding stamp_slots
stamp_slots-Alike p position stamp offset w lt =
    let a = set_stamp-Alike p position stamp w lt in
    Alike-if _ p w _ w
      (Alike-trans p w (set_stamp position stamp w) _ a (
        propagate-Alike p position stamp 1 _ (set_stamp position stamp w)
          (omega (a.length_eq, lt, arith))))
      (Alike-refl p w)

pub used-use_packet :
    (p : ℕ) (packet : WirePacket) (w : Window)
    → p < capacity w
    → is_null packet.body ≡ false
    → is_used (slot_at (use_packet p packet w) p) ≡ true
unfolding use_packet slot_at is_used
used-use_packet p packet w lt e =
    rw
      (
        get_or-set_self w.slots p
            (record (get_or w.slots p empty_slot) { header = packet.header; body = packet.body })
            empty_slot lt,
        e,
      )
      refl
