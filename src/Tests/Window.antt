-- ===== src/Tests/Window.antt =====
-- src/session/window.c: a reliable window that received its packets out of order, polled and asked
-- for its feedback.
use ihslib.Common.{length, ◌+◌, ℕ, ◌-◌, ◌≡◌, ◌↔◌, refl, true, false, [], ◌∷◌, map, get_or, arith}
use ihslib.Packet.Wire.{WirePacket}
use ihslib.Buffer.Defs.{is_null}
use ihslib.Window.State.{
  slot_at, available, Window, empty_slot, create_reliable, is_used, live_slot, size, next_needed,
}
use ihslib.Window.Insert.{place, exceeds, write_position, take_slot, ahead, add_ex}
use ihslib.Window.Feedback.{has_hole, contiguous_id, hole_bitmap}
use ihslib.Window.Ring.{IsRing, place-ahead}
use ihslib.Window.Bitmap.{bit_of, hole_bitmap_lem, AllHeld, has_hole-contiguous_id}

abbrev pub packet : ℕ → WirePacket
packet id = record {
  header = record (empty_slot.header) { type = 5; packet_id = id; send_timestamp = 10 + id };
  body = record {
    cells = 1 ∷ 2 ∷ 3 ∷ [];
    initial_capacity = 3;
    max_capacity = 16;
    offset = 0;
    size = 2;
    suffix = 0;
  };
  crc = 0;
}

abbrev with_packet : ℕ → Window → Window
with_packet id w = (add_ex true (packet id) w).window

-- Packets 0 and 2 of a window of four slots; packet 1 is missing.
abbrev pub gapped : Window
gapped = with_packet 2 (with_packet 0 (create_reliable 4 0))

gapped-size : size gapped ≡ 3
unfolding size add_ex place exceeds available write_position slot_at is_used take_slot
    create_reliable
gapped-size = refl

gapped-next_needed : next_needed gapped ≡ 0
unfolding next_needed add_ex place exceeds available write_position slot_at is_used take_slot
    create_reliable
gapped-next_needed = refl

gapped-used : map is_used gapped.slots ≡ false ∷ true ∷ false ∷ true ∷ []
unfolding add_ex place exceeds available write_position slot_at is_used take_slot create_reliable
gapped-used = refl

gapped-tail_id : gapped.tail_id ≡ 2
unfolding add_ex place exceeds available write_position slot_at is_used take_slot create_reliable
gapped-tail_id = refl

-- The bit of packet 1, which lies one behind the newest.
hole_bitmap_lem_example :
    get_or (hole_bitmap gapped 0 8 []) (bit_of gapped 0 1) false
    ≡ is_used (live_slot gapped (size gapped - 1 - 1))
hole_bitmap_lem_example =
    hole_bitmap_lem gapped 0 8 (omega (gapped-tail_id, arith)) (omega arith) 1 []
      (omega (gapped-size, arith)) (omega (gapped-size, arith)) (omega (gapped-tail_id, arith))

has_hole-contiguous_id_example :
    ((has_hole gapped ≡ false) ↔ AllHeld gapped 0 (size gapped))
    × ((contiguous_id gapped ≡ gapped.tail_id) ↔ AllHeld gapped 0 (size gapped))
has_hole-contiguous_id_example =
    has_hole-contiguous_id gapped (omega (gapped-size, arith)) (omega (gapped-tail_id, arith))

-- The window before packet 2 came.
abbrev started : Window
started = with_packet 0 (create_reliable 4 0)

started-size : size started ≡ 1
unfolding size add_ex place exceeds available write_position slot_at is_used take_slot
    create_reliable
started-size = refl

started-slots : length started.slots ≡ 4
unfolding add_ex place exceeds available write_position slot_at is_used take_slot create_reliable
started-slots = refl

started-cursors : started.head ≡ 1 × started.tail_end ≡ 2 × started.tail_id ≡ 0
unfolding add_ex place exceeds available write_position slot_at is_used take_slot create_reliable
started-cursors = (refl, refl, refl)

started-free : is_used (slot_at started (write_position started (ahead 2))) ≡ false
unfolding add_ex place exceeds available write_position slot_at is_used take_slot create_reliable
started-free = refl

packet-is_null : is_null (packet 2).body ≡ false
unfolding is_null
packet-is_null = refl

started-IsRing : IsRing started
started-IsRing = record {
  slots_lt = omega (started-slots, arith);
  capacity_lt = omega (started-slots, arith);
  head_le = omega (started-slots, started-cursors.0, arith);
  tail_lt = omega (started-cursors.1, arith);
  tail_le = omega (started-slots, started-cursors.1, arith);
  tail_id_lt = omega (started-cursors.2, arith);
}

place-ahead_example :
    size (place (packet 2) (ahead 2) started).window ≡ size started + 2
    × (place (packet 2) (ahead 2) started).window.tail_id ≡ 2
    × next_needed (place (packet 2) (ahead 2) started).window ≡ next_needed started
place-ahead_example =
    place-ahead (packet 2) 2 started started-IsRing packet-is_null (omega arith)
      (omega (started-size, started-slots, arith)) (omega (started-cursors.2, arith)) started-free
