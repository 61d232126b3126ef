-- ===== src/Window/Insert.antt =====
-- src/session/window.c (IHS_SessionPacketsWindowAddEx): a packet takes its slot, the reliable window
-- grows, and the packet's time reaches the slots before it. `allocated` is whether `calloc` gave the
-- larger ring.
use ihslib.Common.{
  ℕ, zero, suc, ◌+◌, ◌-◌, ◌%◌, ◌^◌, Bool, true, false, not, ◌&&◌, ◌||◌, List, [], ◌∷◌, ◌++◌, set,
  replicate, leb, ltb, ◌==◌, if◌then◌else◌, sub16, sub32, is_negative32,
}
use ihslib.Packet.Wire.{WirePacket}
use ihslib.Buffer.Defs.{double_to}
use ihslib.Window.State.{
  Window, Slot, empty_slot, capacity, is_used, slot_at, size, available, live_slot,
}

-- `tailOffset`, an `int` with its sign.
pub data Offset : Type 0 where
  ahead : ℕ → Offset
  behind : ℕ → Offset

unfoldable pub tail_offset : Window → ℕ → Offset
tail_offset w packet_id =
    let d = sub16 packet_id w.tail_id in
    if w.tail_end == 0
    then ahead 1
    else if ltb 0 d && ltb d (2 ^ 15)
    then ahead d
    else behind (sub16 w.tail_id packet_id)

-- The live slots in order, from the head on.
unfoldable pub live_from : Window → ℕ → ℕ → List Slot
unfolding live_slot
live_from w i zero = []
live_from w i (suc n) = live_slot w i ∷ live_from w (suc i) n

-- The ring with more slots: the live ones come first.
unfoldable pub enlarge : ℕ → Window → Window
unfolding size live_from
enlarge count w =
    let n = size w in
    record w {
      slots = live_from w 0 n ++ replicate (count - n) empty_slot;
      head = if n == 0 then count else 0;
      tail_end = if n == 0 then count else n;
    }

-- The slot's time with a packet's, where that is the later one.
unfoldable pub is_earlier : ℕ → ℕ → Bool
is_earlier old stamp = old == 0 || is_negative32 (sub32 old stamp)

unfoldable pub set_stamp : ℕ → ℕ → Window → Window
unfolding slot_at
set_stamp position stamp w = record w {
  slots = set w.slots position (record (slot_at w position) { sender_timestamp = stamp });
}

-- The loop over the preceding slots, `n` of them left; `back` is the loop's counter.
unfoldable pub propagate : ℕ → ℕ → ℕ → ℕ → Window → Window
unfolding set_stamp slot_at
propagate position stamp back zero w = w
propagate position stamp back (suc n) w =
    let previous = (position + capacity w - back) % capacity w in
    let old = (slot_at w previous).sender_timestamp in
    let rest = propagate position stamp (suc back) n (set_stamp previous stamp w) in
    if not (old == 0) && not (is_negative32 (sub32 stamp old)) then w else rest

-- `preceding` of the source: the live slots before the packet's.
unfoldable pub preceding : Window → Offset → ℕ
unfolding size
preceding w (ahead n) = size w + n - 1
preceding w (behind n) = size w - n - 1

unfoldable pub stamp_slots : ℕ → ℕ → Offset → Window → Window
unfolding is_earlier propagate set_stamp preceding slot_at
stamp_slots position stamp offset w =
    if is_earlier (slot_at w position).sender_timestamp stamp
    then propagate position stamp 1 (preceding w offset) (set_stamp position stamp w)
    else w

-- `FrameItemUsePacket`.
unfoldable pub use_packet : ℕ → WirePacket → Window → Window
unfolding slot_at
use_packet position packet w = record w {
  slots =
      set w.slots position
        (record (slot_at w position) { header = packet.header; body = packet.body });
}

unfoldable pub move_tail : ℕ → ℕ → Offset → Window → Window
move_tail position packet_id (behind n) w = w
move_tail position packet_id (ahead n) w = record w { tail_end = suc position; tail_id = packet_id }

unfoldable pub write_position : Window → Offset → ℕ
write_position w (ahead n) = (w.tail_end + n + capacity w - 1) % capacity w
write_position w (behind n) = (w.tail_end + capacity w - 1 - n) % capacity w

unfoldable pub exceeds : ℕ → Offset → Bool
exceeds room (ahead n) = ltb room n
exceeds room (behind n) = false

-- The result, whether the packet is newly inserted, and the window.
pub record Added : Type 0 where
  pub accepted : Bool
  pub inserted : Bool
  pub window : Window

unfoldable pub take_slot : ℕ → WirePacket → Offset → Window → Window
unfolding move_tail stamp_slots use_packet
take_slot position packet offset w =
    move_tail position packet.header.packet_id offset
      (stamp_slots position packet.header.send_timestamp offset (use_packet position packet w))

-- From the test of the window's capacity on.
unfoldable pub place : WirePacket → Offset → Window → Added
place packet offset w =
    let position = write_position w offset in
    if exceeds (capacity w) offset || exceeds (available w) offset
    then record { accepted = false; inserted = false; window = w }
    else if is_used (slot_at w position)
    then record { accepted = true; inserted = false; window = w }
    else record { accepted = true; inserted = true; window = take_slot position packet offset w }

unfoldable pub grow_and_place : Bool → WirePacket → ℕ → Window → Added
unfolding size enlarge place double_to
grow_and_place allocated packet n w =
    let required = size w + n in
    if ltb 16384 required
    then record { accepted = true; inserted = false; window = w }
    else if leb required (capacity w)
    then place packet (ahead n) w
    else if allocated
    then place packet (ahead n) (enlarge (double_to required 64 required) w)
    else record { accepted = false; inserted = false; window = w }

unfoldable pub add_at : Bool → WirePacket → Offset → Window → Added
unfolding size place grow_and_place
add_at allocated packet (behind n) w =
    if leb (size w) n
    then record { accepted = true; inserted = false; window = w }
    else place packet (behind n) w
add_at allocated packet (ahead n) w =
    if w.reliable then grow_and_place allocated packet n w else place packet (ahead n) w

-- `IHS_SessionPacketsWindowAddEx`.
unfoldable pub add_ex : Bool → WirePacket → Window → Added
unfolding tail_offset add_at
add_ex allocated packet w = add_at allocated packet (tail_offset w packet.header.packet_id) w
