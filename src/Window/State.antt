-- ===== src/Window/State.antt =====
-- src/session/window.c: the ring, its construction, its size and its slots. The cursor `tail_end` is
-- `tail.pos + 1`, so 0 stands for the position -1 of a window that has seen no packet. `id` is
-- `tail.id`. A slot that `memset` has cleared is `empty_slot`.
use ihslib.Common.{
  ℕ, ◌+◌, ◌-◌, ◌%◌, Bool, true, false, not, ◌&&◌, ◌||◌, List, [], map, length, get_or, set,
  replicate, leb, ◌==◌, if◌then◌else◌, add16, sub16,
}
use ihslib.Packet.Header.{Header, type_reliable, type_unreliable}
use ihslib.Buffer.Defs.{Buffer, is_null}

-- `WindowItem`. (The array `data` of the window is the field `slots`.)
pub record Slot : Type 0 where
  pub header : Header
  pub body : Buffer
  pub sender_timestamp : ℕ

pub data PollError : Type 0 where
  poll_ok : PollError
  poll_limit : PollError
  poll_no_memory : PollError

-- `IHS_SessionPacketsWindow`.
pub record Window : Type 0 where
  pub slots : List Slot
  pub reliable : Bool
  pub poll_error : PollError
  pub head : ℕ
  pub tail_end : ℕ
  pub tail_id : ℕ

abbrev pub empty_slot : Slot
empty_slot = record {
  header = record {
    has_crc = false;
    type = 0;
    retransmit_count = 0;
    src_connection_id = 0;
    dst_connection_id = 0;
    channel_id = 0;
    fragment_id = 0;
    packet_id = 0;
    send_timestamp = 0;
    auto_packet_id = false;
    hid_report = false;
    receive_timestamp = 0;
    receive_begin = 0;
  };
  body = record {
    cells = [];
    initial_capacity = 0;
    max_capacity = 0;
    offset = 0;
    size = 0;
    suffix = 0;
  };
  sender_timestamp = 0;
}

abbrev pub capacity : Window → ℕ
capacity w = length w.slots

-- `FrameItemIsUsed`.
unfoldable pub is_used : Slot → Bool
unfolding is_null
is_used s = not (is_null s.body)

-- `FrameItemIsHead`.
unfoldable pub is_head : Slot → Bool
is_head s = s.header.type == type_reliable || s.header.type == type_unreliable

-- The slot at a position.
unfoldable pub slot_at : Window → ℕ → Slot
slot_at w position = get_or w.slots position empty_slot

-- `FrameItemRecycle` of the slot at a position.
unfoldable pub recycle : Window → ℕ → Window
recycle w position = record w { slots = set w.slots position empty_slot }

-- `IHS_SessionPacketsWindowCreate`, its allocations given.
unfoldable pub create : ℕ → Window
create count = record {
  slots = replicate count empty_slot;
  reliable = false;
  poll_error = poll_ok;
  head = 0;
  tail_end = 0;
  tail_id = 0;
}

-- `IHS_SessionPacketsWindowCreateReliable`.
unfoldable pub create_reliable : ℕ → ℕ → Window
unfolding create
create_reliable count first_id = record (create count) {
  reliable = true;
  head = 1;
  tail_end = 1;
  tail_id = sub16 first_id 1;
}

-- `IHS_SessionPacketsWindowCreateMedia`.
unfoldable pub create_media : ℕ → Window
unfolding create_reliable
create_media count = record (create_reliable count 0) { reliable = false }

unfoldable pub release_slot : Slot → Slot
unfolding is_used
release_slot s = if is_used s then empty_slot else s

-- `IHS_SessionPacketsWindowReleaseAll`.
unfoldable pub release_all : Window → Window
unfolding release_slot
release_all w = record w { slots = map release_slot w.slots; head = 0; tail_end = 0 }

unfoldable pub is_full : Window → Bool
unfolding is_used slot_at
is_full w = w.tail_end == w.head && is_used (slot_at w (w.tail_end - 1))

-- `IHS_SessionPacketsWindowSize`.
unfoldable pub size : Window → ℕ
unfolding is_full
size w =
    if w.tail_end == 0
    then 0
    else if is_full w
    then capacity w
    else if leb w.head w.tail_end
    then w.tail_end - w.head
    else capacity w - w.head + w.tail_end

-- `IHS_SessionPacketsWindowAvailable`, a `uint16_t` difference.
unfoldable pub available : Window → ℕ
unfolding size
available w = sub16 (capacity w) (size w)

-- `IHS_SessionPacketsWindowNextNeededPacketId`.
unfoldable pub next_needed : Window → ℕ
unfolding size
next_needed w = sub16 (add16 w.tail_id 1) (size w)

-- The slot of the `i`th live position.
unfoldable pub live_slot : Window → ℕ → Slot
unfolding slot_at
live_slot w i = slot_at w ((w.head + i) % capacity w)
