-- ===== src/Outgoing/Cache.antt =====
-- src/session/outgoing.c, outgoing.h: a channel's window of unreliable packets. `slots` and `created` are
-- the two arrays, of one length; an empty slot is none. The capacity is 0 or 64 doubled some times, so
-- `& (capacity - 1)` is the remainder by it. `allocated` is whether memory is given.
use ihslib.Common.{
  ℕ, zero, suc, ◌+◌, ◌%◌, Bool, true, false, ◌||◌, Option, none, some, List, length, get_or, set,
  replicate, ltb, leb, ◌==◌, if◌then◌else◌, add16, sub16,
}
use ihslib.Packet.Header.{Packet}
use ihslib.Buffer.Defs.{double_to}

-- `IHS_OutgoingWindow`.
pub record Cache : Type 0 where
  pub slots : List (Option Packet)
  pub created : List ℕ
  pub head : ℕ
  pub tail : ℕ
  pub cursor : ℕ
  pub initialized : Bool
  pub last_feedback : ℕ

abbrev pub room : Cache → ℕ
room w = length w.slots

-- The number of IDs from the head to the tail.
unfoldable pub span : Cache → ℕ
span w = sub16 w.tail w.head

-- The slot of an ID.
unfoldable pub cell : Cache → ℕ → Option Packet
cell w id = get_or w.slots (id % room w) none

-- `release`.
unfoldable pub release : Cache → ℕ → Cache
release w id = if room w == 0 then w else record w { slots = set w.slots (id % room w) none }

-- `get`.
unfoldable pub get : Cache → ℕ → Option Packet
get w id = if room w == 0 || leb (span w) (sub16 id w.head) then none else cell w id

-- One round of `advance`.
unfoldable pub advance_one : Cache → Cache
advance_one w =
    let r = release w w.head in
    record r {
      created = if room w == 0 then w.created else set w.created (w.head % room w) 0;
      head = add16 w.head 1;
    }

-- `advance`.
unfoldable pub advance : ℕ → Cache → Cache
advance zero w = w
advance (suc n) w = advance n (advance_one w)

-- The loop that copies both arrays into larger ones, for the `n` IDs from `id` on.
unfoldable pub copy_slots : Cache → ℕ → ℕ → List (Option Packet) → List (Option Packet)
copy_slots w id zero slots = slots
copy_slots w id (suc n) slots =
    copy_slots w (add16 id 1) n (set slots (id % length slots) (cell w id))

unfoldable pub copy_times : Cache → ℕ → ℕ → List ℕ → List ℕ
copy_times w id zero times = times
copy_times w id (suc n) times =
    copy_times w (add16 id 1) n (set times (id % length times) (get_or w.created (id % room w) 0))

-- The size of the larger arrays.
unfoldable pub larger_room : Cache → ℕ → ℕ
larger_room w need = double_to need (if room w == 0 then 64 else room w) need

unfoldable pub enlarge_cache : Cache → ℕ → Cache
enlarge_cache w size =
    let n = if room w == 0 then 0 else span w in
    record w {
      slots = copy_slots w w.head n (replicate size none);
      created = copy_times w w.head n (replicate size 0);
    }

-- `capacity`: none for its result false.
unfoldable pub ensure_room : Bool → Cache → ℕ → Option Cache
ensure_room allocated w need =
    if leb need (room w)
    then some w
    else if ltb 32768 need
    then none
    else if allocated
    then some (enlarge_cache w (larger_room w need))
    else none

-- The window starts at the first packet that comes.
unfoldable pub start_cache : Cache → ℕ → Cache
start_cache w id =
    if w.initialized then w else record w { head = id; tail = id; cursor = id; initialized = true }

-- The packet goes into its slot.
unfoldable pub put_packet : Cache → Packet → ℕ → Cache
put_packet w packet created =
    let id = packet.header.packet_id in
    record w {
      slots = set w.slots (id % room w) (some packet);
      created = set w.created (id % room w) created;
      tail = if leb (span w) (sub16 id w.head) then add16 id 1 else w.tail;
    }

-- The slot must be empty.
unfoldable pub put_if_empty : Cache → Packet → ℕ → Bool × Cache
put_if_empty w packet created = elim (cell w packet.header.packet_id) [
  | none ↦ (true, put_packet w packet created)
  | some other ↦ (false, w)
]

-- From the distance test of `IHS_OutgoingRetain` on. `copied` is whether memory is given for the copy.
unfoldable pub retain_near : Bool → Bool → Cache → Packet → ℕ → Bool × Cache
retain_near allocated copied w packet created =
    let distance = sub16 packet.header.packet_id w.head in
    let kept : Bool × Cache = elim (ensure_room allocated w (distance + 1)) [
      | none ↦ (false, w)
      | some e ↦ if copied then put_if_empty e packet created else (false, e)
    ] in
    if ltb distance 32768 then kept else (false, w)

-- `IHS_OutgoingRetain` on its channel's window: the result and the window.
unfoldable pub retain : Bool → Bool → Cache → Packet → ℕ → Bool × Cache
retain allocated copied w packet created =
    retain_near allocated copied (start_cache w packet.header.packet_id) packet created
