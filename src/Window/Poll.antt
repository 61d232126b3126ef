-- ===== src/Window/Poll.antt =====
-- src/session/window.c: IHS_SessionPacketsWindowPoll, which takes the next complete frame, and the
-- discarding of old packets. The result none is a failed assertion. `allocated` is whether
-- `realloc` gave the memory and `junk` the value of its fresh bytes; lengths do not wrap, so the
-- guards against SIZE_MAX are left out.
use ihslib.Common.{
  ℕ, zero, suc, ◌+◌, ◌-◌, ◌%◌, ◌^◌, Bool, true, false, not, ◌&&◌, ◌||◌, Option, none, some, ◌++◌,
  length, replicate, leb, ltb, ◌==◌, if◌then◌else◌, sub32, add32,
}
use ihslib.Packet.Header.{Header, type_unreliable_frag}
use ihslib.Buffer.Defs.{Buffer, double_to, append, ◌>>=◌}
use ihslib.Window.State.{
  Window, Slot, PollError, poll_ok, poll_limit, poll_no_memory, capacity, is_used, is_head, slot_at,
  size, live_slot, recycle,
}

-- `IHS_SessionFrame`.
pub record Frame : Type 0 where
  pub header : Header
  pub body : Buffer
  pub media_offset : ℕ
  pub media_prepared : Bool
  pub received_retries : ℕ

-- Where the doubling of `ReserveFrame` starts.
unfoldable pub reserve_start : Buffer → ℕ
reserve_start b =
    let room = length b.cells in
    if not (room == 0)
    then room
    else if not (b.initial_capacity == 0)
    then b.initial_capacity
    else if ltb 0 b.max_capacity && ltb b.max_capacity 1024
    then b.max_capacity
    else 1024

unfoldable pub reserve_capacity : Buffer → ℕ → ℕ
unfolding reserve_start double_to
reserve_capacity b wanted =
    let doubled = double_to wanted (reserve_start b) wanted in
    if ltb 0 b.max_capacity && ltb b.max_capacity doubled
    then if wanted == 0 then b.max_capacity else wanted
    else doubled

module _ (allocated : Bool) (junk : ℕ) where
  -- `ReserveFrame`: the outcome, with the buffer.
  unfoldable pub reserve_frame : Buffer → ℕ → PollError × Buffer
  unfolding reserve_capacity
  reserve_frame b n =
      let wanted = b.offset + n + b.suffix in
      if ltb 0 b.max_capacity && ltb b.max_capacity wanted
      then (poll_limit, b)
      else if not (length b.cells == 0) && leb wanted (length b.cells)
      then (poll_ok, b)
      else if allocated
      then (
        poll_ok,
        record b { cells = b.cells ++ replicate (reserve_capacity b wanted - length b.cells) junk },
      )
      else (poll_no_memory, b)

unfoldable pub is_orphan : Window → Bool
unfolding slot_at is_used is_head
is_orphan w =
    let s = slot_at w (w.head % capacity w) in not w.reliable && (is_used s && not (is_head s))

unfoldable pub drop_head : Window → Window
unfolding recycle
drop_head w = record (recycle w (w.head % capacity w)) { head = (w.head + 1) % capacity w }

-- The loop over the fragments whose head is missing, over the window's size: the window, and the
-- size that is left.
unfoldable pub skip_orphans : ℕ → Window → Window × ℕ
unfolding is_orphan drop_head
skip_orphans zero w = (w, 0)
skip_orphans (suc n) w =
    let rest = skip_orphans n (drop_head w) in if is_orphan w then rest else (w, suc n)

unfoldable pub is_in_bounds : Buffer → Bool
is_in_bounds b = leb (b.offset + b.size + b.suffix) (length b.cells)

-- What the collecting loop finds: a fragment is missing or out of order, a body is out of bounds,
-- or all are there, with the sum of their lengths.
pub data Collected : Type 0 where
  incomplete : Collected
  too_long : Collected
  complete : ℕ → Collected

unfoldable pub is_misplaced : Window → ℕ → Slot → Bool
is_misplaced w i s =
    not w.reliable
    && (ltb 0 i
        && (not (s.header.type == type_unreliable_frag) || not (s.header.fragment_id == i - 1)))

-- The loop over the fragments from the `i`th on, `n` of them, `sum` bytes so far.
unfoldable pub collect : Window → ℕ → ℕ → ℕ → Collected
unfolding live_slot is_used is_misplaced is_in_bounds
collect w i sum zero = complete sum
collect w i sum (suc n) =
    let s = live_slot w i in
    let rest = collect w (suc i) (sum + s.body.size) n in
    if not (is_used s) || is_misplaced w i s
    then incomplete
    else if is_in_bounds s.body
    then rest
    else too_long

unfoldable pub note_fragment : Header → Frame → Frame
note_fragment h f =
    let later = ltb f.header.receive_timestamp h.receive_timestamp in
    record f {
      received_retries = add32 f.received_retries h.retransmit_count;
      header =
          if later
          then record (f.header) {
            receive_begin =
                if f.header.receive_begin == 0 then h.receive_timestamp else f.header.receive_begin;
            receive_timestamp = h.receive_timestamp;
          }
          else f.header;
    }

unfoldable pub start_frame : Header → Buffer → Frame
start_frame h body = record {
  header = record h { receive_begin = h.receive_timestamp };
  body = record body { size = 0 };
  media_offset = 0;
  media_prepared = false;
  received_retries = 0;
}

-- What a poll leaves: whether there is a frame, the window and the frame.
pub record Polled : Type 0 where
  pub found : Bool
  pub window : Window
  pub frame : Frame

unfoldable pub advance_head : ℕ → Window → Window
advance_head n w = record w {
  head = if ltb (capacity w) (w.head + n) then (w.head + n) % capacity w else w.head + n;
}

module _ (junk : ℕ) where
  -- The loop that moves the fragments into the frame, from the `i`th on.
  unfoldable pub assemble : ℕ → ℕ → Window → Frame → Option (Window × Frame)
  unfolding live_slot recycle note_fragment append
  assemble i zero w f = some (w, f)
  assemble i (suc n) w f =
      let s = live_slot w i in
      append junk f.body s.body >>= λ b.
      assemble (suc i) n (recycle w ((w.head + i) % capacity w))
        (note_fragment s.header (record f { body = b }))

  -- The frame of `n` fragments and `total` bytes, its room reserved; the last assertion compares
  -- the lengths.
  unfoldable pub take_frame : ℕ → ℕ → Window → Buffer → Option Polled
  unfolding assemble start_frame advance_head live_slot
  take_frame n total w body = assemble 0 n w (start_frame (live_slot w 0).header body) >>= λ done.
      if done.1.body.size == total
      then some (record { found = true; window = advance_head n done.0; frame = done.1 })
      else none

unfoldable pub set_error : PollError → Window → Window
set_error e w = record w { poll_error = e }

unfoldable pub not_found : Window → Frame → Option Polled
not_found w f = some (record { found = false; window = w; frame = f })

-- `1 + fragmentId`, an `int` from a signed 16-bit field: 0 where it is below 1.
unfoldable pub packets_count : Header → ℕ
packets_count h = if ltb h.fragment_id (2 ^ 15) then suc h.fragment_id else 0

module _ (allocated : Bool) (junk : ℕ) where
  unfoldable pub poll_reserved : ℕ → ℕ → Window → Frame → Option Polled
  unfolding reserve_frame take_frame set_error not_found
  poll_reserved n total w f =
      let reserved = reserve_frame allocated junk f.body total in
      elim reserved.0 [
        | poll_ok ↦ take_frame junk n total w reserved.1
        | poll_limit ↦ not_found (set_error poll_limit w) f
        | poll_no_memory ↦ not_found (set_error poll_no_memory w) f
      ]

  -- From the test of the frame's head on, with `left` live slots.
  unfoldable pub poll_head : ℕ → Window → Frame → Option Polled
  unfolding live_slot is_head packets_count collect poll_reserved set_error not_found
  poll_head left w f =
      let h = (live_slot w 0).header in
      let n = packets_count h in
      if not (is_head (live_slot w 0)) || (n == 0 || ltb left n)
      then not_found w f
      else elim (collect w 0 0 n) [
        | incomplete ↦ not_found w f
        | too_long ↦ not_found (set_error poll_limit w) f
        | complete total ↦ poll_reserved n total w f
      ]

  -- `IHS_SessionPacketsWindowPoll`.
  unfoldable pub poll : Window → Frame → Option Polled
  unfolding size skip_orphans poll_head set_error not_found
  poll w f =
      let start = set_error poll_ok w in
      let skipped = skip_orphans (size start) start in
      if skipped.1 == 0 then not_found skipped.0 f else poll_head skipped.1 skipped.0 f

-- `(int32_t)a <= (int32_t)b` on bit patterns.
unfoldable pub leb_signed32 : ℕ → ℕ → Bool
leb_signed32 a b = leb (add32 a (2 ^ 31)) (add32 b (2 ^ 31))

-- The loop of `IHS_SessionPacketsWindowDiscardEx`: the window, how many slots went and how many of
-- them held no packet.
unfoldable pub discard_loop : ℕ → ℕ → ℕ → Window → Window × ℕ × ℕ
unfolding slot_at leb_signed32 is_used drop_head
discard_loop zero newest diff w = (w, 0, 0)
discard_loop (suc n) newest diff w =
    let s = slot_at w (w.head % capacity w) in
    let rest = discard_loop n newest diff (drop_head w) in
    if leb_signed32 (sub32 newest s.sender_timestamp) diff
    then (w, 0, 0)
    else (rest.0, suc rest.1, (if is_used s then rest.2 else suc rest.2))

-- `IHS_SessionPacketsWindowDiscardEx`.
unfoldable pub discard_ex : ℕ → Window → Window × ℕ × ℕ
unfolding size slot_at discard_loop
discard_ex diff w =
    if size w == 0
    then (w, 0, 0)
    else discard_loop (size w) (slot_at w (w.tail_end - 1)).sender_timestamp diff w
