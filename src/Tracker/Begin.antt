-- ===== src/Tracker/Begin.antt =====
-- src/session/frame_tracker.c: a ticket for a frame that has begun to arrive.
use ihslib.Common.{
  ℕ, suc, ◌+◌, ◌-◌, ◌%◌, ◌^◌, Bool, true, false, not, ◌&&◌, ◌||◌, Option, none, some, List, [], ◌∷◌,
  ◌++◌, length, get_or, set, ltb, leb, ◌==◌, if◌then◌else◌, sub16,
}
use ihslib.Tracker.State.{
  Identity, Receive, opened, Ticket, Tracker, tracker_capacity, new_frame, new_block, is_opened,
  is_ready, retain_ref, release_endpoint,
}
use ihslib.Tracker.Ticket.{on_ticket, ticket}

-- `IHS_FrameBeginResult`.
pub data BeginResult : Type 0 where
  begin_ok : BeginResult
  begin_stale : BeginResult
  begin_ambiguous : BeginResult
  begin_capacity : BeginResult
  begin_closed : BeginResult
  begin_exhausted : BeginResult

-- The sequence number of a frame ID against the highest so far, or the refusal.
pub data Sequence : Type 0 where
  sequence : ℕ → Sequence
  refused : BeginResult → Sequence

unfoldable pub wire_sequence : Bool → ℕ → Tracker → Sequence
wire_sequence input frame_id t =
    let delta = sub16 frame_id (t.highest_sequence % 2 ^ 16) in
    let back = 65536 - delta in
    if input || not t.have_sequence
    then sequence (65536 + frame_id)
    else if delta == 32768
    then refused begin_ambiguous
    else if ltb delta 32768
    then if ltb (2 ^ 64 - 1 - t.highest_sequence) delta
      then refused begin_exhausted
      else sequence (t.highest_sequence + delta)
    else if leb tracker_capacity back || ltb t.highest_sequence back
    then refused begin_stale
    else sequence (t.highest_sequence - back)

-- What the walk over the tickets finds: the frame's own ticket, or places for a new one: the first
-- free ticket and the first whose statistics were taken.
pub data Found : Type 0 where
  own : ℕ → Found
  places : Option ℕ → Option ℕ → Found

-- A ticket of this frame.
unfoldable pub is_own : Bool → ℕ → ℕ → Ticket → Bool
is_own input epoch seq r =
    not input
    && (not r.input
        && (r.occupied
            && (r.frame.identity.epoch == epoch && r.frame.identity.wire_sequence == seq)))

-- A ticket whose version can be raised and that nobody holds.
unfoldable pub is_unheld : Ticket → Bool
is_unheld r = r.refs == 0 && not (r.frame.identity.slot_version == 2 ^ 64 - 1)

unfoldable pub is_free : Ticket → Bool
unfolding is_unheld
is_free r = (not r.occupied || r.settled) && is_unheld r

unfoldable pub is_collected : Bool → Ticket → Bool
unfolding is_unheld is_ready
is_collected stats_tracking r =
    (r.occupied && not r.settled)
    && (is_unheld r
        && (is_ready r.publication
            && (not stats_tracking || (r.stats_consumed && r.stats_reusable))))

unfoldable pub first_place : Option ℕ → Bool → ℕ → Option ℕ
first_place (some i) test j = some i
first_place none test j = if test then some j else none

-- The walk from the place `i` on.
unfoldable pub find_place : (Ticket → Bool) → Bool → List Ticket → ℕ → Option ℕ → Option ℕ → Found
unfolding is_free is_collected first_place
find_place mine stats_tracking [] i free collected = places free collected
find_place mine stats_tracking (r ∷ records) i free collected =
    let rest =
      find_place mine stats_tracking records (suc i) (first_place free (is_free r) i)
        (first_place collected (is_collected stats_tracking r) i) in
    if mine r then own i else rest

-- One more reference to an open ticket, with the frame's later times; the count of the endpoint was
-- raised before.
unfoldable pub join_receive : Receive → Ticket → Ticket
join_receive receive r =
    if leb r.frame.receive.last_receive_us receive.last_receive_us
    then record r {
      frame = record r.frame {
        receive = record r.frame.receive {
          last_receive_us = receive.last_receive_us;
          receive_timestamp = receive.receive_timestamp;
        };
      };
    }
    else r

-- The result of a begin: the ticket's place where it is a success.
abbrev pub Begun : Type 0
Begun = BeginResult × Option ℕ × Tracker

unfoldable pub join : ℕ → Receive → Tracker → Begun
unfolding is_opened retain_ref release_endpoint join_receive on_ticket ticket
join i receive t =
    let r = ticket t i in
    if r.settled || not (is_opened r.publication)
    then (begin_stale, none, t)
    else elim (retain_ref t.refs) [
      | none ↦ (begin_exhausted, none, t)
      | some n ↦
          if r.refs == 2 ^ 32 - 1
          then (begin_exhausted, none, release_endpoint (record t { refs = n }))
          else (
            begin_ok,
            some i,
            on_ticket (λ q. join_receive receive (record q { refs = suc q.refs })) i
                (record t { refs = n }),
          )
    ]

-- A ticket for its new frame.
unfoldable pub occupy : Bool → Identity → Receive → Ticket → Ticket
occupy input identity receive r = record r {
  frame = new_frame (record identity { slot_version = suc r.frame.identity.slot_version }) receive;
  has_video_timestamp = false;
  video_timestamp = 0;
  video_decode_active = false;
  video_decode_ended = false;
  occupied = true;
  input = input;
  settled = false;
  stats_consumed = false;
  stats_reusable = false;
  refs = 1;
  publication = opened;
}

-- The history of sequence numbers after a frame.
unfoldable pub remember_sequence : Bool → ℕ → Tracker → Tracker
remember_sequence true seq t = t
remember_sequence false seq t = record t {
  seen_valid = set t.seen_valid (seq % tracker_capacity) true;
  seen = set t.seen (seq % tracker_capacity) seq;
  highest_sequence =
      if not t.have_sequence || ltb t.highest_sequence seq then seq else t.highest_sequence;
  have_sequence = true;
}

-- A new ticket at a place.
unfoldable pub start : Bool → ℕ → ℕ → ℕ → Receive → ℕ → Tracker → Begun
unfolding occupy retain_ref remember_sequence on_ticket
start input epoch seq frame_id receive i t =
    let identity : Identity = record {
      session_id = t.session_id;
      epoch = epoch;
      receive_serial = suc t.serial;
      slot_version = 0;
      wire_sequence = seq;
      frame_id = frame_id;
    } in
    if t.serial == 2 ^ 64 - 1 then (begin_exhausted, none, t) else elim (retain_ref t.refs) [
      | none ↦ (begin_exhausted, none, t)
      | some n ↦ (
        begin_ok,
        some i,
        remember_sequence input seq (
            on_ticket (occupy input identity receive) i
              (record t { refs = n; serial = suc t.serial })),
      )
    ]

-- The place of a new ticket: a free one, one whose statistics were taken, or the first of a new
-- block, where memory is given.
unfoldable pub start_free :
    Bool → Bool → ℕ → ℕ → ℕ → Receive → Option ℕ → Option ℕ → Tracker → Begun
unfolding start new_block
start_free memory input epoch seq frame_id receive (some i) collected t =
    start input epoch seq frame_id receive i t
start_free memory input epoch seq frame_id receive none (some i) t =
    start input epoch seq frame_id receive i t
start_free memory input epoch seq frame_id receive none none t =
    if ltb (2 ^ 64 - 1 - tracker_capacity) (length t.records)
    then (begin_exhausted, none, t)
    else if not memory
    then (begin_capacity, none, t)
    else start input epoch seq frame_id receive (length t.records)
        (record t { records = t.records ++ new_block })

unfoldable pub is_seen : Bool → ℕ → Tracker → Bool
is_seen input seq t =
    not input
    && (get_or t.seen_valid (seq % tracker_capacity) false
        && get_or t.seen (seq % tracker_capacity) 0 == seq)

unfoldable pub begin_found : Bool → Bool → ℕ → ℕ → ℕ → Receive → Found → Tracker → Begun
unfolding join is_seen start_free
begin_found memory input epoch seq frame_id receive (own i) t = join i receive t
begin_found memory input epoch seq frame_id receive (places free collected) t =
    if is_seen input seq t
    then (begin_stale, none, t)
    else start_free memory input epoch seq frame_id receive free collected t

unfoldable pub begin_sequence : Bool → Bool → ℕ → ℕ → Receive → Sequence → Tracker → Begun
unfolding begin_found find_place is_own
begin_sequence memory input epoch frame_id receive (refused result) t = (result, none, t)
begin_sequence memory input epoch frame_id receive (sequence seq) t =
    begin_found memory input epoch seq frame_id receive
      (find_place (is_own input epoch seq) t.stats_tracking t.records 0 none none) t

-- `begin_frame`: `IHS_FrameTrackerBegin` with false and `IHS_FrameTrackerBeginInput` with true.
unfoldable pub begin_frame : Bool → Bool → ℕ → ℕ → Receive → Tracker → Begun
unfolding begin_sequence wire_sequence
begin_frame memory input epoch frame_id receive t =
    if not t.accepting || not (epoch == t.epoch)
    then (begin_closed, none, t)
    else begin_sequence memory input epoch frame_id receive (wire_sequence input frame_id t) t
