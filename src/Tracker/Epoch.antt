-- ===== src/Tracker/Epoch.antt =====
-- src/session/frame_tracker.c: the calls that walk over all tickets.
use ihslib.Common.{
  ℕ, zero, suc, ◌-◌, Bool, true, false, not, ◌&&◌, ◌||◌, Option, none, some, List, [], ◌∷◌, map,
  replicate, ltb, leb, ◌==◌, if◌then◌else◌,
}
use ihslib.Tracker.State.{
  TrackedFrame, Publication, expired, closed, Ticket, Tracker, tracker_capacity, no_outcome,
  is_opened, is_ready, is_expired, release_endpoint,
}

-- One round of `close_epoch`.
unfoldable pub close_ticket : Ticket → Ticket
unfolding is_opened
close_ticket r =
    if r.occupied
    then record r {
      publication = if is_opened r.publication then closed else r.publication;
      settled = true;
    }
    else r

-- `close_epoch`.
unfoldable pub close_records : Tracker → Tracker
unfolding close_ticket
close_records t = record t { accepting = false; records = map close_ticket t.records }

-- `IHS_FrameTrackerOpenEpoch`.
unfoldable pub open_epoch : ℕ → Tracker → Bool × Tracker
unfolding close_records
open_epoch epoch t =
    if not (epoch == 0) && ltb t.epoch epoch
    then (
      true,
      record (close_records t) {
        epoch = epoch;
        accepting = true;
        have_sequence = false;
        seen_valid = replicate tracker_capacity false;
      },
    )
    else (false, t)

-- `IHS_FrameTrackerCloseEpoch`.
unfoldable pub close_epoch : ℕ → Tracker → Tracker
unfolding close_records
close_epoch epoch t = if epoch == t.epoch then close_records t else t

-- `IHS_FrameTrackerClose`.
unfoldable pub close_tracker : Tracker → Tracker
unfolding close_records release_endpoint
close_tracker t = release_endpoint (close_records t)

-- `IHS_VideoFrameResultDroppedLate`.
abbrev pub dropped_late : ℕ
dropped_late = 6

-- The state of a ticket in `IHS_FrameTrackerSettle`: an open one that has waited long enough
-- expires.
unfoldable pub settle_state : ℕ → ℕ → Ticket → Publication
unfolding is_opened
settle_state now timeout r =
    if is_opened r.publication
      && (leb r.frame.receive.first_receive_us now
          && leb timeout (now - r.frame.receive.first_receive_us))
    then expired
    else r.publication

-- What is reported of a ticket that ended in a state.
unfoldable pub settled_frame : ℕ → Publication → Ticket → TrackedFrame
unfolding is_ready
settled_frame now state r = record r.frame {
  outcome =
      if is_ready state
      then r.payload
      else record no_outcome { result = dropped_late; completion_us = now };
}

-- One round of `IHS_FrameTrackerSettle`: the ticket, and its report.
unfoldable pub settle_ticket : ℕ → ℕ → Bool → Ticket → Ticket × Option TrackedFrame
unfolding settle_state settled_frame is_ready is_expired
settle_ticket now timeout stats_tracking r =
    let state = settle_state now timeout r in
    let seen = record r { publication = state } in
    if not r.occupied || r.settled
    then (r, none)
    else if not (is_ready state || is_expired state)
        || (is_ready state && (stats_tracking && not r.stats_consumed))
    then (seen, none)
    else (record seen { settled = true }, some (settled_frame now state r))

-- The room that is left for reports, and the reports with one more.
unfoldable pub room_after : ℕ → Option TrackedFrame → ℕ
room_after room none = suc room
room_after room (some f) = room

unfoldable pub reported : Option TrackedFrame → List TrackedFrame → List TrackedFrame
reported none frames = frames
reported (some f) frames = f ∷ frames

-- The loop of `IHS_FrameTrackerSettle`, with the room for reports.
unfoldable pub settle_records :
    (Ticket → Ticket × Option TrackedFrame) → List Ticket → ℕ → List Ticket × List TrackedFrame
unfolding room_after reported
settle_records one [] room = ([], [])
settle_records one (r ∷ records) zero = (r ∷ records, [])
settle_records one (r ∷ records) (suc room) =
    let o = one r in
    let rest = settle_records one records (room_after room o.1) in
    (o.0 ∷ rest.0, reported o.1 rest.1)

-- `IHS_FrameTrackerSettle`.
unfoldable pub settle : ℕ → ℕ → ℕ → Tracker → List TrackedFrame × Tracker
unfolding settle_records settle_ticket
settle now timeout capacity t =
    let s = settle_records (settle_ticket now timeout t.stats_tracking) t.records capacity in
    (s.1, record t { records = s.0 })

-- One round of `IHS_FrameTrackerCopyStats`: the ticket, and its copy.
unfoldable pub copy_ticket : ℕ → Ticket → Ticket × Option TrackedFrame
unfolding is_ready
copy_ticket epoch r =
    let done = is_ready r.publication in
    let complete = record r.frame {
      stats_complete = true;
      outcome = r.payload;
      completion_serial = r.completion_serial;
      completion_timestamp = r.completion_timestamp;
    } in
    if not r.occupied || (r.settled || not (r.frame.identity.epoch == epoch)) then (r, none) else (
      record r {
        stats_consumed = r.stats_consumed || done;
        stats_reusable = r.stats_reusable || (done && r.refs == 0);
      },
      some (if done && not r.stats_consumed then complete else r.frame),
    )

-- `IHS_FrameTrackerCopyStats`.
unfoldable pub copy_stats : ℕ → Tracker → List TrackedFrame × Tracker
unfolding settle_records copy_ticket
copy_stats capacity t =
    let s = settle_records (copy_ticket t.epoch) t.records capacity in
    if t.accepting
    then (s.1, record t { stats_tracking = true; records = s.0 })
    else ([], record t { stats_tracking = true })
