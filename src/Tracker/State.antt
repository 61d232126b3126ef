-- ===== src/Tracker/State.antt =====
-- src/session/frame_tracker.c, frame_tracker.h, include/ihslib/frame_ticket.h: the tracker and its
-- tickets. A ticket's pointer is its place in `records`, which holds the tickets of all blocks in
-- order; a place outside reads as a ticket that was never used. Each call is one step: the calls that
-- change a ticket without the lock are single atomic operations on a field of it.
use ihslib.Common.{
  ◌-◌, ℕ, zero, suc, ◌^◌, Bool, true, false, Option, none, some, List, [], ◌∷◌, replicate, sub32,
  ◌&&◌, not, ◌==◌, if◌then◌else◌,
}

-- `IHS_FrameIdentity`.
pub record Identity : Type 0 where
  pub session_id : ℕ
  pub epoch : ℕ
  pub receive_serial : ℕ
  pub slot_version : ℕ
  pub wire_sequence : ℕ
  pub frame_id : ℕ

-- `IHS_FrameReceive`.
pub record Receive : Type 0 where
  pub first_receive_us : ℕ
  pub last_receive_us : ℕ
  pub sender_frame_timestamp : ℕ
  pub sender_send_timestamp : ℕ
  pub receive_timestamp : ℕ
  pub frame_size : ℕ
  pub input_mark : ℕ
  pub input_received : ℕ

-- `IHS_FrameOutcome`; the result is the number of its `IHS_VideoFrameResult`.
pub record Outcome : Type 0 where
  pub result : ℕ
  pub completion_us : ℕ
  pub upload_begin_us : ℕ
  pub upload_end_us : ℕ
  pub presentation_serial : ℕ
  pub presentation_interval_us : ℕ
  pub has_upload : Bool
  pub has_presentation_interval : Bool

-- `IHS_TrackedFrame`.
pub record TrackedFrame : Type 0 where
  pub identity : Identity
  pub receive : Receive
  pub decode_begin_us : ℕ
  pub decode_end_us : ℕ
  pub has_decode_begin : Bool
  pub has_decode_end : Bool
  pub upload_begin_us : ℕ
  pub upload_end_us : ℕ
  pub has_upload_begin : Bool
  pub has_upload_end : Bool
  pub stats_complete : Bool
  pub completion_serial : ℕ
  pub completion_timestamp : ℕ
  pub outcome : Outcome

-- `enum publication`; `opened` is OPEN.
pub data Publication : Type 0 where
  opened : Publication
  claimed : Publication
  ready : Publication
  expired : Publication
  closed : Publication

-- `struct IHS_FrameTicket`.
pub record Ticket : Type 0 where
  pub refs : ℕ
  pub publication : Publication
  pub occupied : Bool
  pub settled : Bool
  pub input : Bool
  pub frame : TrackedFrame
  pub payload : Outcome
  pub completion_serial : ℕ
  pub completion_timestamp : ℕ
  pub stats_consumed : Bool
  pub stats_reusable : Bool
  pub has_video_timestamp : Bool
  pub video_timestamp : ℕ
  pub video_decode_active : Bool
  pub video_decode_ended : Bool

-- `struct IHS_FrameTracker`; `storageCapacity` is the number of records.
pub record Tracker : Type 0 where
  pub refs : ℕ
  pub completions : ℕ
  pub session_id : ℕ
  pub epoch : ℕ
  pub serial : ℕ
  pub highest_sequence : ℕ
  pub accepting : Bool
  pub have_sequence : Bool
  pub stats_tracking : Bool
  pub seen : List ℕ
  pub seen_valid : List Bool
  pub records : List Ticket

-- `IHS_FRAME_TRACKER_CAPACITY`.
abbrev pub tracker_capacity : ℕ
tracker_capacity = 256

unfoldable pub is_opened : Publication → Bool
is_opened opened = true
is_opened p = false

unfoldable pub is_ready : Publication → Bool
is_ready ready = true
is_ready p = false

unfoldable pub is_expired : Publication → Bool
is_expired expired = true
is_expired p = false

unfoldable pub is_claimed : Publication → Bool
is_claimed claimed = true
is_claimed p = false

abbrev pub no_outcome : Outcome
no_outcome = record {
  result = 0;
  completion_us = 0;
  upload_begin_us = 0;
  upload_end_us = 0;
  presentation_serial = 0;
  presentation_interval_us = 0;
  has_upload = false;
  has_presentation_interval = false;
}

abbrev pub no_receive : Receive
no_receive = record {
  first_receive_us = 0;
  last_receive_us = 0;
  sender_frame_timestamp = 0;
  sender_send_timestamp = 0;
  receive_timestamp = 0;
  frame_size = 0;
  input_mark = 0;
  input_received = 0;
}

-- `(IHS_TrackedFrame){.identity = …, .receive = …}`.
abbrev pub new_frame : Identity → Receive → TrackedFrame
new_frame identity receive = record {
  identity = identity;
  receive = receive;
  decode_begin_us = 0;
  decode_end_us = 0;
  has_decode_begin = false;
  has_decode_end = false;
  upload_begin_us = 0;
  upload_end_us = 0;
  has_upload_begin = false;
  has_upload_end = false;
  stats_complete = false;
  completion_serial = 0;
  completion_timestamp = 0;
  outcome = no_outcome;
}

-- A record of `init_block`.
abbrev pub blank_ticket : Ticket
blank_ticket = record {
  refs = 0;
  publication = closed;
  occupied = false;
  settled = false;
  input = false;
  frame =
      new_frame
        (record {
          session_id = 0;
          epoch = 0;
          receive_serial = 0;
          slot_version = 0;
          wire_sequence = 0;
          frame_id = 0;
        })
        no_receive;
  payload = no_outcome;
  completion_serial = 0;
  completion_timestamp = 0;
  stats_consumed = false;
  stats_reusable = false;
  has_video_timestamp = false;
  video_timestamp = 0;
  video_decode_active = false;
  video_decode_ended = false;
}

-- `init_block`.
unfoldable pub new_block : List Ticket
new_block = replicate tracker_capacity blank_ticket

-- `IHS_FrameTrackerCreate`, where memory and a lock are given: none without a session ID.
unfoldable pub create : ℕ → Option Tracker
unfolding new_block
create session_id =
    if session_id == 0
    then none
    else some (record {
      refs = 1;
      completions = 0;
      session_id = session_id;
      epoch = 0;
      serial = 0;
      highest_sequence = 0;
      accepting = false;
      have_sequence = false;
      stats_tracking = false;
      seen = replicate tracker_capacity 0;
      seen_valid = replicate tracker_capacity false;
      records = new_block;
    })

unfoldable pub get_ticket : List Ticket → ℕ → Ticket
get_ticket [] i = blank_ticket
get_ticket (r ∷ records) zero = r
get_ticket (r ∷ records) (suc i) = get_ticket records i

unfoldable pub change_ticket : (Ticket → Ticket) → List Ticket → ℕ → List Ticket
change_ticket f [] i = []
change_ticket f (r ∷ records) zero = f r ∷ records
change_ticket f (r ∷ records) (suc i) = r ∷ change_ticket f records i

-- `retain_ref`: none where it fails.
unfoldable pub retain_ref : ℕ → Option ℕ
retain_ref n = if not (n == 0) && not (n == 2 ^ 32 - 1) then some (suc n) else none

-- `release_endpoint`, after which a count of 0 means that the storage is freed.
unfoldable pub release_endpoint : Tracker → Tracker
release_endpoint t = record t { refs = sub32 t.refs 1 }
