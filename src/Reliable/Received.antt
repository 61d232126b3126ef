-- ===== src/Reliable/Received.antt =====
-- src/session/reliable.c: a packet of the reliable stream goes into the channel's window, and a later
-- update tells the host what has come. `notices` is what the code hands on, the latest first: losses to
-- the network statistics, packets to the sender, a disconnection to the session.
use ihslib.Common.{
  ℕ, ◌-◌, Bool, true, false, not, ◌&&◌, ◌||◌, Option, none, some, List, [], ◌∷◌, ◌++◌, ltb, ◌==◌,
  if◌then◌else◌, add32, sub16, sub32, is_negative32, is_positive16, is_positive32,
}
use ihslib.Packet.Wire.{WirePacket}
use ihslib.Window.State.{Window, create_reliable, next_needed}
use ihslib.Window.Insert.{add_ex}
use ihslib.Window.Feedback.{MediaFeedback, contiguous_id, reliable_feedback}
use ihslib.Reliable.Nack.{ReliableChannel}

-- A loss report carries the base, the host's time, the contiguous ID, and the bitmap with its size in
-- bytes.
pub data Notice : Type 0 where
  lost_packets : ℕ → ℕ → Notice
  disconnects : Notice
  ack_packet : ℕ → ℕ → Notice
  nack_packet : ℕ → ℕ → ℕ → List Bool → ℕ → Notice

-- The newest sending time of the host, and when it came.
unfoldable pub note_peer : ℕ → ℕ → ReliableChannel → ReliableChannel
note_peer sent received c =
    if c.peer_timestamp == 0 || is_positive32 (sub32 sent c.peer_timestamp)
    then record c { peer_timestamp = sent; peer_receive_time = received }
    else c

-- The channel's window, made where there is none and memory is given.
unfoldable pub open_window : Bool → Option Window → Option Window
unfolding create_reliable
open_window allocated (some w) = some w
open_window true none = some (create_reliable 64 0)
open_window false none = none

-- A packet that is already below the first needed one wants another acknowledgement.
unfoldable pub is_repeated : Window → ℕ → Bool
is_repeated w id = is_positive16 (sub16 (next_needed w) id)

-- The first refusal disconnects, and later ones do nothing.
unfoldable pub refuse : ReliableChannel → List Notice → ReliableChannel × List Notice
refuse c notices =
    if c.overflowed then (c, notices) else (record c { overflowed = true }, disconnects ∷ notices)

-- The insertion into a window, and what follows.
unfoldable pub insert_packet :
    Bool → WirePacket → Window → ReliableChannel → ReliableChannel × List Notice
insert_packet grown packet w c =
    let h = packet.header in
    let a = add_ex grown packet w in
    let d = record c {
      window = some a.window;
      ack_pending = if is_repeated w h.packet_id then true else c.ack_pending;
    } in
    let notices =
      if a.inserted && ltb 1 h.retransmit_count
      then lost_packets h.receive_timestamp (h.retransmit_count - 1) ∷ []
      else [] in
    let refused = refuse d notices in if a.accepted then (d, notices) else refused

-- `IHS_SessionReliableReceived` for a packet of the reliable types. `allocated` is whether memory is
-- given for a window, `grown` whether it is given for a larger one.
unfoldable pub receive_reliable :
    Bool → Bool → WirePacket → ReliableChannel → ReliableChannel × List Notice
receive_reliable allocated grown packet c =
    let h = packet.header in
    let noted =
      note_peer h.send_timestamp h.receive_timestamp (record c { feedback_dirty = true }) in
    elim (open_window allocated c.window) [
      | none ↦ refuse (record noted { feedback_dirty = false }) []
      | some w ↦ insert_packet grown packet w noted
    ]

-- The acknowledgement's part of an update, from `confirmed` on; `clock` is the clock's time then.
-- Beside the channel and what was sent, whether an attempt was made.
unfoldable pub send_ack : Bool → ℕ → ℕ → ReliableChannel → ReliableChannel × List Notice × Bool
send_ack is_eligible clock confirmed c =
    let noted =
      if confirmed == c.ack_watermark
      then c
      else record c { ack_watermark = confirmed; ack_pending = true } in
    let echo = sub32 (add32 c.peer_timestamp clock) c.peer_receive_time in
    if not noted.ack_pending
    then (noted, [], false)
    else if is_eligible
    then (record noted { ack_pending = false }, ack_packet confirmed echo ∷ [], true)
    else (record noted { feedback_dirty = true }, [], false)

-- The loss report's part.
unfoldable pub send_nack :
    Bool
    → ℕ
    → Option (MediaFeedback × Bool)
    → ReliableChannel
    → ReliableChannel × List Notice × Bool
send_nack is_eligible confirmed none c = (c, [], false)
send_nack is_eligible confirmed (some (f, is_mature)) c =
    let report = nack_packet f.base c.peer_timestamp confirmed f.bitmap f.bitmap_bytes in
    if is_eligible && is_mature
    then (c, report ∷ [], true)
    else (record c { feedback_dirty = true }, [], false)

-- Both parts, and the next deadline after an attempt.
unfoldable pub send_feedback :
    Bool
    → ℕ
    → ℕ
    → ℕ
    → ℕ
    → Option (MediaFeedback × Bool)
    → ReliableChannel
    → ReliableChannel × List Notice
send_feedback is_eligible now clock ticks confirmed report c =
    let (a, acks, acked) = send_ack is_eligible clock confirmed c in
    let (b, nacks, nacked) = send_nack is_eligible confirmed report a in
    let d = if acked || nacked then record b { feedback_deadline = add32 now ticks } else b in
    (d, nacks ++ acks)

-- `IHS_SessionReliableUpdateChannelAt` on a channel that has a window. `drained` is the window that the
-- drain of the frames leaves, or none where it fails, with the losses that it counts; `ticks` is the
-- clock's interval between two reports.
unfoldable pub update_feedback :
    ℕ → ℕ → ℕ → Option (Window × ℕ) → ReliableChannel → ReliableChannel × List Notice
unfolding send_feedback
update_feedback now clock ticks drained c =
    let cleared = record c { feedback_dirty = false } in
    let updated : ReliableChannel × List Notice = elim drained [
      | none ↦ (cleared, [])
      | some (w, retries) ↦
          let (d, sent) =
            send_feedback (not (is_negative32 (sub32 now c.feedback_deadline))) now clock ticks
              (contiguous_id w) (reliable_feedback w now) (record cleared { window = some w }) in
          (d, sent ++ (lost_packets now retries ∷ []))
    ] in
    if not c.feedback_dirty then (c, []) else updated
