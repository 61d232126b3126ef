-- ===== src/Retransmission/Scan.antt =====
-- src/session/retransmission.c: `PendingDue` and `Process`, the scan that sends what is due, with
-- the operations of other threads that run while a packet is handed to the socket. A scan holds
-- `sendLock` from end to end and `lock` only for its snapshot and for each update, so the calls
-- that interleave are those of a `Turn`.
use ihslib.Common.{
  ℕ, ◌+◌, Bool, true, false, not, ◌&&◌, ◌||◌, Option, none, some, List, [], ◌∷◌, ◌++◌, map, select,
  leb, ◌==◌, if◌then◌else◌, sub32, add32, add64, is_negative32,
}
use mathlib.Core.List.{reverse}
use ihslib.Packet.Header.{Header, Packet, type_reliable, type_reliable_frag}
use ihslib.Retransmission.State.{
  Pending, Stats, Retransmission, find, change, track, activate, cancel_unsent,
}
use ihslib.Retransmission.Feedback.{
  acknowledge, acknowledge_through, nack, nack_all_through, nack_before, note_initial_send,
  saturate, retry_delay_ms,
}

-- A call that another thread makes. `IHS_RetransmissionSupersede` and
-- `IHS_RetransmissionIsTracked` only read.
pub data Call : Type 0 where
  tracks : Bool → Packet → ℕ → Call
  activates : ℕ → ℕ → ℕ → Call
  cancels : Header → Call
  acknowledges : ℕ → ℕ → ℕ → ℕ → Call
  acknowledges_through : ℕ → ℕ → ℕ → Call
  nacks : ℕ → ℕ → ℕ → ℕ → Call
  nacks_all_through : ℕ → ℕ → ℕ → Call
  nacks_before : ℕ → ℕ → Bool → ℕ → ℕ → Call
  notes : Option ℕ → Header → Bool → ℕ → Call

unfoldable pub apply : Retransmission → Call → Retransmission
apply r (tracks allocated packet now) = (track allocated r packet now).0
apply r (activates channel first count) = activate r channel first count
apply r (cancels h) = cancel_unsent r h
apply r (acknowledges channel packet_id fragment_id now) =
    (acknowledge r channel packet_id fragment_id now).0
apply r (acknowledges_through channel packet_id now) =
    (acknowledge_through r channel packet_id now).0
apply r (nacks channel packet_id fragment_id now) = (nack r channel packet_id fragment_id now).0
apply r (nacks_all_through channel packet_id now) = (nack_all_through r channel packet_id now).0
apply r (nacks_before channel id below cutoff now) = (nack_before r channel id below cutoff now).0
apply r (notes ticks h sent now) = note_initial_send ticks r h sent now

unfoldable pub apply_all : Retransmission → List Call → Retransmission
apply_all r [] = r
apply_all r (c ∷ cs) = apply_all (apply r c) cs

unfoldable pub is_reliable_type : ℕ → Bool
is_reliable_type t = t == type_reliable || t == type_reliable_frag

-- `PendingDue`; `ticks` is the stream clock where the caller gives it, and `channel` is none
-- for the source's -1.
unfoldable pub pending_due : ℕ → Option ℕ → ℕ → Option ℕ → Pending → Bool
unfolding is_reliable_type
pending_due now ticks delay channel p =
    if elim channel [ none ↦ false | some c ↦ not (p.packet.header.channel_id == c) ]
    then false
    else if not p.ready
    then false
    else if not p.initial_sent
    then true
    else elim ticks [
      | none ↦ leb p.next_retry_ms now
      | some t ↦
          if not (is_reliable_type p.packet.header.type)
          then leb p.next_retry_ms now
          else p.nack_pending
            || (p.next_wire_count == 0
                || (p.last_send_timestamp == 0
                    || is_negative32 (sub32 (add32 p.last_send_timestamp delay) t)))
    ]

-- `Attempt`: the snapshot of one packet that is due, and which object it came from.
pub record Attempt : Type 0 where
  pub target : ℕ
  pub packet : Packet
  pub feedback_generation : ℕ

unfoldable pub make_attempt : Pending → Attempt
make_attempt p = record {
  target = p.address;
  packet = record k { header = record h { retransmit_count = p.next_wire_count } };
  feedback_generation = p.feedback_generation;
}
  where
    k : Packet
    k = p.packet

    h : Header
    h = k.header

-- What happens around one attempt: the calls before it is looked at, whether the socket takes the
-- packet and the stamp that it writes into it, the calls until the result is noted, and the
-- clock's retry ticks then (none without a session).
pub record Turn : Type 0 where
  pub before : List Call
  pub sent : Bool
  pub stamp : ℕ
  pub during : List Call
  pub retry_ticks : Option ℕ

-- One packet handed to the socket.
pub record Sending : Type 0 where
  pub packet : Packet
  pub sent : Bool

pub record Scan : Type 0 where
  pub state : Retransmission
  pub failed : ℕ → Bool
  pub log : List Sending

abbrev pub has_address : ℕ → Pending → Bool
has_address a p = p.address == a

-- The object that a reference leads to, linked or not.
unfoldable pub object : Retransmission → ℕ → Option Pending
object r a = find (has_address a) (r.pending ++ r.retired)

-- What a finished attempt writes into its object while that is tracked.
unfoldable pub note_attempt : ℕ → Attempt → Turn → Pending → Pending
unfolding saturate retry_delay_ms
note_attempt now a t p = record p {
  initial_sent = true;
  last_send_ms = now;
  last_send_timestamp = t.stamp;
  packet = record k { header = record h { send_timestamp = t.stamp } };
  retry_count = if t.sent then a.packet.header.retransmit_count else p.retry_count;
  next_wire_count = wire;
  nack_pending = if p.feedback_generation == a.feedback_generation then false else p.nack_pending;
  next_retry_ms =
      if p.feedback_generation == a.feedback_generation
      then (if wire == 0 then now else add64 now (retry_delay_ms t.retry_ticks))
      else p.next_retry_ms;
}
  where
    k : Packet
    k = p.packet

    h : Header
    h = k.header

    wire : ℕ
    wire = if t.sent then saturate p.next_wire_count else p.next_wire_count

-- The counters after an attempt at an object that had, or had not, been sent before.
unfoldable pub attempt_stats : Bool → Bool → Stats → Stats
attempt_stats resent sent s = record s {
  retries = if resent then add64 s.retries 1 else s.retries;
  send_failures = if sent then s.send_failures else add64 s.send_failures 1;
}

unfoldable pub finish_attempt : ℕ → Attempt → Turn → Retransmission → Retransmission
unfolding object note_attempt attempt_stats
finish_attempt now a t r = elim (object r a.target) [
  | none ↦ r
  | some p ↦ record r {
    pending =
        if p.tracked
        then change (has_address a.target) (note_attempt now a t) r.pending
        else r.pending;
    stats = attempt_stats p.initial_sent t.sent r.stats;
  }
]

-- `p->tracked && !failed[channel]`.
unfoldable pub eligible : Retransmission → (ℕ → Bool) → Attempt → Bool
unfolding object
eligible r failed a =
    (elim (object r a.target) [ none ↦ false | some p ↦ p.tracked ])
    && not (failed a.packet.header.channel_id)

unfoldable pub attempt : ℕ → Attempt → Turn → Scan → Scan
attempt now a t s =
    let r = apply_all s.state t.before in
    if eligible r s.failed a
    then record {
      state = finish_attempt now a t (apply_all r t.during);
      failed = λ c. if c == a.packet.header.channel_id then not t.sent else s.failed c;
      log = s.log ++ (record { packet = a.packet; sent = t.sent } ∷ []);
    }
    else record { state = r; failed = s.failed; log = s.log }

-- The loop over the snapshot, the oldest registration first.
unfoldable pub attempts : ℕ → List Attempt → (ℕ → Turn) → ℕ → Scan → Scan
attempts now [] turns i s = s
attempts now (a ∷ rest) turns i s = attempts now rest turns (i + 1) (attempt now a (turns i) s)

-- `Process`. `allocated` is whether the snapshot's `calloc` gave memory; `delay` is the clock's
-- estimate at the start, 1638 without a session. The turn of the i-th packet is `turns i`.
unfoldable pub process : Bool → Retransmission → ℕ → Option ℕ → ℕ → Option ℕ → (ℕ → Turn) → Scan
process allocated r now ticks delay channel turns =
    if not allocated
    then record { state = r; failed = λ c. false; log = [] }
    else attempts now
        (reverse (map make_attempt (select (pending_due now ticks delay channel) r.pending))) turns
        0 (record { state = r; failed = λ c. false; log = [] })

-- `IHS_RetransmissionProcessAt`.
unfoldable pub process_at : Bool → Retransmission → ℕ → ℕ → (ℕ → Turn) → Scan
process_at allocated r now delay turns = process allocated r now none delay none turns

-- `IHS_RetransmissionProcessTicks`.
unfoldable pub process_ticks : Bool → Retransmission → ℕ → ℕ → ℕ → (ℕ → Turn) → Scan
process_ticks allocated r now now_ticks delay turns =
    process allocated r now (some now_ticks) delay none turns

-- `IHS_RetransmissionProcessChannel`.
unfoldable pub process_channel : Bool → Retransmission → ℕ → ℕ → ℕ → ℕ → (ℕ → Turn) → Scan
process_channel allocated r now now_ticks delay channel turns =
    process allocated r now (some now_ticks) delay (some channel) turns
