-- ===== src/Retransmission/Feedback.antt =====
-- src/session/retransmission.c: acknowledgements, loss reports and the note of a first attempt.
use ihslib.Common.{
  ℕ, ◌+◌, ◌-◌, ◌*◌, ◌/◌, Bool, true, false, not, ◌&&◌, ◌||◌, Option, none, some, List, [], ◌∷◌,
  select, length, ltb, leb, ◌==◌, if◌then◌else◌, sub16, sub32, add64, is_positive32,
}
use ihslib.Packet.Header.{Header, Packet}
use ihslib.Retransmission.State.{
  Pending, Stats, Retransmission, matches, find, unlink, change, retire,
}

-- The counters after an acknowledgement of `p`.
unfoldable pub acknowledge_stats : Stats → Pending → ℕ → Stats
acknowledge_stats s p now = record s {
  acknowledged = add64 s.acknowledged 1;
  hid_acknowledged =
      if p.packet.header.hid_report then add64 s.hid_acknowledged 1 else s.hid_acknowledged;
  outstanding = sub32 s.outstanding 1;
  max_ack_latency_ms = if ltb s.max_ack_latency_ms latency then latency else s.max_ack_latency_ms;
}
  where
    latency : ℕ
    latency = if leb p.first_tracked_ms now then now - p.first_tracked_ms else 0

-- `IHS_RetransmissionAcknowledge`.
unfoldable pub acknowledge : Retransmission → ℕ → ℕ → ℕ → ℕ → Retransmission × Bool
unfolding matches acknowledge_stats retire
acknowledge r channel_id packet_id fragment_id now =
    elim (find (matches channel_id packet_id fragment_id) r.pending) [
      | none ↦ (r, false)
      | some p ↦ if not p.ready then (r, false) else (
        record r {
          pending = unlink (matches channel_id packet_id fragment_id) r.pending;
          retired = retire p ∷ r.retired;
          stats = acknowledge_stats r.stats p now;
        },
        true,
      )
    ]

-- `IHS_RetransmissionSupersede` only looks the packet up.
unfoldable pub supersede : Retransmission → ℕ → ℕ → ℕ → Bool
supersede r channel_id packet_id fragment_id =
    elim (find (matches channel_id packet_id fragment_id) r.pending) [
      | none ↦ false
      | some p ↦ true
    ]

-- What a loss report does to one packet.
unfoldable pub nudge : ℕ → Pending → Pending
nudge now p =
    if p.initial_sent
    then record p {
      next_retry_ms = now;
      nack_pending = true;
      feedback_generation = add64 p.feedback_generation 1;
    }
    else record p { nack_pending = true; feedback_generation = add64 p.feedback_generation 1 }

-- `IHS_RetransmissionNack`.
unfoldable pub nack : Retransmission → ℕ → ℕ → ℕ → ℕ → Retransmission × Bool
unfolding matches nudge
nack r channel_id packet_id fragment_id now =
    elim (find (matches channel_id packet_id fragment_id) r.pending) [
      | none ↦ (r, false)
      | some p ↦ (
        record r {
          pending = change (matches channel_id packet_id fragment_id) (nudge now) r.pending;
          stats = record s { nacks = add64 s.nacks 1 };
        },
        true,
      )
    ]
  where
    s : Stats
    s = r.stats

-- The distance from a packet's ID up to the reference: `(uint16_t)(packetId - id)`.
abbrev pub below_distance : ℕ → Pending → ℕ
below_distance packet_id p = sub16 packet_id p.packet.header.packet_id

-- Strictly below the reference, in serial-number order.
unfoldable pub is_below : ℕ → Pending → Bool
is_below packet_id p =
    not (below_distance packet_id p == 0 || leb 0x8000 (below_distance packet_id p))

-- What `IHS_RetransmissionAcknowledgeThrough` releases.
unfoldable pub released : ℕ → ℕ → Pending → Bool
unfolding is_below
released channel_id packet_id p =
    p.packet.header.channel_id == channel_id && (p.ready && is_below packet_id p)

-- `IHS_RetransmissionAcknowledgeThrough`: `loop` is the walk from one link on, with the rest of
-- the list, the counters and the objects unlinked so far; its result has the kept list.
pub record Walk : Type 0 where
  pub kept : List Pending
  pub unlinked : List Pending
  pub stats : Stats
  pub count : ℕ

unfoldable pub acknowledge_walk :
    (Pending → Bool) → ℕ → List Pending → List Pending → Stats → ℕ → Walk
unfolding acknowledge_stats retire
acknowledge_walk t now [] unlinked s n = record {
  kept = [];
  unlinked = unlinked;
  stats = s;
  count = n;
}
acknowledge_walk t now (p ∷ ps) unlinked s n =
    let dropped =
      acknowledge_walk t now ps (retire p ∷ unlinked) (acknowledge_stats s p now) (n + 1) in
    let passed = acknowledge_walk t now ps unlinked s n in
    if t p then dropped else record passed { kept = p ∷ passed.kept }

unfoldable pub acknowledge_through : Retransmission → ℕ → ℕ → ℕ → Retransmission × ℕ
unfolding acknowledge_walk released
acknowledge_through r channel_id packet_id now =
    let w = acknowledge_walk (released channel_id packet_id) now r.pending r.retired r.stats 0 in
    (record r { pending = w.kept; retired = w.unlinked; stats = w.stats }, w.count)

-- A loop that nudges every packet that passes a test, and counts them.
unfoldable pub nudge_all : (Pending → Bool) → ℕ → List Pending → List Pending
unfolding nudge
nudge_all t now [] = []
nudge_all t now (p ∷ ps) = (if t p then nudge now p else p) ∷ nudge_all t now ps

abbrev pub nudge_where : (Pending → Bool) → Retransmission → ℕ → Retransmission × ℕ
nudge_where t r now =
    let n = length (select t r.pending) in
    let s = r.stats in
    (
      record r {
        pending = nudge_all t now r.pending;
        stats = record s { nacks = add64 s.nacks n };
      },
      n,
    )

-- `IHS_RetransmissionNackAllThrough`.
unfoldable pub nack_all_through : Retransmission → ℕ → ℕ → ℕ → Retransmission × ℕ
unfolding nudge_all is_below
nack_all_through r channel_id packet_id now =
    nudge_where (λ p. p.packet.header.channel_id == channel_id && is_below packet_id p) r now

-- The packets that `IHS_RetransmissionNackBefore` asks for again: below the reference or at it,
-- sent before, and no later than the cutoff.
unfoldable pub wanted : ℕ → ℕ → Bool → ℕ → Pending → Bool
unfolding is_below
wanted channel id below cutoff p =
    (p.packet.header.channel_id == channel
      && (if below then is_below id p else below_distance id p == 0))
    && (p.initial_sent && not (is_positive32 (sub32 p.last_send_timestamp cutoff)))

-- `IHS_RetransmissionNackBefore`.
unfoldable pub nack_before : Retransmission → ℕ → ℕ → Bool → ℕ → ℕ → Retransmission × ℕ
unfolding nudge_all wanted
nack_before r channel id below cutoff now = nudge_where (wanted channel id below cutoff) r now

-- `RetryDelayMs`: with no session the initial delay, else the clock's ticks in milliseconds,
-- rounded up.
unfoldable pub retry_delay_ms : Option ℕ → ℕ
retry_delay_ms none = 25
retry_delay_ms (some ticks) = (ticks * 1000 + 65535) / 65536

unfoldable pub saturate : ℕ → ℕ
saturate n = if ltb n 255 then n + 1 else n

unfoldable pub note_sent : Option ℕ → Header → Bool → ℕ → Pending → Pending
unfolding saturate retry_delay_ms
note_sent ticks h sent now p = record p {
  initial_sent = true;
  ready = true;
  last_send_ms = now;
  last_send_timestamp = h.send_timestamp;
  packet = record k { header = record j { send_timestamp = h.send_timestamp } };
  next_wire_count = if sent then saturate h.retransmit_count else h.retransmit_count;
  next_retry_ms = if not sent || p.nack_pending then now else add64 now (retry_delay_ms ticks);
}
  where
    k : Packet
    k = p.packet

    j : Header
    j = k.header

-- `IHS_RetransmissionNoteInitialSend`.
unfoldable pub note_initial_send : Option ℕ → Retransmission → Header → Bool → ℕ → Retransmission
unfolding matches note_sent
note_initial_send ticks r h sent now =
    elim (find (matches h.channel_id h.packet_id h.fragment_id) r.pending) [
      | none ↦ r
      | some p ↦ record r {
        pending =
            change (matches h.channel_id h.packet_id h.fragment_id) (note_sent ticks h sent now)
              r.pending;
        stats = if sent then s else record s { send_failures = add64 s.send_failures 1 };
      }
    ]
  where
    s : Stats
    s = r.stats
