-- ===== src/Reliable/Nack.antt =====
-- src/session/reliable.c: a loss report of the host, applied to the retained packets. `timestamp` is the
-- stream clock's time, `age` the clock's age limit for loss reports, in ticks, `now` the time in
-- milliseconds. Each call on the list takes its lock by itself; what other threads do to the list between
-- two of them is left out.
use ihslib.Common.{
  ℕ, zero, suc, ◌+◌, ◌*◌, ◌/◌, ◌%◌, ◌^◌, Bool, true, false, not, ◌&&◌, Option, List, [], ◌∷◌,
  length, drop, get_or, ltb, ◌==◌, if◌then◌else◌, add16, sub32, is_negative32,
}
use ihslib.Packet.Header.{Packet, int16_min}
use ihslib.Retransmission.State.{Retransmission}
use ihslib.Retransmission.Feedback.{acknowledge, acknowledge_through, nack_before}
use ihslib.Window.State.{Window}

-- `IHS_ReliableChannel`.
pub record ReliableChannel : Type 0 where
  pub window : Option Window
  pub peer_timestamp : ℕ
  pub peer_receive_time : ℕ
  pub feedback_deadline : ℕ
  pub last_nack_timestamp : ℕ
  pub ack_watermark : ℕ
  pub feedback_dirty : Bool
  pub ack_pending : Bool
  pub overflowed : Bool

-- The stale test of `ReliableOnNackPacket`.
unfoldable pub is_stale : ReliableChannel → ℕ → Bool
is_stale c stamp =
    not (c.last_nack_timestamp == 0) && is_negative32 (sub32 stamp c.last_nack_timestamp)

-- `seen` and `contiguous` of the body.
unfoldable pub body_seen : List ℕ → ℕ
body_seen body =
    get_or body 0 0 + 2 ^ 8 * get_or body 1 0 + 2 ^ 16 * get_or body 2 0 + 2 ^ 24 * get_or body 3 0

unfoldable pub body_contiguous : List ℕ → ℕ
body_contiguous body = get_or body 4 0 + 2 ^ 8 * get_or body 5 0

-- The later of the cutoff and what the host has seen.
unfoldable pub later_cutoff : ℕ → ℕ → ℕ
later_cutoff cutoff seen = if is_negative32 (sub32 cutoff seen) then seen else cutoff

module _ (channel cutoff now : ℕ) where
  -- What one bit does to its packet.
  unfoldable pub nack_bit : Bool → ℕ → Retransmission → Retransmission
  nack_bit held id r =
      if held
      then (acknowledge r channel id int16_min now).0
      else (nack_before r channel id false cutoff now).0

  -- The loop over the bits of one byte, up to the highest set one; a byte has no more than 8.
  unfoldable pub nack_bits : ℕ → ℕ → ℕ → Retransmission → Retransmission
  nack_bits zero id bits r = r
  nack_bits (suc fuel) id bits r =
      let rest = nack_bits fuel (add16 id 1) (bits / 2) (nack_bit (bits % 2 == 1) id r) in
      if bits == 0 then r else rest

  -- The loop over the mask.
  unfoldable pub nack_mask : ℕ → List ℕ → Retransmission → Retransmission
  nack_mask id [] r = r
  nack_mask id (bits ∷ mask) r = nack_mask (add16 id 8) mask (nack_bits 8 id bits r)

-- The body's part of `ReliableOnNackPacket`.
unfoldable pub nack_body : ℕ → ℕ → ℕ → ℕ → List ℕ → Retransmission → Retransmission
nack_body channel base cutoff now body r =
    let through = (acknowledge_through r channel (add16 (body_contiguous body) 1) now).0 in
    nack_mask channel cutoff now base (drop 6 body) through

-- `ReliableOnNackPacket`.
unfoldable pub on_nack_packet :
    ℕ → ℕ → ℕ → ReliableChannel → Packet → Retransmission → ReliableChannel × Retransmission
on_nack_packet timestamp age now c packet r =
    let h = packet.header in
    let noted = record c { last_nack_timestamp = h.send_timestamp } in
    let cutoff = sub32 timestamp age in
    let late = later_cutoff cutoff (body_seen packet.body) in
    let simple = (nack_before r h.channel_id h.packet_id true cutoff now).0 in
    let extended =
      (nack_before (nack_body h.channel_id h.packet_id late now packet.body r) h.channel_id
        h.packet_id true late now).0 in
    if is_stale c h.send_timestamp
    then (c, r)
    else if length packet.body == 0
    then (noted, simple)
    else if ltb (length packet.body) 6
    then (noted, r)
    else (noted, extended)
