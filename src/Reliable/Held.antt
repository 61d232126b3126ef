-- ===== src/Reliable/Held.antt =====
-- src/session/reliable.c: a loss report releases nothing that it does not report as held.
use ihslib.Common.{
  ℕ, ◌≡◌, refl, ap, All, ◌∙◌, Bool, true, not, ◌&&◌, ◌||◌, List, [], ◌∷◌, map, select, length, drop,
  ltb, leb, ◌==◌, ==_self, inl, inr, Bool-cases, arith, add16, sub32,
}
use ihslib.Packet.Header.{Packet, int16_min}
use ihslib.Retransmission.State.{Pending, Retransmission, matches, identity_matches}
use ihslib.Retransmission.Feedback.{acknowledge_through, nudge, is_below, released}
use ihslib.Retransmission.Retention.{key}
use ihslib.Reliable.Nack.{
  body_seen, later_cutoff, ReliableChannel, is_stale, body_contiguous, nack_body, on_nack_packet,
}
use ihslib.Reliable.Kept.{
  mask_ids, is_member, Keeps, nack_before-Keeps, acknowledge_through-Keeps, nack_mask-Keeps,
}

-- An admitted packet of the channel that is below the contiguous ID's successor or has a set bit.
abbrev pub is_held : ℕ → ℕ → List ℕ → Pending → Bool
is_held channel boundary ids p =
    p.packet.header.channel_id == channel
    && (p.ready && (is_below boundary p || is_member p.packet.header.packet_id ids))

is_held-nudge :
    (channel boundary now : ℕ) (ids : List ℕ) (p : Pending)
    → is_held channel boundary ids (nudge now p) ≡ is_held channel boundary ids p
unfolding nudge is_below
is_held-nudge channel boundary now ids p = elim (Bool-cases p.initial_sent) [
  | inl sent ↦ rw sent refl
  | inr staged ↦ rw staged refl
]

released-is_held :
    (channel boundary : ℕ) (ids : List ℕ) (p : Pending)
    → released channel boundary p ≡ true
    → is_held channel boundary ids p ≡ true
unfolding released
released-is_held channel boundary ids p e = ground (arith, e)

matches-is_held :
    (channel boundary id : ℕ) (ids : List ℕ) (p : Pending)
    → is_member id ids ≡ true
    → matches channel id int16_min p ≡ true
    → p.ready ≡ true
    → is_held channel boundary ids p ≡ true
unfolding matches identity_matches
matches-is_held channel boundary id ids p member m ready =
    let same : p.packet.header.packet_id ≡ id = ground (arith, m) in
    let in_ids : is_member p.packet.header.packet_id ids ≡ true =
      ap (λ i. is_member i ids) same ∙ member in
    ground (arith, m, in_ids, ready)

All-members :
    (P : ℕ → Type 0) (ids : List ℕ) → ((id : ℕ) → is_member id ids ≡ true → P id) → All P ids
All-members P [] f = tt
All-members P (x ∷ xs) f =
    (f x (ground (arith, ==_self x)), All-members P xs (λ id e. f id (ground (arith, e))))

-- What the host reports as held in a body with a mask, and nothing in a shorter one.
abbrev pub reported : Packet → Pending → Bool
reported packet p =
    leb 6 (length packet.body)
    && is_held packet.header.channel_id (add16 (body_contiguous packet.body) 1)
        (mask_ids packet.header.packet_id (drop 6 packet.body)) p

reported-nudge :
    (packet : Packet) (now : ℕ) (p : Pending) → reported packet (nudge now p) ≡ reported packet p
reported-nudge packet now p =
    let h = packet.header in
    ap (λ b. leb 6 (length packet.body) && b)
      (is_held-nudge h.channel_id (add16 (body_contiguous packet.body) 1) now
        (mask_ids h.packet_id (drop 6 packet.body)) p)

reported_long :
    (packet : Packet) (p : Pending)
    → leb 6 (length packet.body) ≡ true
    → is_held packet.header.channel_id
        (add16 (body_contiguous packet.body) 1)
        (mask_ids packet.header.packet_id (drop 6 packet.body))
        p
      ≡ true
    → reported packet p ≡ true
reported_long packet p long held = rw (long, held) refl

nack_body-Keeps :
    (cutoff now : ℕ) (packet : Packet)
    → leb 6 (length packet.body) ≡ true
    → Keeps
        (reported packet)
        (nack_body packet.header.channel_id packet.header.packet_id cutoff now packet.body)
unfolding nack_body
nack_body-Keeps cutoff now packet long r =
    let channel = packet.header.channel_id in
    let boundary = add16 (body_contiguous packet.body) 1 in
    let ids = mask_ids packet.header.packet_id (drop 6 packet.body) in
    nack_mask-Keeps (reported packet) channel cutoff now (reported-nudge packet now)
      packet.header.packet_id (drop 6 packet.body)
      (All-members _ ids (λ id member p m ready.
        reported_long packet p long (matches-is_held channel boundary id ids p member m ready)))
      (acknowledge_through r channel boundary now).0
    ∙ acknowledge_through-Keeps (reported packet) channel boundary now
        (λ p e. reported_long packet p long (released-is_held channel boundary ids p e)) r

-- A loss report takes none of the packets that it does not report as held from the list, nor does it
-- reorder them, whatever its size, age and bits: those not admitted, of another channel, or beyond the
-- contiguous ID and without a set bit.
pub on_nack_packet-Keeps :
    (timestamp age now : ℕ) (c : ReliableChannel) (packet : Packet) (r : Retransmission)
    → map key (
        select
          (λ p. not (reported packet p))
          (on_nack_packet timestamp age now c packet r).1.pending)
      ≡ map key (select (λ p. not (reported packet p)) r.pending)
unfolding on_nack_packet
on_nack_packet-Keeps timestamp age now c packet r =
    let h = packet.header in
    let cutoff = sub32 timestamp age in
    let late = later_cutoff cutoff (body_seen packet.body) in
    let stable = reported-nudge packet now in
    elim (Bool-cases (is_stale c h.send_timestamp)) [
      | inl stale ↦ rw stale refl
      | inr fresh ↦ elim (Bool-cases (length packet.body == 0)) [
        | inl simple ↦
            rw (fresh, simple)
              (nack_before-Keeps (reported packet) h.channel_id h.packet_id true cutoff now stable
                r)
        | inr some_bytes ↦ elim (Bool-cases (ltb (length packet.body) 6)) [
          | inl short ↦ rw (fresh, some_bytes, short) refl
          | inr enough ↦
              rw (fresh, some_bytes, enough)
                (nack_before-Keeps (reported packet) h.channel_id h.packet_id true late now stable
                    (nack_body h.channel_id h.packet_id late now packet.body r)
                  ∙ nack_body-Keeps late now packet (ground (arith, enough)) r)
        ]
      ]
    ]
