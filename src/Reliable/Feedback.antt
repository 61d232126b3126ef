-- ===== src/Reliable/Feedback.antt =====
-- src/session/reliable.c: an acknowledgement that is owed is sent by the first update that may send,
-- and is not forgotten before.
use ihslib.Common.{
  ℕ, ◌≡◌, ◌⊎◌, inl, inr, refl, ap, Bool, true, false, not, ◌||◌, Option, none, some, List, [], ◌∷◌,
  ◌++◌, ◌==◌, if◌then◌else◌, add32, sub32, is_negative32, ==_self, arith, Bool-cases,
}
use ihslib.Window.State.{Window}
use ihslib.Window.Feedback.{MediaFeedback, contiguous_id, reliable_feedback}
use ihslib.Reliable.Nack.{ReliableChannel}
use ihslib.Reliable.Received.{
  Notice, lost_packets, disconnects, ack_packet, nack_packet, send_ack, send_nack, send_feedback,
  update_feedback,
}

-- Whether an acknowledgement of an ID is among the notices.
abbrev pub has_ack : ℕ → List Notice → Bool
has_ack id [] = false
has_ack id (lost_packets t n ∷ ns) = has_ack id ns
has_ack id (disconnects ∷ ns) = has_ack id ns
has_ack id (ack_packet i t ∷ ns) = i == id || has_ack id ns
has_ack id (nack_packet i t c bs n ∷ ns) = has_ack id ns

-- The acknowledgement is out, or it is still wanted, the channel is marked for another update, and only
-- what went before is out.
abbrev pub IsKept : List Notice → ℕ → ReliableChannel × List Notice → Type 0
IsKept earlier id (d, sent) =
    (has_ack id sent ≡ true)
    ⊎ ((d.ack_pending ≡ true) × (d.feedback_dirty ≡ true) × (sent ≡ earlier))

-- What one part of an update leaves.
acked_lem :
    (is_eligible : Bool) (clock confirmed : ℕ) (c : ReliableChannel)
    → (c.ack_pending || not (confirmed == c.ack_watermark)) ≡ true
    → let (a, sent, attempted) = send_ack is_eligible clock confirmed c in
      ((is_eligible ≡ true) × (has_ack confirmed sent ≡ true))
      ⊎ ((is_eligible ≡ false) × (a.ack_pending ≡ true) × (a.feedback_dirty ≡ true) × (sent ≡ []))
unfolding send_ack
acked_lem true clock confirmed c owed = elim (Bool-cases (confirmed == c.ack_watermark)) [
  | inl same ↦
      let pending : c.ack_pending ≡ true = ground (arith, same, owed) in
      inl (refl, rw (same, pending) (ground (arith, ==_self confirmed)))
  | inr other ↦ inl (refl, rw other (ground (arith, ==_self confirmed)))
]
acked_lem false clock confirmed c owed = elim (Bool-cases (confirmed == c.ack_watermark)) [
  | inl same ↦
      let pending : c.ack_pending ≡ true = ground (arith, same, owed) in
      inr (refl, rw (same, pending) refl, rw (same, pending) refl, rw (same, pending) refl)
  | inr other ↦ inr (refl, rw other refl, rw other refl, rw other refl)
]

has_ack-append :
    (id : ℕ) (xs ys : List Notice) → has_ack id ys ≡ true → has_ack id (xs ++ ys) ≡ true
has_ack-append id [] ys h = h
has_ack-append id (lost_packets t n ∷ xs) ys h = has_ack-append id xs ys h
has_ack-append id (disconnects ∷ xs) ys h = has_ack-append id xs ys h
has_ack-append id (ack_packet i t ∷ xs) ys h =
    let rest = has_ack-append id xs ys h in ground (arith, rest)
has_ack-append id (nack_packet i t c bs n ∷ xs) ys h = has_ack-append id xs ys h

-- A loss report that may not go out leaves what the acknowledgement left.
late_nack :
    (confirmed : ℕ) (o : Option (MediaFeedback × Bool)) (a : ReliableChannel)
    → a.ack_pending ≡ true
    → a.feedback_dirty ≡ true
    → let (b, sent, attempted) = send_nack false confirmed o a in
      (b.ack_pending ≡ true) × (b.feedback_dirty ≡ true) × (sent ≡ [])
unfolding send_nack
late_nack confirmed none a p d = (p, d, refl)
late_nack confirmed (some (f, m)) a p d = (p, refl, refl)

deadline_kept :
    (b : Bool) (n : ℕ) (c : ReliableChannel)
    → c.ack_pending ≡ true
    → c.feedback_dirty ≡ true
    → let d = if b then record c { feedback_deadline = n } else c in
      (d.ack_pending ≡ true) × (d.feedback_dirty ≡ true)
deadline_kept true n c p q = (p, q)
deadline_kept false n c p q = (p, q)

send_feedback-IsKept :
    (e : Bool) (now clock ticks id : ℕ) (o : Option (MediaFeedback × Bool)) (c : ReliableChannel)
    → (c.ack_pending || not (id == c.ack_watermark)) ≡ true
    → IsKept [] id (send_feedback e now clock ticks id o c)
unfolding send_feedback
send_feedback-IsKept true now clock ticks id o c owed =
    let x = send_ack true clock id c in
    let y = send_nack true id o x.0 in
    elim (acked_lem true clock id c owed) [
      | inl (eligible, sent) ↦ inl (has_ack-append id y.1 x.1 sent)
      | inr (late, pending, dirty, nothing) ↦ absurd (cc)
    ]
send_feedback-IsKept false now clock ticks id o c owed =
    let x = send_ack false clock id c in
    let y = send_nack false id o x.0 in
    elim (acked_lem false clock id c owed) [
      | inl (eligible, sent) ↦ absurd (cc)
      | inr (late, pending, dirty, nothing) ↦
          let (p, d, silent) = late_nack id o x.0 pending dirty in
          let kept = deadline_kept (x.2 || y.2) (add32 now ticks) y.0 p d in
          inr (kept.0, kept.1, rw (silent, nothing) refl)
    ]

has_ack-more : (id : ℕ) (xs ys : List Notice) → has_ack id xs ≡ true → has_ack id (xs ++ ys) ≡ true
has_ack-more id [] ys h = absurd (cc)
has_ack-more id (lost_packets t n ∷ xs) ys h = has_ack-more id xs ys h
has_ack-more id (disconnects ∷ xs) ys h = has_ack-more id xs ys h
has_ack-more id (ack_packet i t ∷ xs) ys h = elim (Bool-cases (i == id)) [
  | inl this ↦ rw this refl
  | inr other ↦ rw other (has_ack-more id xs ys (rw other at h))
]
has_ack-more id (nack_packet i t c bs n ∷ xs) ys h = has_ack-more id xs ys h

IsKept-append :
    (earlier : List Notice) (id : ℕ) (r : ReliableChannel × List Notice)
    → IsKept [] id r
    → IsKept earlier id (r.0, r.1 ++ earlier)
IsKept-append earlier id r (inl out) = inl (has_ack-more id r.1 earlier out)
IsKept-append earlier id r (inr (pending, dirty, nothing)) =
    inr (pending, dirty, ap (λ l. l ++ earlier) nothing)

-- On a channel that is marked for an update and whose frames are drained, where an acknowledgement is
-- owed, because one is pending or the contiguous ID has moved, an update sends it with the contiguous
-- ID, or, before its deadline, only notes the drain's losses and leaves it pending on a channel that
-- the next update looks at.
pub update_feedback-IsKept :
    (now clock ticks retries : ℕ) (w : Window) (c : ReliableChannel)
    → c.feedback_dirty ≡ true
    → (c.ack_pending || not (contiguous_id w == c.ack_watermark)) ≡ true
    → IsKept
        (lost_packets now retries ∷ [])
        (contiguous_id w)
        (update_feedback now clock ticks (some (w, retries)) c)
unfolding update_feedback
update_feedback-IsKept now clock ticks retries w c dirty owed =
    let eligible = not (is_negative32 (sub32 now c.feedback_deadline)) in
    let cleared = record c { feedback_dirty = false; window = some w } in
    let report = reliable_feedback w now in
    rw dirty (
      IsKept-append (lost_packets now retries ∷ []) (contiguous_id w)
        (send_feedback eligible now clock ticks (contiguous_id w) report cleared)
        (send_feedback-IsKept eligible now clock ticks (contiguous_id w) report cleared owed))

-- An acknowledgement is wanted, on a channel that the next update looks at.
abbrev IsAwaited : ReliableChannel → Type 0
IsAwaited c = (c.ack_pending ≡ true) × (c.feedback_dirty ≡ true)
