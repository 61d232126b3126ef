-- ===== src/Retransmission/Late.antt =====
-- src/session/retransmission.c: the race between a send and the feedback on its packet, which
-- `feedbackGeneration` decides.
use ihslib.Common.{
  ℕ, ◌^◌, ◌<◌, ◌≡◌, ◌⊎◌, refl, leb, if◌then◌else◌, Bool, true, false, Option, none, some, List, [],
  ◌∷◌, ◌++◌, arith, inl, inr, Bool-cases, ==_self,
}
use ihslib.Packet.Header.{type_reliable, type_reliable_frag}
use ihslib.Retransmission.State.{Pending, Retransmission, find, change}
use ihslib.Retransmission.Feedback.{nudge}
use ihslib.Retransmission.Scan.{
  Attempt, Turn, has_address, object, note_attempt, finish_attempt, pending_due, is_reliable_type,
}

find-append :
    (t : Pending → Bool) (ps us : List Pending) (p : Pending)
    → find t ps ≡ some p
    → find t (ps ++ us) ≡ some p
unfolding find
find-append t [] us p e = absurd (cc)
find-append t (q ∷ ps) us p e = elim (Bool-cases (t q)) [
  | inl hit ↦ rw hit (ground arith)
  | inr miss ↦ rw miss (find-append t ps us p (ground arith))
]

find-change_self :
    (t : Pending → Bool) (f : Pending → Pending) (ps : List Pending) (p : Pending)
    → find t ps ≡ some p
    → t (f p) ≡ true
    → find t (change t f ps) ≡ some (f p)
unfolding find change
find-change_self t f [] p e k = absurd (cc)
find-change_self t f (q ∷ ps) p e k = elim (Bool-cases (t q)) [
  | inl hit ↦ ground arith
  | inr miss ↦ rw (miss, find, change) (rw miss (find-change_self t f ps p (ground arith) k))
]

-- The end of an attempt at an object that is still in the list writes that object.
pending-finish_attempt :
    (now : ℕ) (a : Attempt) (t : Turn) (r : Retransmission) (o : Pending)
    → find (has_address a.target) r.pending ≡ some o
    → o.tracked ≡ true
    → (finish_attempt now a t r).pending
      ≡ change (has_address a.target) (note_attempt now a t) r.pending
unfolding finish_attempt object
pending-finish_attempt now a t r o e h =
    ground (arith, find-append (has_address a.target) r.pending r.retired o e)

-- A packet of a reliable type.
abbrev pub IsReliable : Pending → Type 0
IsReliable p = (p.packet.header.type ≡ type_reliable) ⊎ (p.packet.header.type ≡ type_reliable_frag)

-- A scan of all channels, or of the packet's own.
abbrev pub Covers : Option ℕ → Pending → Type 0
Covers channel p = (channel ≡ none) ⊎ (channel ≡ some p.packet.header.channel_id)

-- An admitted packet that was sent and has a loss report to answer.
record IsAsked (channel : Option ℕ) (due : ℕ) (q : Pending) : Type 0 where
  ready : q.ready ≡ true
  sent : q.initial_sent ≡ true
  asked : q.nack_pending ≡ true
  time : q.next_retry_ms ≡ due
  covered : Covers channel q

asked_by_ticks :
    (channel : Option ℕ) (due later ticks delay : ℕ) (q : Pending)
    → IsAsked channel due q
    → IsReliable q
    → pending_due later (some ticks) delay channel q ≡ true
unfolding pending_due is_reliable_type
asked_by_ticks channel due later ticks delay q v (inl e) = elim v.covered [
  | inl all ↦ rw all (ground (arith, v.ready, v.sent, v.asked))
  | inr own ↦ rw own (ground (arith, v.ready, v.sent, v.asked, ==_self q.packet.header.channel_id))
]
asked_by_ticks channel due later ticks delay q v (inr e) = elim v.covered [
  | inl all ↦ rw all (ground (arith, v.ready, v.sent, v.asked))
  | inr own ↦ rw own (ground (arith, v.ready, v.sent, v.asked, ==_self q.packet.header.channel_id))
]

asked_by_time :
    (channel : Option ℕ) (due later delay : ℕ) (q : Pending)
    → IsAsked channel due q
    → pending_due later none delay channel q ≡ leb due later
unfolding pending_due
asked_by_time channel due later delay q v = elim v.covered [
  | inl all ↦ rw all (ground (arith, v.ready, v.sent, v.time))
  | inr own ↦ rw own (ground (arith, v.ready, v.sent, v.time, ==_self q.packet.header.channel_id))
]

-- A loss report on the packet that a scan is just sending survives the end of the attempt: the
-- object still asks for its packet. Every later scan by stream ticks that covers the packet's channel
-- finds it due, as it is of a reliable type. A later scan by milliseconds does so from the report's
-- time on, where the packet had been sent before this attempt, and else not before the retry time
-- that the object had. With no report in between, the attempt answers the reports before it.
pub finish_attempt_late :
    (now : ℕ) (a : Attempt) (t : Turn) (r : Retransmission) (p : Pending)
    → a.target ≡ p.address
    → p.tracked ≡ true
    → p.ready ≡ true
    → IsReliable p
    → p.feedback_generation ≡ a.feedback_generation
    → p.feedback_generation < 2 ^ 64
    → (at later ticks delay : ℕ) (channel : Option ℕ) → Covers channel p
    → (find (has_address a.target) r.pending ≡ some (nudge at p)
        → (q : Pending) × (find (has_address a.target) (finish_attempt now a t r).pending ≡ some q)
          × (q.nack_pending ≡ true)
          × (pending_due later (some ticks) delay channel q ≡ true)
          × (pending_due later none delay channel q
              ≡ leb (if p.initial_sent then at else p.next_retry_ms) later))
      × (find (has_address a.target) r.pending ≡ some p
          → (q : Pending) × (find (has_address a.target) (finish_attempt now a t r).pending
              ≡ some q)
            × (q.nack_pending ≡ false))
unfolding nudge note_attempt
finish_attempt_late now a t r p ea et er ek eg lt at later ticks delay channel ec = (late, quiet)
  where
    due : ℕ
    due = if p.initial_sent then at else p.next_retry_ms

    changed :
        (o : Pending)
        → o.address ≡ a.target
        → o.tracked ≡ true
        → find (has_address a.target) r.pending ≡ some o
        → find (has_address a.target) (finish_attempt now a t r).pending
          ≡ some (note_attempt now a t o)
    changed o eo to e = rw (pending-finish_attempt now a t r o e to) (
        find-change_self (has_address a.target) (note_attempt now a t) r.pending o e
          (rw eo (==_self a.target)))

    nudged : (b : Bool) → p.initial_sent ≡ b → (nudge at p).packet ≡ p.packet
    nudged b h = ground arith

    asked : IsAsked channel due (note_attempt now a t (nudge at p))
    asked = record {
      ready = ground arith;
      sent = refl;
      asked = ground arith;
      time = ground arith;
      covered = ground (arith, nudged);
    }

    late :
        find (has_address a.target) r.pending ≡ some (nudge at p)
        → (q : Pending) × (find (has_address a.target) (finish_attempt now a t r).pending ≡ some q)
          × (q.nack_pending ≡ true)
          × (pending_due later (some ticks) delay channel q ≡ true)
          × (pending_due later none delay channel q ≡ leb due later)
    late e = (
      note_attempt now a t (nudge at p),
      changed (nudge at p) (ground arith) (ground arith) e,
      asked.asked,
      asked_by_ticks channel due later ticks delay (note_attempt now a t (nudge at p)) asked
          (ground arith),
      asked_by_time channel due later delay (note_attempt now a t (nudge at p)) asked,
    )

    quiet :
        find (has_address a.target) r.pending ≡ some p
        → (q : Pending) × (find (has_address a.target) (finish_attempt now a t r).pending ≡ some q)
          × (q.nack_pending ≡ false)
    quiet e = (note_attempt now a t p, changed p (ground arith) et e, ground arith)
