-- ===== src/Retransmission/Ledger.antt =====
-- src/session/retransmission.c: the counters agree with the list whatever the calls.
use ihslib.Common.{
  ℕ, ◌+◌, ◌%◌, ◌^◌, ◌≡◌, Bool, true, false, Option, List, [], ◌∷◌, length, arith, inl, inr,
  Bool-cases, Option-cases,
}
use ihslib.Packet.Header.{Header, Packet}
use ihslib.Retransmission.State.{
  Pending, Stats, Retransmission, find, retire, track, activate, cancel_unsent, matches,
  cancellable,
}
use ihslib.Retransmission.Feedback.{
  acknowledge, acknowledge_walk, acknowledge_stats, acknowledge_through, nack, nack_before,
  nack_all_through, note_initial_send, note_sent, nudge, released,
}
use ihslib.Retransmission.Scan.{
  Call, tracks, activates, cancels, acknowledges, acknowledges_through, nacks, nacks_all_through,
  nacks_before, notes, apply, apply_all, Attempt, Turn, Scan, has_address, note_attempt,
  attempt_stats, finish_attempt, eligible, attempt, attempts, process,
}
use ihslib.Retransmission.Lookup.{length-unlink, length-change, length-map, length-nudge_all}

-- `outstanding` is the length of the list, and what was registered is acknowledged or still there.
pub record IsBalanced (s : Stats) (n : ℕ) : Type 0 where
  pub outstanding_eq : s.outstanding ≡ n % 2 ^ 32
  pub tracked_eq : s.tracked ≡ (s.acknowledged + n) % 2 ^ 64

abbrev pub IsLedger : Retransmission → Type 0
IsLedger r = IsBalanced r.stats (length r.pending)

track-IsLedger :
    (allocated : Bool) (r : Retransmission) (packet : Packet) (now : ℕ)
    → IsLedger r
    → IsLedger (track allocated r packet now).0
unfolding track
track-IsLedger allocated r packet now v = ground arith

activate-IsLedger :
    (r : Retransmission) (channel first count : ℕ)
    → IsLedger r
    → IsLedger (activate r channel first count)
unfolding activate
activate-IsLedger r channel first count v = rw length-map v

cancel_unsent-IsLedger :
    (r : Retransmission) (h : Header) → IsLedger r → IsLedger (cancel_unsent r h)
unfolding cancel_unsent
cancel_unsent-IsLedger r h v = elim (Option-cases (find (cancellable h) r.pending)) [
  | inl e ↦ ground arith
  | inr (p, e) ↦ ground (arith, length-unlink (cancellable h) r.pending p e)
]

acknowledge-IsLedger :
    (r : Retransmission) (channel packet_id fragment_id now : ℕ)
    → IsLedger r
    → IsLedger (acknowledge r channel packet_id fragment_id now).0
unfolding acknowledge
acknowledge-IsLedger r channel packet_id fragment_id now v =
    elim (Option-cases (find (matches channel packet_id fragment_id) r.pending)) [
      | inl e ↦ ground arith
      | inr (p, e) ↦
          ground (arith, length-unlink (matches channel packet_id fragment_id) r.pending p e)
    ]

-- The walk moves packets from the list to the acknowledged ones, each with its counters.
acknowledge_walk-IsBalanced :
    (t : Pending → Bool) (now : ℕ) (ps us : List Pending) (s : Stats) (n k : ℕ)
    → IsBalanced s (length ps + k)
    → let w = acknowledge_walk t now ps us s n in IsBalanced w.stats (length w.kept + k)
unfolding acknowledge_walk acknowledge_stats
acknowledge_walk-IsBalanced t now [] us s n k v = v
acknowledge_walk-IsBalanced t now (p ∷ ps) us s n k v = elim (Bool-cases (t p)) [
  | inl hit ↦ rw hit (
      acknowledge_walk-IsBalanced t now ps (retire p ∷ us) (acknowledge_stats s p now) (n + 1) k
        (ground arith))
  | inr miss ↦
      rw miss (ground (arith, acknowledge_walk-IsBalanced t now ps us s n (k + 1) (ground arith)))
]

acknowledge_through-IsLedger :
    (r : Retransmission) (channel packet_id now : ℕ)
    → IsLedger r
    → IsLedger (acknowledge_through r channel packet_id now).0
unfolding acknowledge_through
acknowledge_through-IsLedger r channel packet_id now v = ground (
  arith,
  acknowledge_walk-IsBalanced (released channel packet_id) now r.pending r.retired r.stats 0 0
      (ground arith),
)

nack-IsLedger :
    (r : Retransmission) (channel packet_id fragment_id now : ℕ)
    → IsLedger r
    → IsLedger (nack r channel packet_id fragment_id now).0
unfolding nack
nack-IsLedger r channel packet_id fragment_id now v =
    ground (arith, length-change (matches channel packet_id fragment_id) (nudge now) r.pending)

note_initial_send-IsLedger :
    (ticks : Option ℕ) (r : Retransmission) (h : Header) (sent : Bool) (now : ℕ)
    → IsLedger r
    → IsLedger (note_initial_send ticks r h sent now)
unfolding note_initial_send
note_initial_send-IsLedger ticks r h sent now v = ground (
  arith,
  length-change (matches h.channel_id h.packet_id h.fragment_id) (note_sent ticks h sent now)
      r.pending,
)

-- Every call keeps the counters in step with the list: `outstanding` counts the retained packets,
-- and `tracked` counts those acknowledged and those still retained, each in its C width.
pub apply-IsLedger : (r : Retransmission) (c : Call) → IsLedger r → IsLedger (apply r c)
unfolding apply nack_all_through nack_before
apply-IsLedger r (tracks allocated packet now) v = track-IsLedger allocated r packet now v
apply-IsLedger r (activates channel first count) v = activate-IsLedger r channel first count v
apply-IsLedger r (cancels h) v = cancel_unsent-IsLedger r h v
apply-IsLedger r (acknowledges channel packet_id fragment_id now) v =
    acknowledge-IsLedger r channel packet_id fragment_id now v
apply-IsLedger r (acknowledges_through channel packet_id now) v =
    acknowledge_through-IsLedger r channel packet_id now v
apply-IsLedger r (nacks channel packet_id fragment_id now) v =
    nack-IsLedger r channel packet_id fragment_id now v
apply-IsLedger r (nacks_all_through channel packet_id now) v =
    rw length-nudge_all (record { outstanding_eq = v.outstanding_eq; tracked_eq = v.tracked_eq })
apply-IsLedger r (nacks_before channel id below cutoff now) v =
    rw length-nudge_all (record { outstanding_eq = v.outstanding_eq; tracked_eq = v.tracked_eq })
apply-IsLedger r (notes ticks h sent now) v = note_initial_send-IsLedger ticks r h sent now v

apply_all-IsLedger : (r : Retransmission) (cs : List Call) → IsLedger r → IsLedger (apply_all r cs)
unfolding apply_all
apply_all-IsLedger r [] v = v
apply_all-IsLedger r (c ∷ cs) v = apply_all-IsLedger (apply r c) cs (apply-IsLedger r c v)

finish_attempt-IsLedger :
    (now : ℕ) (a : Attempt) (t : Turn) (r : Retransmission)
    → IsLedger r
    → IsLedger (finish_attempt now a t r)
unfolding finish_attempt attempt_stats
finish_attempt-IsLedger now a t r v =
    ground (arith, length-change (has_address a.target) (note_attempt now a t) r.pending)

attempt-IsLedger :
    (now : ℕ) (a : Attempt) (t : Turn) (s : Scan)
    → IsLedger s.state
    → IsLedger (attempt now a t s).state
unfolding attempt
attempt-IsLedger now a t s v =
    let b = apply_all-IsLedger s.state t.before v in
    let d = apply_all-IsLedger (apply_all s.state t.before) t.during b in
    elim (Bool-cases (eligible (apply_all s.state t.before) s.failed a)) [
      | inl go ↦ rw go (finish_attempt-IsLedger now a t _ d)
      | inr skip ↦ rw skip b
    ]

attempts-IsLedger :
    (now : ℕ) (list : List Attempt) (turns : ℕ → Turn) (i : ℕ) (s : Scan)
    → IsLedger s.state
    → IsLedger (attempts now list turns i s).state
unfolding attempts
attempts-IsLedger now [] turns i s v = v
attempts-IsLedger now (a ∷ rest) turns i s v =
    attempts-IsLedger now rest turns (i + 1) _ (attempt-IsLedger now a (turns i) s v)

-- So does a whole scan, with any calls of other threads around each of its attempts.
pub process-IsLedger :
    (allocated : Bool) (r : Retransmission) (now : ℕ) (ticks : Option ℕ) (delay : ℕ)
    (channel : Option ℕ) (turns : ℕ → Turn)
    → IsLedger r
    → IsLedger (process allocated r now ticks delay channel turns).state
unfolding process
process-IsLedger true r now ticks delay channel turns v = attempts-IsLedger now _ turns 0 _ v
process-IsLedger false r now ticks delay channel turns v = v
