-- ===== src/Retransmission/Serial.antt =====
-- src/session/retransmission.c: what `IHS_RetransmissionAcknowledgeThrough` releases, and the
-- serial-number order by which it and the loss reports compare packet IDs across the 16-bit wrap.
use ihslib.Common.{
  suc, ◌⊎◌, inl, inr, refl, sym, ◌∙◌, subst, List, [], ◌∷◌, All, Bool-cases, ==_iff, ℕ, ◌^◌, ◌≤◌,
  ◌<◌, ◌≡◌, ◌↔◌, Bool, true, not, Option, none, some, select, length, arith, add16,
}
use ihslib.Retransmission.State.{Pending, Retransmission}
use ihslib.Retransmission.Feedback.{
  below_distance, is_below, below_distance, released, acknowledge_through, wanted, nudge,
}
use ihslib.Retransmission.Scan.{pending_due}
use ihslib.Retransmission.Lookup.{kept-acknowledge_walk}

-- A packet is below a reference exactly when the reference is 1 to 0x7fff IDs ahead of it, across
-- the wrap of the 16-bit ID.
pub is_below_iff :
    (id : ℕ) (p : Pending)
    → id < 2 ^ 16
    → p.packet.header.packet_id < 2 ^ 16
    → (is_below id p ≡ true)
      ↔ ((k : ℕ) × (1 ≤ k) × (k < 0x8000) × (id ≡ add16 p.packet.header.packet_id k))
unfolding is_below
is_below_iff id p hi hp = (
  (λ h. (below_distance id p, ground arith, ground arith, omega arith)),
  (λ (k, h1, h2, e). ground arith),
)

-- An admitted packet of the channel, whose ID the boundary is 1 to 0x7fff IDs ahead of.
abbrev pub IsConfirmed : ℕ → ℕ → Pending → Type 0
IsConfirmed channel id p =
    (p.packet.header.channel_id ≡ channel)
    × (p.ready ≡ true)
    × ((k : ℕ) × (1 ≤ k) × (k < 0x8000) × (id ≡ add16 p.packet.header.packet_id k))

-- A list without its packets of a kind, the others in their order, and how many those were.
abbrev pub Without : (Pending → Type 0) → List Pending → List Pending → ℕ → Type 0
Without P [] qs n = (qs ≡ []) × (n ≡ 0)
Without P (p ∷ ps) qs n =
    (P p × (m : ℕ) × (n ≡ suc m) × Without P ps qs m)
    ⊎ (¬ P p) × (rest : List Pending) × (qs ≡ p ∷ rest) × Without P ps rest n

released_iff :
    (channel id : ℕ) (p : Pending)
    → id < 2 ^ 16
    → p.packet.header.packet_id < 2 ^ 16
    → (released channel id p ≡ true) ↔ IsConfirmed channel id p
unfolding released
released_iff channel id p hi hp =
    let below = is_below_iff id p hi hp in
    let same = ==_iff p.packet.header.channel_id channel in
    (
      λ h. (same.0 (ground arith), ground arith, below.0 (ground arith)),
      λ (e, r, b). let x = below.1 b in let y = same.1 e in ground arith,
    )

Without-select :
    (channel id : ℕ) (ps : List Pending)
    → id < 2 ^ 16
    → All (λ p. p.packet.header.packet_id < 2 ^ 16) ps
    → Without
        (IsConfirmed channel id)
        ps
        (select (λ p. not (released channel id p)) ps)
        (length (select (released channel id) ps))
Without-select channel id [] hi hp = (refl, refl)
Without-select channel id (p ∷ ps) hi hp =
    let rest = Without-select channel id ps hi hp.1 in
    let meaning = released_iff channel id p hi hp.0 in
    elim (Bool-cases (released channel id p)) [
      | inl gone ↦ rw gone (inl (meaning.0 gone, _, refl, rest))
      | inr kept ↦ rw kept (inr (λ c. let x = meaning.1 c in cc, _, refl, rest))
    ]

pub pending-acknowledge_through :
    (r : Retransmission) (channel packet_id now : ℕ)
    → (acknowledge_through r channel packet_id now).0.pending
      ≡ select (λ p. not (released channel packet_id p)) r.pending
unfolding acknowledge_through
pending-acknowledge_through r channel packet_id now =
    (kept-acknowledge_walk (released channel packet_id) now r.pending r.retired r.stats 0).0

-- A cumulative acknowledgement releases the admitted packets of its channel whose IDs the boundary
-- is 1 to 0x7fff ahead of, across the wrap of the 16-bit IDs, keeps the others in their order, and
-- returns how many it released.
pub acknowledge_through_lem :
    (r : Retransmission) (channel packet_id now : ℕ)
    → packet_id < 2 ^ 16
    → All (λ p. p.packet.header.packet_id < 2 ^ 16) r.pending
    → let o = acknowledge_through r channel packet_id now in
      Without (IsConfirmed channel packet_id) r.pending o.0.pending o.1
unfolding acknowledge_through
acknowledge_through_lem r channel packet_id now hi hp =
    let w = kept-acknowledge_walk (released channel packet_id) now r.pending r.retired r.stats 0 in
    let count = sym (w.1 ∙ omega arith) in
    subst (Without (IsConfirmed channel packet_id) r.pending _) count (
      subst
        (λ qs.
          Without (IsConfirmed channel packet_id) r.pending qs
            (length (select (released channel packet_id) r.pending)))
        (sym w.0) (Without-select channel packet_id r.pending hi hp))

-- A packet that a loss report asks for again is due at once: in every later scan by the
-- millisecond clock, and, for a reliable packet, in every scan by stream ticks.
pub wanted-pending_due :
    (p : Pending) (channel id : ℕ) (below : Bool) (cutoff now later delay : ℕ) (ticks : Option ℕ)
    → wanted channel id below cutoff p ≡ true
    → p.ready ≡ true
    → now ≤ later
    → pending_due later ticks delay (some channel) (nudge now p) ≡ true
unfolding wanted pending_due nudge
wanted-pending_due p channel id below cutoff now later delay none h e le = ground arith
wanted-pending_due p channel id below cutoff now later delay (some t) h e le = ground arith
