-- ===== src/Retransmission/Retention.antt =====
-- src/session/retransmission.c: there is no give-up. Loss reports, notes and scans leave every
-- retained packet in the list, at its place.
use ihslib.Common.{
  ℕ, ◌+◌, ◌≡◌, refl, ap, ◌∙◌, Bool, true, false, Option, List, [], ◌∷◌, map, if◌then◌else◌, arith,
  inl, inr, Bool-cases, Option-cases, All,
}
use ihslib.Packet.Header.{Header}
use ihslib.Retransmission.State.{Pending, Retransmission, find, change, activate, matches}
use ihslib.Retransmission.Feedback.{
  nack, nack_before, nack_all_through, note_initial_send, note_sent, nudge, nudge_all,
}
use ihslib.Retransmission.Scan.{
  Call, tracks, activates, cancels, acknowledges, acknowledges_through, nacks, nacks_all_through,
  nacks_before, notes, apply, apply_all, Attempt, Turn, Scan, has_address, note_attempt,
  finish_attempt, eligible, attempt, attempts, process, object,
}

-- What makes a retained packet the one that it is: its object and its wire identity.
abbrev pub Key : Type 0
Key = ℕ × ℕ × ℕ × ℕ

abbrev pub key : Pending → Key
key p =
    (p.address, p.packet.header.channel_id, p.packet.header.packet_id, p.packet.header.fragment_id)

abbrev pub keys : Retransmission → List Key
keys r = map key r.pending

-- A call that reports or reads, and neither registers nor releases.
abbrev pub IsReport : Call → Type 0
IsReport (tracks allocated packet now) = ⊥
IsReport (activates channel first count) = Unit
IsReport (cancels h) = ⊥
IsReport (acknowledges channel packet_id fragment_id now) = ⊥
IsReport (acknowledges_through channel packet_id now) = ⊥
IsReport (nacks channel packet_id fragment_id now) = Unit
IsReport (nacks_all_through channel packet_id now) = Unit
IsReport (nacks_before channel id below cutoff now) = Unit
IsReport (notes ticks h sent now) = Unit

keys-change :
    (t : Pending → Bool) (f : Pending → Pending) (ps : List Pending)
    → ((p : Pending) → key (f p) ≡ key p)
    → map key (change t f ps) ≡ map key ps
unfolding change
keys-change t f [] same = refl
keys-change t f (p ∷ ps) same = elim (Bool-cases (t p)) [
  | inl hit ↦ rw hit (ap (λ k. k ∷ map key ps) (same p))
  | inr miss ↦ rw miss (ap (λ ks. key p ∷ ks) (keys-change t f ps same))
]

keys-map :
    (f : Pending → Pending) (ps : List Pending)
    → ((p : Pending) → key (f p) ≡ key p)
    → map key (map f ps) ≡ map key ps
keys-map f [] same = refl
keys-map f (p ∷ ps) same = rw (same p) (ap (λ ks. key p ∷ ks) (keys-map f ps same))

pub key-nudge : (now : ℕ) (p : Pending) → key (nudge now p) ≡ key p
unfolding nudge
key-nudge now p = ground arith

keys-nudge_all :
    (t : Pending → Bool) (now : ℕ) (ps : List Pending) → map key (nudge_all t now ps) ≡ map key ps
unfolding nudge_all
keys-nudge_all t now [] = refl
keys-nudge_all t now (p ∷ ps) = elim (Bool-cases (t p)) [
  | inl hit ↦ rw (hit, key-nudge now p) (ap (λ ks. key p ∷ ks) (keys-nudge_all t now ps))
  | inr miss ↦ rw miss (ap (λ ks. key p ∷ ks) (keys-nudge_all t now ps))
]

keys-nack :
    (r : Retransmission) (channel packet_id fragment_id now : ℕ)
    → keys (nack r channel packet_id fragment_id now).0 ≡ keys r
unfolding nack
keys-nack r channel packet_id fragment_id now =
    elim (Option-cases (find (matches channel packet_id fragment_id) r.pending)) [
      | inl e ↦ rw (e, nack)
      | inr (p, e) ↦ rw (e, nack) (keys-change _ _ r.pending (key-nudge now))
    ]

keys-note_initial_send :
    (ticks : Option ℕ) (r : Retransmission) (h : Header) (sent : Bool) (now : ℕ)
    → keys (note_initial_send ticks r h sent now) ≡ keys r
unfolding note_initial_send note_sent
keys-note_initial_send ticks r h sent now =
    elim (Option-cases (find (matches h.channel_id h.packet_id h.fragment_id) r.pending)) [
      | inl e ↦ rw (e, note_initial_send)
      | inr (p, e) ↦ rw (e, note_initial_send) (keys-change _ _ r.pending (λ q. refl))
    ]

keys-activate :
    (r : Retransmission) (channel first count : ℕ) → keys (activate r channel first count) ≡ keys r
unfolding activate
keys-activate r channel first count = keys-map _ r.pending (λ q. ground arith)

-- A report keeps every retained packet.
keys-apply : (r : Retransmission) (c : Call) → IsReport c → keys (apply r c) ≡ keys r
unfolding apply nack_all_through nack_before
keys-apply r (tracks allocated packet now) h = absurd h
keys-apply r (activates channel first count) h = keys-activate r channel first count
keys-apply r (cancels k) h = absurd h
keys-apply r (acknowledges channel packet_id fragment_id now) h = absurd h
keys-apply r (acknowledges_through channel packet_id now) h = absurd h
keys-apply r (nacks channel packet_id fragment_id now) h =
    keys-nack r channel packet_id fragment_id now
keys-apply r (nacks_all_through channel packet_id now) h = keys-nudge_all _ now r.pending
keys-apply r (nacks_before channel id below cutoff now) h = keys-nudge_all _ now r.pending
keys-apply r (notes ticks k sent now) h = keys-note_initial_send ticks r k sent now

keys-apply_all :
    (r : Retransmission) (cs : List Call) → All IsReport cs → keys (apply_all r cs) ≡ keys r
unfolding apply_all
keys-apply_all r [] h = refl
keys-apply_all r (c ∷ cs) h = keys-apply_all (apply r c) cs h.1 ∙ keys-apply r c h.0

keys-finish_attempt :
    (now : ℕ) (a : Attempt) (t : Turn) (r : Retransmission)
    → keys (finish_attempt now a t r) ≡ keys r
unfolding finish_attempt note_attempt
keys-finish_attempt now a t r = elim (Option-cases (object r a.target)) [
  | inl e ↦ rw (e, finish_attempt)
  | inr (p, e) ↦ rw (e, finish_attempt) (linked p.tracked)
]
  where
    linked :
        (b : Bool)
        → map key (
            if b then change (has_address a.target) (note_attempt now a t) r.pending else r.pending)
          ≡ map key r.pending
    linked true = keys-change _ _ r.pending (λ q. refl)
    linked false = refl

-- The calls of other threads around an attempt only report.
abbrev pub IsQuiet : Turn → Type 0
IsQuiet t = All IsReport t.before × All IsReport t.during

keys-attempt :
    (now : ℕ) (a : Attempt) (t : Turn) (s : Scan)
    → IsQuiet t
    → keys (attempt now a t s).state ≡ keys s.state
unfolding attempt
keys-attempt now a t s h =
    let b = keys-apply_all s.state t.before h.0 in
    let d = keys-apply_all (apply_all s.state t.before) t.during h.1 in
    elim (Bool-cases (eligible (apply_all s.state t.before) s.failed a)) [
      | inl go ↦ rw go (keys-finish_attempt now a t _ ∙ d ∙ b)
      | inr skip ↦ rw skip b
    ]

keys-attempts :
    (now : ℕ) (list : List Attempt) (turns : ℕ → Turn) (i : ℕ) (s : Scan)
    → ((j : ℕ) → IsQuiet (turns j))
    → keys (attempts now list turns i s).state ≡ keys s.state
unfolding attempts
keys-attempts now [] turns i s h = refl
keys-attempts now (a ∷ rest) turns i s h =
    keys-attempts now rest turns (i + 1) _ h ∙ keys-attempt now a (turns i) s (h i)

-- A scan gives up no packet: whatever the socket answers, and whatever reports arrive meanwhile,
-- the retained packets are the same objects in the same order.
pub keys-process :
    (allocated : Bool) (r : Retransmission) (now : ℕ) (ticks : Option ℕ) (delay : ℕ)
    (channel : Option ℕ) (turns : ℕ → Turn)
    → ((j : ℕ) → IsQuiet (turns j))
    → keys (process allocated r now ticks delay channel turns).state ≡ keys r
unfolding process
keys-process true r now ticks delay channel turns h = keys-attempts now _ turns 0 _ h
keys-process false r now ticks delay channel turns h = refl
