-- ===== src/Retransmission/Handed.antt =====
-- src/session/retransmission.c: which packets a scan hands to the socket, and as what.
use ihslib.Common.{
  ap, subst, none, some, sub32, add32, ◌^◌, ◌≤◌, ==_iff, select-append, ℕ, ◌+◌, ◌≡◌, ◌≢◌, refl, sym,
  ◌∙◌, append-nil, append_assoc, map, select, ◌⊎◌, Bool, true, false, Option, List, [], ◌∷◌, ◌++◌,
  if◌then◌else◌, arith, inl, inr, Bool-cases,
}
use mathlib.Core.List.{reverse, reverse-cons}
use ihslib.Packet.Header.{Packet, type_reliable, type_reliable_frag}
use ihslib.Retransmission.State.{Pending, Retransmission}
use ihslib.Retransmission.Scan.{
  Attempt, Turn, Scan, Sending, eligible, attempt, attempts, process, apply_all, make_attempt,
  pending_due, is_reliable_type,
}

-- The log of a scan is the snapshot less what was skipped, in the snapshot's order.
abbrev Sub : List Sending → List Attempt → Type 0
Sub [] list = Unit
Sub (x ∷ xs) [] = ⊥
Sub (x ∷ xs) (a ∷ list) = ((x.packet ≡ a.packet) × Sub xs list) ⊎ Sub (x ∷ xs) list

abbrev log_of : ℕ → List Attempt → (ℕ → Turn) → ℕ → Scan → List Sending
log_of now list turns i s = (attempts now list turns i s).log

Sub-cons : (a : Attempt) (xs : List Sending) (list : List Attempt) → Sub xs list → Sub xs (a ∷ list)
Sub-cons a [] list h = tt
Sub-cons a (x ∷ xs) list h = inr h

log-attempts :
    (now : ℕ) (list : List Attempt) (turns : ℕ → Turn) (i : ℕ) (s : Scan)
    → (xs : List Sending) × (log_of now list turns i s ≡ s.log ++ xs) × Sub xs list
unfolding attempts attempt
log-attempts now [] turns i s = ([], sym (append-nil s.log), tt)
log-attempts now (a ∷ rest) turns i s =
    elim (Bool-cases (eligible (apply_all s.state (turns i).before) s.failed a)) [
      | inl go ↦
          let (xs, e, sub) = log-attempts now rest turns (i + 1) (attempt now a (turns i) s) in
          (
            record { packet = a.packet; sent = (turns i).sent } ∷ xs,
            e ∙ logged go xs,
            inl (refl, sub),
          )
      | inr skip ↦
          let (xs, e, sub) = log-attempts now rest turns (i + 1) (attempt now a (turns i) s) in
          (xs, e ∙ skipped skip xs, Sub-cons a xs rest sub)
    ]
  where
    this : Sending
    this = record { packet = a.packet; sent = (turns i).sent }

    logged :
        eligible (apply_all s.state (turns i).before) s.failed a ≡ true
        → (xs : List Sending) → (attempt now a (turns i) s).log ++ xs ≡ s.log ++ this ∷ xs
    logged go xs = rw (go, attempt) (append_assoc s.log (this ∷ []) xs)

    skipped :
        eligible (apply_all s.state (turns i).before) s.failed a ≡ false
        → (xs : List Sending) → (attempt now a (turns i) s).log ++ xs ≡ s.log ++ xs
    skipped skip xs = rw (skip, attempt)

-- A retransmission is due: by the millisecond clock, or, where the caller gives the stream's time and
-- the type is a reliable one, when its loss was reported, when it was never taken by the socket or not
-- stamped, or when its stamp is longer ago than the delay.
abbrev pub IsLate : ℕ → Option ℕ → ℕ → Pending → Type 0
IsLate now none delay p = p.next_retry_ms ≤ now
IsLate now (some t) delay p =
    ((p.packet.header.type ≢ type_reliable)
      × (p.packet.header.type ≢ type_reliable_frag)
      × (p.next_retry_ms ≤ now))
    ⊎ (p.nack_pending ≡ true)
    ⊎ (p.next_wire_count ≡ 0)
    ⊎ (p.last_send_timestamp ≡ 0)
    ⊎ (2 ^ 31 ≤ sub32 (add32 p.last_send_timestamp delay) t)

-- A packet is due: of a channel that the scan covers, admitted, and new or late.
abbrev pub IsDue : ℕ → Option ℕ → ℕ → Option ℕ → Pending → Type 0
IsDue now ticks delay channel p =
    ((channel ≡ none) ⊎ (channel ≡ some p.packet.header.channel_id))
    × (p.ready ≡ true)
    × ((p.initial_sent ≡ false) ⊎ IsLate now ticks delay p)

-- A sent packet is that of its object, but for the retransmission count in the header.
pub record IsCopy (x : Packet) (p : Pending) : Type 0 where
  pub body : x.body ≡ p.packet.body
  pub crc : x.crc ≡ p.packet.crc
  pub header : x.header ≡ record p.packet.header { retransmit_count = p.next_wire_count }

-- A log hands over packets of due objects, in the order of the list.
abbrev pub Hands : (Pending → Type 0) → List Sending → List Pending → Type 0
Hands P [] ps = Unit
Hands P (x ∷ xs) [] = ⊥
Hands P (x ∷ xs) (p ∷ ps) = (P p × IsCopy x.packet p × Hands P xs ps) ⊎ Hands P (x ∷ xs) ps

late_lem :
    (now : ℕ) (ticks : Option ℕ) (delay : ℕ) (p : Pending)
    → pending_due now ticks delay none p ≡ true
    → (p.initial_sent ≡ false) ⊎ IsLate now ticks delay p
unfolding pending_due is_reliable_type
late_lem now none delay p h = elim (Bool-cases p.initial_sent) [
  | inl again ↦ inr (ground arith)
  | inr first ↦ inl first
]
late_lem now (some t) delay p h = elim (Bool-cases p.initial_sent) [
  | inl again ↦ inr (ground arith)
  | inr first ↦ inl first
]

covered_lem :
    (now : ℕ) (ticks : Option ℕ) (delay : ℕ) (channel : Option ℕ) (p : Pending)
    → pending_due now ticks delay channel p ≡ true
    → ((channel ≡ none) ⊎ (channel ≡ some p.packet.header.channel_id))
      × (p.ready ≡ true)
      × (pending_due now ticks delay none p ≡ true)
unfolding pending_due
covered_lem now ticks delay none p h = (inl refl, ground arith, h)
covered_lem now ticks delay (some c) p h =
    let same : c ≡ p.packet.header.channel_id =
      ground (arith, ==_iff p.packet.header.channel_id c) in
    (inr (ap some same), ground arith, ground arith)

due_lem :
    (now : ℕ) (ticks : Option ℕ) (delay : ℕ) (channel : Option ℕ) (p : Pending)
    → pending_due now ticks delay channel p ≡ true
    → IsDue now ticks delay channel p
due_lem now ticks delay channel p h =
    let v = covered_lem now ticks delay channel p h in (v.0, v.1, late_lem now ticks delay p v.2)

copy_lem : (x : Packet) (p : Pending) → x ≡ (make_attempt p).packet → IsCopy x p
unfolding make_attempt
copy_lem x p e = record {
  body = ap (λ (k : Packet). k.body) e;
  crc = ap (λ (k : Packet). k.crc) e;
  header = ap (λ (k : Packet). k.header) e;
}

map-append :
    (ps qs : List Pending)
    → map make_attempt (ps ++ qs) ≡ map make_attempt ps ++ map make_attempt qs
map-append [] qs = refl
map-append (p ∷ ps) qs = ap (λ l. make_attempt p ∷ l) (map-append ps qs)

module _ (now : ℕ) (ticks : Option ℕ) (delay : ℕ) (channel : Option ℕ) where
  due : Pending → Bool
  due = pending_due now ticks delay channel

  Hands-select :
      (ps : List Pending) (xs : List Sending)
      → Sub xs (map make_attempt (select due ps))
      → Hands (IsDue now ticks delay channel) xs ps
  unfolding due
  Hands-select ps [] h = tt
  Hands-select [] (x ∷ xs) h = h
  Hands-select (p ∷ ps) (x ∷ xs) h = elim (Bool-cases (due p)) [
    | inl yes_due ↦ elim (rw yes_due at h) [
      | inl (e, rest) ↦ inl (
        due_lem now ticks delay channel p yes_due,
        copy_lem x.packet p e,
        Hands-select ps xs rest,
      )
      | inr rest ↦ inr (Hands-select ps (x ∷ xs) rest)
    ]
    | inr not_due ↦ inr (Hands-select ps (x ∷ xs) (rw not_due at h))
  ]

  select-cons :
      (p : Pending) (ps : List Pending) (b : Bool)
      → due p ≡ b
      → select due (p ∷ ps) ≡ (if b then p ∷ select due ps else select due ps)
  select-cons p ps b e = rw e refl

  reverse-due :
      (ps : List Pending)
      → reverse (map make_attempt (select due ps)) ≡ map make_attempt (select due (reverse ps))
  reverse-due [] = refl
  reverse-due (p ∷ ps) =
      first (due p) refl (reverse-due ps)
      ∙ sym (
          ap (λ l. map make_attempt (select due l)) (reverse-cons p ps)
          ∙ ap (map make_attempt) (select-append due (reverse ps) (p ∷ []))
          ∙ map-append (select due (reverse ps)) (select due (p ∷ [])))
    where
      first :
          (b : Bool)
          → due p ≡ b
          → reverse (map make_attempt (select due ps)) ≡ map make_attempt (select due (reverse ps))
          → reverse (map make_attempt (select due (p ∷ ps)))
            ≡ map make_attempt (select due (reverse ps)) ++ map make_attempt (select due (p ∷ []))
      first true e ih =
          ap (λ l. reverse (map make_attempt l)) (select-cons p ps true e)
          ∙ reverse-cons (make_attempt p) (map make_attempt (select due ps))
          ∙ ap (λ l. l ++ make_attempt p ∷ []) ih
          ∙ ap (λ l. map make_attempt (select due (reverse ps)) ++ map make_attempt l)
              (sym (select-cons p [] true e))
      first false e ih =
          ap (λ l. reverse (map make_attempt l)) (select-cons p ps false e)
          ∙ ih
          ∙ sym (append-nil (map make_attempt (select due (reverse ps))))
          ∙ ap (λ l. map make_attempt (select due (reverse ps)) ++ map make_attempt l)
              (sym (select-cons p [] false e))

  -- What a scan hands over is, from the oldest registration on, the packets of objects that were due
  -- in the list at its start, each as it was then and with the retransmission count that its object
  -- then had.
  pub log-process :
      (r : Retransmission) (turns : ℕ → Turn)
      → Hands
          (IsDue now ticks delay channel)
          (process true r now ticks delay channel turns).log
          (reverse r.pending)
  unfolding process due
  log-process r turns =
      let all = reverse (map make_attempt (select due r.pending)) in
      let (xs, e, sub) =
        log-attempts now all turns 0 (record { state = r; failed = λ c. false; log = [] }) in
      rw e (Hands-select (reverse r.pending) xs (subst (Sub xs) (reverse-due r.pending) sub))
