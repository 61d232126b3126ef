-- ===== src/Tracker/Steps.antt =====
-- src/session/frame_tracker.c: what a call on one ticket leaves of a ticket that is held.
use ihslib.Common.{
  ℕ, suc, ◌-◌, ◌≡◌, refl, subst, Bool, true, false, not, ◌&&◌, ◌||◌, none, some, ◌==◌, ==_iff,
  if◌then◌else◌, arith, Bool-cases, Option-cases, inl, inr,
}
use ihslib.Tracker.State.{
  Outcome, TrackedFrame, closed, Ticket, Tracker, get_ticket, retain_ref, is_opened, is_claimed,
  release_endpoint,
}
use ihslib.Tracker.Ticket.{
  ticket, on_ticket, retain, release, claim, publish, complete, abandon_input, decode_stage,
  upload_stage, video_decode_stage, set_size, set_video_timestamp, is_refused, is_current,
  decode_times, upload_times,
}
use ihslib.Tracker.Held.{
  Keeps, Keeps-same, Keeps-trans, Keeps-open, Keeps-alike, Keeps-undone, Keeps-change,
  is_ready-opened, is_ready-claimed,
}
use ihslib.Tracker.Walks.{Keeps-if, After}

retain_ref-eq : (n k : ℕ) → retain_ref n ≡ some k → k ≡ suc n
unfolding retain_ref
retain_ref-eq n k h = ground arith

module _ (i : ℕ) where
  on_ticket-Keeps :
      (n : ℕ) (f : Ticket → Ticket) (j : ℕ) (t : Tracker)
      → (i ≡ j → Keeps n (ticket t j) (f (ticket t j)))
      → After i n t (on_ticket f j t)
  unfolding ticket on_ticket
  on_ticket-Keeps n f j t h = Keeps-change n f t.records i j h

  -- The outer fields of a tracker say nothing of its tickets.
  pub retain-Keeps : (j : ℕ) (t : Tracker) → After i 0 t (retain j t).1
  unfolding retain ticket on_ticket release_endpoint
  retain-Keeps j t = elim (Option-cases (retain_ref t.refs)) [
    | inl p ↦ rw (p, retain) (Keeps-same 0 (ticket t i))
    | inr (n, p) ↦ elim (Option-cases (retain_ref (ticket t j).refs)) [
      | inl q ↦ rw (p, q, retain) (Keeps-same 0 (ticket t i))
      | inr (k, q) ↦
          rw (p, q, retain)
            (Keeps-change 0 (λ r. record r { refs = k }) t.records i j
              (λ _.
                Keeps-open 0 (get_ticket t.records j) _ refl refl refl
                  (omega (arith, retain_ref-eq (ticket t j).refs k q))))
    ]
  ]

  pub release-Keeps :
      (j : ℕ) (t t' : Tracker) → release j t ≡ some t' → After i (if j == i then 1 else 0) t t'
  unfolding release ticket on_ticket release_endpoint
  release-Keeps j t t' e = elim (Bool-cases ((ticket t j).refs == 0)) [
    | inl z ↦ absurd (none-ne (rw z at e))
    | inr z ↦
        subst (λ u. After i (if j == i then 1 else 0) t u) (some-eq (rw z at e))
          (Keeps-change (if j == i then 1 else 0) (λ r. record r { refs = r.refs - 1 }) t.records i
            j
            (λ same.
              Keeps-open (if j == i then 1 else 0) (get_ticket t.records j) _ refl refl refl
                (ground (arith, same, ==_iff j i))))
  ]
    where
      some-eq : {x : Tracker} → some x ≡ some t' → x ≡ t'
      some-eq p = cc

      none-ne : none ≡ some t' → ⊥
      none-ne p = cc

  pub claim-Keeps : (j : ℕ) (t : Tracker) → After i 0 t (claim j t).1
  unfolding claim is_opened
  claim-Keeps j t =
      Keeps-if {A = Bool × Tracker} (λ p. ticket p.1 i) (is_opened (ticket t j).publication)
        (ticket t i) _ _
        (λ o. on_ticket-Keeps 0 _ j t (λ _.
          Keeps-undone (ticket t j) _ refl refl (is_ready-opened (ticket t j).publication o) refl))
        (λ _. Keeps-same 0 (ticket t i))

  pub publish-Keeps :
      (j : ℕ) (outcome : Outcome) (now : ℕ) (t t' : Tracker)
      → publish j outcome now t ≡ some t'
      → After i 0 t t'
  unfolding publish ticket on_ticket is_opened
  publish-Keeps j outcome now t t' e = elim (Bool-cases (is_claimed (ticket t j).publication)) [
    | inl c ↦
        subst (λ u. After i 0 t u) (some-eq (rw c at e))
          (Keeps-change 0 _ t.records i j (λ _.
            Keeps-undone (get_ticket t.records j) _ refl refl
              (is_ready-claimed (ticket t j).publication c) refl))
    | inr c ↦ absurd (none-ne (rw c at e))
  ]
    where
      some-eq : {x : Tracker} → some x ≡ some t' → x ≡ t'
      some-eq p = cc

      none-ne : none ≡ some t' → ⊥
      none-ne p = cc

  pub complete-Keeps :
      (j : ℕ) (outcome : Outcome) (now : ℕ) (t : Tracker) (p : Bool × Tracker)
      → complete j outcome now t ≡ some p
      → After i 0 t p.1
  unfolding complete
  complete-Keeps j outcome now t p e = elim (Bool-cases (is_refused outcome || not (claim j t).0)) [
    | inl no_claim ↦
        subst (λ q. After i 0 t q.1) (some-eq (rw no_claim at e)) (Keeps-same 0 (ticket t i))
    | inr won ↦ elim (Option-cases (publish j outcome now (claim j t).1)) [
      | inl q ↦ absurd (none-ne (rw (won, q) at e))
      | inr (u, q) ↦
          subst (λ q. After i 0 t q.1) (some-eq (rw (won, q) at e))
            (Keeps-trans 0 0 (ticket t i) (ticket (claim j t).1 i) (ticket u i) (claim-Keeps j t)
              (publish-Keeps j outcome now (claim j t).1 u q))
    ]
  ]
    where
      some-eq : {x : Bool × Tracker} → some x ≡ some p → x ≡ p
      some-eq q = cc

      none-ne : none ≡ some p → ⊥
      none-ne q = cc

  -- A change of a ticket under a test that leaves what holders rely on.
  change-Keeps :
      (b : Bool) (f : Ticket → Ticket) (j : ℕ) (t : Tracker)
      → ((r : Ticket) → Keeps 0 r (f r))
      → After i 0 t (if◌then◌else◌ {A = Bool × Tracker} b (true, on_ticket f j t) (false, t)).1
  change-Keeps true f j t h = on_ticket-Keeps 0 f j t (λ _. h (ticket t j))
  change-Keeps false f j t h = Keeps-same 0 (ticket t i)

  pub abandon_input-Keeps : (j : ℕ) (t : Tracker) → After i 0 t (abandon_input j t).1
  unfolding abandon_input is_opened
  abandon_input-Keeps j t =
      let r = ticket t j in
      let test =
        r.input
        && (not r.settled
            && (not r.video_decode_active
                && (not r.frame.has_decode_begin && is_opened r.publication))) in
      Keeps-if {A = Bool × Tracker} (λ p. ticket p.1 i) test (ticket t i) _ _
        (λ o.
          on_ticket-Keeps 0 (λ q. record q { publication = closed; settled = true }) j t
            (λ _.
              Keeps-undone r _ refl refl (is_ready-opened r.publication (ground (arith, o))) refl))
        (λ _. Keeps-same 0 (ticket t i))

  decode_times-identity :
      (end : Bool) (us : ℕ) (f : TrackedFrame) → (decode_times end us f).identity ≡ f.identity
  unfolding decode_times
  decode_times-identity true us f = refl
  decode_times-identity false us f = ground arith

  upload_times-identity :
      (end : Bool) (us : ℕ) (f : TrackedFrame) → (upload_times end us f).identity ≡ f.identity
  unfolding upload_times
  upload_times-identity true us f = refl
  upload_times-identity false us f = refl

  pub stages-Keeps :
      (j : ℕ) (end : Bool) (us : ℕ) (t : Tracker)
      → After i 0 t (decode_stage j end us t).1
        × After i 0 t (upload_stage j end us t).1
        × After i 0 t (video_decode_stage j end us t).1
  unfolding decode_stage upload_stage video_decode_stage
  stages-Keeps j end us t = (
    change-Keeps (is_current j t) (λ r. record r { frame = decode_times end us r.frame }) j t
        (λ r. Keeps-alike r _ (decode_times-identity end us r.frame) refl refl refl),
    change-Keeps (is_current j t) (λ r. record r { frame = upload_times end us r.frame }) j t
        (λ r. Keeps-alike r _ (upload_times-identity end us r.frame) refl refl refl),
    change-Keeps _ _ j t
        (λ r. Keeps-alike r _ (decode_times-identity end us r.frame) refl refl refl),
  )

  pub set_size-Keeps : (j bytes : ℕ) (t : Tracker) → After i 0 t (set_size j bytes t)
  unfolding set_size
  set_size-Keeps j bytes t =
      Keeps-if {A = Tracker} (λ u. ticket u i) (ticket t j).settled (ticket t i) _ _
        (λ _. Keeps-same 0 (ticket t i))
        (λ _. on_ticket-Keeps 0 _ j t (λ _. Keeps-alike (ticket t j) _ refl refl refl refl))

  pub set_video_timestamp-Keeps :
      (j timestamp : ℕ) (t : Tracker) → After i 0 t (set_video_timestamp j timestamp t)
  unfolding set_video_timestamp
  set_video_timestamp-Keeps j timestamp t =
      Keeps-if {A = Tracker} (λ u. ticket u i) (is_current j t) (ticket t i) _ _
        (λ _. on_ticket-Keeps 0 _ j t (λ _. Keeps-alike (ticket t j) _ refl refl refl refl))
        (λ _. Keeps-same 0 (ticket t i))
