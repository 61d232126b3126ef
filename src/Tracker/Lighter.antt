-- ===== src/Tracker/Lighter.antt =====
-- src/session/frame_tracker.c: the calls that leave a frame no more unsettled tickets than it had.
use ihslib.Common.{
  ℕ, ◌-◌, ◌≤◌, ◌≡◌, refl, ap, ◌∙◌, subst, Bool, true, false, not, ◌||◌, none, some, List, ◌==◌,
  if◌then◌else◌, arith, Bool-cases, Option-cases, inl, inr,
}
use ihslib.Tracker.State.{
  Outcome, TrackedFrame, ready, Ticket, Tracker, retain_ref, is_claimed, release_endpoint,
}
use ihslib.Tracker.Ticket.{
  ticket, on_ticket, retain, release, claim, publish, complete, abandon_input, decode_stage,
  upload_stage, video_decode_stage, set_size, set_video_timestamp, is_refused, decode_times,
  upload_times,
}
use ihslib.Tracker.Epoch.{
  close_ticket, close_records, open_epoch, close_epoch, close_tracker, copy_ticket, copy_stats,
}
use ihslib.Tracker.Reports.{
  weight, total, total-change, total-map, total-settle_records, close_ticket-weight,
  copy_ticket-weight,
}

some-eq : {x y : Tracker} → some x ≡ some y → x ≡ y
some-eq h = cc

none-ne : {x : Tracker} → none ≡ some x → ⊥
none-ne h = cc

module _ (k : ℕ) where
  -- A tracker that has no more tickets of the frame.
  abbrev pub Lighter : Tracker → Tracker → Type 0
  Lighter t u = (u.serial ≡ t.serial) × (total k u.records ≤ total k t.records)

  pub Lighter-refl : (t : Tracker) → Lighter t t
  Lighter-refl t = (refl, omega arith)

  pub Lighter-if {ℓ} :
      {A : Type ℓ} (f : A → Tracker) (b : Bool) (t : Tracker) (x y : A)
      → Lighter t (f x)
      → Lighter t (f y)
      → Lighter t (f (if b then x else y))
  Lighter-if f true t x y h l = h
  Lighter-if f false t x y h l = l

  pub on_ticket-Lighter :
      (f : Ticket → Ticket) (j : ℕ) (t : Tracker)
      → ((r : Ticket) → weight k (f r) ≤ weight k r)
      → Lighter t (on_ticket f j t)
  unfolding on_ticket
  on_ticket-Lighter f j t h =
      (refl, omega (arith, total-change k 0 f t.records j (λ r. omega (arith, h r))))

  -- The fields that the weight reads.
  pub weight-alike :
      (r q : Ticket)
      → q.occupied ≡ r.occupied
      → q.settled ≡ r.settled
      → q.frame.identity ≡ r.frame.identity
      → weight k q ≤ weight k r
  unfolding weight
  weight-alike r q o s e = ground (arith, o, s, ap (λ i. i.receive_serial) e)

  weight-settled : (r q : Ticket) → q.settled ≡ true → weight k q ≤ weight k r
  unfolding weight
  weight-settled r q s = ground (arith, s)

  pub retain-Lighter : (j : ℕ) (t : Tracker) → Lighter t (retain j t).1
  unfolding retain release_endpoint
  retain-Lighter j t = elim (Option-cases (retain_ref t.refs)) [
    | inl p ↦ rw (p, retain) (Lighter-refl t)
    | inr (n, p) ↦ elim (Option-cases (retain_ref (ticket t j).refs)) [
      | inl q ↦ rw (p, q, retain) (Lighter-refl t)
      | inr (m, q) ↦
          rw (p, q, retain)
            (on_ticket-Lighter (λ r. record r { refs = m }) j (record t { refs = n })
              (λ r. weight-alike r _ refl refl refl))
    ]
  ]

  pub release-Lighter : (j : ℕ) (t u : Tracker) → release j t ≡ some u → Lighter t u
  unfolding release release_endpoint
  release-Lighter j t u e = elim (Bool-cases ((ticket t j).refs == 0)) [
    | inl z ↦ absurd (none-ne (rw z at e))
    | inr z ↦
        subst (λ v. Lighter t v) (some-eq (rw z at e))
          (on_ticket-Lighter (λ r. record r { refs = r.refs - 1 }) j t
            (λ r. weight-alike r _ refl refl refl))
  ]

  pub claim-Lighter : (j : ℕ) (t : Tracker) → Lighter t (claim j t).1
  unfolding claim
  claim-Lighter j t =
      Lighter-if {A = Bool × Tracker} (λ p. p.1) _ t _ _
        (on_ticket-Lighter _ j t (λ r. weight-alike r _ refl refl refl)) (Lighter-refl t)

  pub publish-Lighter :
      (j : ℕ) (outcome : Outcome) (now : ℕ) (t u : Tracker)
      → publish j outcome now t ≡ some u
      → Lighter t u
  unfolding publish on_ticket
  publish-Lighter j outcome now t u e = elim (Bool-cases (is_claimed (ticket t j).publication)) [
    | inl c ↦
        subst (λ v. Lighter t v) (some-eq (rw c at e))
          (on_ticket-Lighter
            (λ r. record r {
              payload = outcome;
              completion_timestamp = now;
              completion_serial = t.completions;
              publication = ready;
            })
            j t (λ r. weight-alike r _ refl refl refl))
    | inr c ↦ absurd (none-ne (rw c at e))
  ]

  pub complete-Lighter :
      (j : ℕ) (outcome : Outcome) (now : ℕ) (t : Tracker) (p : Bool × Tracker)
      → complete j outcome now t ≡ some p
      → Lighter t p.1
  unfolding complete
  complete-Lighter j outcome now t p e =
      elim (Bool-cases (is_refused outcome || not (claim j t).0)) [
        | inl no_claim ↦
            subst (λ (q : Bool × Tracker). Lighter t q.1) (pair-eq (rw no_claim at e))
              (Lighter-refl t)
        | inr won ↦ elim (Option-cases (publish j outcome now (claim j t).1)) [
          | inl q ↦ absurd (pair-ne (rw (won, q) at e))
          | inr (u, q) ↦
              subst (λ (q : Bool × Tracker). Lighter t q.1) (pair-eq (rw (won, q) at e))
                (both u (claim-Lighter j t) (publish-Lighter j outcome now (claim j t).1 u q))
        ]
      ]
    where
      pair-eq : {x : Bool × Tracker} → some x ≡ some p → x ≡ p
      pair-eq q = cc

      pair-ne : none ≡ some p → ⊥
      pair-ne q = cc

      both : (u : Tracker) → Lighter t (claim j t).1 → Lighter (claim j t).1 u → Lighter t u
      both u f g = (g.0 ∙ f.0, omega (arith, f.1, g.1))

  pub abandon_input-Lighter : (j : ℕ) (t : Tracker) → Lighter t (abandon_input j t).1
  unfolding abandon_input
  abandon_input-Lighter j t =
      Lighter-if {A = Bool × Tracker} (λ p. p.1) _ t _ _
        (on_ticket-Lighter _ j t (λ r. weight-settled r _ refl)) (Lighter-refl t)

  decode_times-identity :
      (end : Bool) (us : ℕ) (f : TrackedFrame) → (decode_times end us f).identity ≡ f.identity
  unfolding decode_times
  decode_times-identity true us f = refl
  decode_times-identity false us f = ground arith

  upload_times-identity :
      (end : Bool) (us : ℕ) (f : TrackedFrame) → (upload_times end us f).identity ≡ f.identity
  unfolding upload_times
  upload_times-identity true us f = refl
  upload_times-identity false us f = refl

  pub stages-Lighter :
      (j : ℕ) (end : Bool) (us : ℕ) (t : Tracker)
      → Lighter t (decode_stage j end us t).1
        × Lighter t (upload_stage j end us t).1
        × Lighter t (video_decode_stage j end us t).1
  unfolding decode_stage upload_stage video_decode_stage
  stages-Lighter j end us t = (
    Lighter-if {A = Bool × Tracker} (λ p. p.1) _ t _ _
        (on_ticket-Lighter _ j t
          (λ r. weight-alike r _ refl refl (decode_times-identity end us r.frame)))
        (Lighter-refl t),
    Lighter-if {A = Bool × Tracker} (λ p. p.1) _ t _ _
        (on_ticket-Lighter _ j t
          (λ r. weight-alike r _ refl refl (upload_times-identity end us r.frame)))
        (Lighter-refl t),
    Lighter-if {A = Bool × Tracker} (λ p. p.1) _ t _ _
        (on_ticket-Lighter _ j t
          (λ r. weight-alike r _ refl refl (decode_times-identity end us r.frame)))
        (Lighter-refl t),
  )

  pub set_size-Lighter : (j bytes : ℕ) (t : Tracker) → Lighter t (set_size j bytes t)
  unfolding set_size
  set_size-Lighter j bytes t =
      Lighter-if {A = Tracker} (λ u. u) _ t _ _ (Lighter-refl t)
        (on_ticket-Lighter _ j t (λ r. weight-alike r _ refl refl refl))

  pub set_video_timestamp-Lighter :
      (j timestamp : ℕ) (t : Tracker) → Lighter t (set_video_timestamp j timestamp t)
  unfolding set_video_timestamp
  set_video_timestamp-Lighter j timestamp t =
      Lighter-if {A = Tracker} (λ u. u) _ t _ _
        (on_ticket-Lighter _ j t (λ r. weight-alike r _ refl refl refl)) (Lighter-refl t)

  pub close_records-Lighter : (t : Tracker) → Lighter t (close_records t)
  unfolding close_records
  close_records-Lighter t = (refl, total-map k close_ticket t.records (close_ticket-weight k))

  pub epochs-Lighter :
      (epoch : ℕ) (t : Tracker)
      → Lighter t (open_epoch epoch t).1
        × Lighter t (close_epoch epoch t)
        × Lighter t (close_tracker t)
  unfolding open_epoch close_epoch close_tracker release_endpoint
  epochs-Lighter epoch t = (
    Lighter-if {A = Bool × Tracker} (λ p. p.1) _ t _ _ (close_records-Lighter t) (Lighter-refl t),
    Lighter-if {A = Tracker} (λ u. u) _ t _ _ (close_records-Lighter t) (Lighter-refl t),
    close_records-Lighter t,
  )

  pub copy_stats-Lighter : (capacity : ℕ) (t : Tracker) → Lighter t (copy_stats capacity t).1
  unfolding copy_stats
  copy_stats-Lighter capacity t =
      Lighter-if {A = List TrackedFrame × Tracker} (λ p. p.1) _ t _ _
        (
          refl,
          total-settle_records k (copy_ticket t.epoch) t.records capacity
              (copy_ticket-weight k t.epoch),
        )
        (Lighter-refl t)
