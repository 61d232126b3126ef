-- ===== src/Tracker/Accounts.antt =====
-- src/session/frame_tracker.c: what a call adds to the tickets and reports of a frame.
use ihslib.Common.{
  ℕ, suc, ◌+◌, ◌-◌, ◌^◌, ◌≤◌, ◌≡◌, refl, subst, Bool, true, false, not, ◌&&◌, ◌||◌, Option, none,
  some, List, ◌++◌, length, replicate, ltb, leb, ◌==◌, ==_iff, if◌then◌else◌, arith, Bool-cases,
  Option-cases, inl, inr,
}
use ihslib.Buffer.Laws.{>>=-eq-some}
use ihslib.Tracker.State.{
  Receive, Identity, TrackedFrame, Ticket, Tracker, blank_ticket, new_block, tracker_capacity,
  retain_ref, is_opened, release_endpoint,
}
use ihslib.Tracker.Ticket.{ticket, on_ticket, release, publish, complete}
use ihslib.Tracker.Epoch.{settle_ticket, settle}
use ihslib.Tracker.Begin.{
  Found, own, places, Sequence, sequence, refused, find_place, join, join_receive, occupy,
  remember_sequence, start, start_free, begin_found, begin_sequence, begin_frame, is_own,
  wire_sequence, is_seen,
}
use ihslib.Tracker.Calls.{
  Call, retains, releases, claims, publishes, completes, abandons, decodes, uploads, submits, sizes,
  stamps, begins, opens, closes, stops, settles, copies, quiet, step,
}
use ihslib.Tracker.Lighter.{
  Lighter, Lighter-refl, on_ticket-Lighter, weight-alike, retain-Lighter, release-Lighter,
  claim-Lighter, publish-Lighter, complete-Lighter, abandon_input-Lighter, stages-Lighter,
  set_size-Lighter, set_video_timestamp-Lighter, epochs-Lighter, copy_stats-Lighter,
}
use ihslib.Tracker.Reports.{
  count, weight, total, total-change, total-append, count-settle_records, settle_ticket-weight,
}

pub step-eq : {x y : List TrackedFrame × Tracker} → some x ≡ some y → x ≡ y
step-eq h = cc

-- One more unsettled ticket for a frame whose number was given out between two serials.
abbrev fresh : ℕ → ℕ → ℕ → ℕ
fresh k before after = if ltb before k && leb k after then 1 else 0

-- What a call may do to the tickets and reports of the frame `k`.
pub record Accounts (k : ℕ) (t : Tracker) (s : List TrackedFrame × Tracker) : Type 0 where
  pub serial_le : t.serial ≤ s.1.serial
  pub bound : count k s.0 + total k s.1.records ≤ total k t.records + fresh k t.serial s.1.serial

module _ (k : ℕ) where
  quiet-Accounts : (t u : Tracker) → Lighter k t u → Accounts k t (quiet u)
  unfolding count
  quiet-Accounts t u h = record { serial_le = omega (arith, h.0); bound = omega (arith, h.1) }

  settle-Accounts :
      (now timeout capacity : ℕ) (t : Tracker) → Accounts k t (settle now timeout capacity t)
  unfolding settle
  settle-Accounts now timeout capacity t = record {
    serial_le = omega arith;
    bound = omega (
      arith,
      count-settle_records k (settle_ticket now timeout t.stats_tracking) t.records capacity
          (settle_ticket-weight k now timeout t.stats_tracking),
    );
  }

  join-Lighter : (j : ℕ) (receive : Receive) (t : Tracker) → Lighter k t (join j receive t).2
  unfolding join release_endpoint
  join-Lighter j receive t =
      elim (Bool-cases ((ticket t j).settled || not (is_opened (ticket t j).publication))) [
        | inl e ↦ rw e (Lighter-refl k t)
        | inr e ↦ elim (Option-cases (retain_ref t.refs)) [
          | inl p ↦ rw (e, p) (Lighter-refl k t)
          | inr (n, p) ↦ elim (Bool-cases ((ticket t j).refs == 2 ^ 32 - 1)) [
            | inl full ↦ rw (e, p, full) (Lighter-refl k t)
            | inr room ↦
                rw (e, p, room)
                  (on_ticket-Lighter k (λ q. join_receive receive (record q { refs = suc q.refs }))
                    j (record t { refs = n }) joined)
          ]
        ]
      ]
    where
      joined :
          (r : Ticket)
          → weight k (join_receive receive (record r { refs = suc r.refs })) ≤ weight k r
      joined r =
          unfold join_receive in
          elim (Bool-cases (leb r.frame.receive.last_receive_us receive.last_receive_us)) [
            | inl e ↦ rw e (weight-alike k r _ refl refl refl)
            | inr e ↦ rw e (weight-alike k r _ refl refl refl)
          ]

  remember_sequence-Accounts :
      (input : Bool) (seq : ℕ) (t u : Tracker)
      → Accounts k t (quiet u)
      → Accounts k t (quiet (remember_sequence input seq u))
  unfolding remember_sequence
  remember_sequence-Accounts true seq t u h = h
  remember_sequence-Accounts false seq t u h = record { serial_le = h.serial_le; bound = h.bound }

  occupy-weight :
      (input : Bool) (identity : Identity) (receive : Receive) (serial : ℕ) (r : Ticket)
      → identity.receive_serial ≡ suc serial
      → weight k (occupy input identity receive r) ≤ weight k r + fresh k serial (suc serial)
  unfolding occupy weight
  occupy-weight input identity receive serial r e =
      ground (arith, e, ==_iff identity.receive_serial k)

  -- A new ticket is the first of its frame.
  start-Accounts :
      (input : Bool) (epoch seq frame_id : ℕ) (receive : Receive) (j : ℕ) (t : Tracker)
      → Accounts k t (quiet (start input epoch seq frame_id receive j t).2)
  unfolding start on_ticket count
  start-Accounts input epoch seq frame_id receive j t = elim (Bool-cases (t.serial == 2 ^ 64 - 1)) [
    | inl e ↦ rw e (quiet-Accounts t t (Lighter-refl k t))
    | inr e ↦ elim (Option-cases (retain_ref t.refs)) [
      | inl p ↦ rw (e, p) (quiet-Accounts t t (Lighter-refl k t))
      | inr (n, p) ↦
          let identity : Identity = record {
            session_id = t.session_id;
            epoch = epoch;
            receive_serial = suc t.serial;
            slot_version = 0;
            wire_sequence = seq;
            frame_id = frame_id;
          } in
          rw (e, p)
            (remember_sequence-Accounts input seq t _ (record {
              serial_le = omega arith;
              bound = omega (
                arith,
                total-change k (fresh k t.serial (suc t.serial)) (occupy input identity receive)
                    t.records j (λ r. occupy-weight input identity receive t.serial r refl),
              );
            }))
    ]
  ]

  start_free-Accounts :
      (memory input : Bool) (epoch seq frame_id : ℕ) (receive : Receive) (free collected : Option ℕ)
      (t : Tracker)
      → Accounts k t (quiet (start_free memory input epoch seq frame_id receive free collected t).2)
  unfolding start_free new_block
  start_free-Accounts memory input epoch seq frame_id receive (some j) collected t =
      start-Accounts input epoch seq frame_id receive j t
  start_free-Accounts memory input epoch seq frame_id receive none (some j) t =
      start-Accounts input epoch seq frame_id receive j t
  start_free-Accounts memory input epoch seq frame_id receive none none t =
      elim (Bool-cases (ltb (2 ^ 64 - 1 - tracker_capacity) (length t.records))) [
        | inl e ↦ rw e (quiet-Accounts t t (Lighter-refl k t))
        | inr e ↦ elim (Bool-cases memory) [
          | inl m ↦
              let more = record t {
                records = t.records ++ replicate tracker_capacity blank_ticket;
              } in
              let a = start-Accounts input epoch seq frame_id receive (length t.records) more in
              rw (e, m)
                (record {
                  serial_le = a.serial_le;
                  bound = omega (arith, a.bound, total-append k t.records tracker_capacity);
                })
          | inr m ↦ rw (e, m) (quiet-Accounts t t (Lighter-refl k t))
        ]
      ]

  begin_frame-Accounts :
      (memory input : Bool) (epoch frame_id : ℕ) (receive : Receive) (t : Tracker)
      → Accounts k t (quiet (begin_frame memory input epoch frame_id receive t).2)
  unfolding begin_frame
  begin_frame-Accounts memory input epoch frame_id receive t =
      elim (Bool-cases (not t.accepting || not (epoch == t.epoch))) [
        | inl e ↦ rw e (quiet-Accounts t t (Lighter-refl k t))
        | inr e ↦ rw e (sequenced (wire_sequence input frame_id t))
      ]
    where
      found :
          (seq : ℕ) (f : Found)
          → Accounts k t (quiet (begin_found memory input epoch seq frame_id receive f t).2)
      found seq (own j) =
          unfold begin_found in quiet-Accounts t (join j receive t).2 (join-Lighter j receive t)
      found seq (places free collected) =
          unfold begin_found in
          elim (Bool-cases (is_seen input seq t)) [
            | inl e ↦ rw e (quiet-Accounts t t (Lighter-refl k t))
            | inr e ↦
                rw e (start_free-Accounts memory input epoch seq frame_id receive free collected t)
          ]

      sequenced :
          (s : Sequence)
          → Accounts k t (quiet (begin_sequence memory input epoch frame_id receive s t).2)
      sequenced (refused result) = unfold begin_sequence in quiet-Accounts t t (Lighter-refl k t)
      sequenced (sequence seq) =
          unfold begin_sequence in
          found seq (find_place (is_own input epoch seq) t.stats_tracking t.records 0 none none)

  at_once :
      (t u : Tracker) (s : List TrackedFrame × Tracker)
      → Lighter k t u
      → some (quiet u) ≡ some s
      → Accounts k t s
  at_once t u s h e =
      subst (λ (q : List TrackedFrame × Tracker). Accounts k t q) (step-eq e) (quiet-Accounts t u h)

  pub step-Accounts :
      (c : Call) (t : Tracker) (s : List TrackedFrame × Tracker)
      → step c t ≡ some s
      → Accounts k t s
  unfolding step
  step-Accounts (retains j) t s e = at_once t _ s (retain-Lighter k j t) e
  step-Accounts (releases j) t s e =
      let p = >>=-eq-some (release j t) (λ u. some (quiet u)) e in
      at_once t p.0 s (release-Lighter k j t p.0 p.1) p.2
  step-Accounts (claims j) t s e = at_once t _ s (claim-Lighter k j t) e
  step-Accounts (publishes j outcome now) t s e =
      let p = >>=-eq-some (publish j outcome now t) (λ u. some (quiet u)) e in
      at_once t p.0 s (publish-Lighter k j outcome now t p.0 p.1) p.2
  step-Accounts (completes j outcome now) t s e =
      let p = >>=-eq-some (complete j outcome now t) (λ r. some (quiet r.1)) e in
      at_once t p.0.1 s (complete-Lighter k j outcome now t p.0 p.1) p.2
  step-Accounts (abandons j) t s e = at_once t _ s (abandon_input-Lighter k j t) e
  step-Accounts (decodes j end us) t s e = at_once t _ s (stages-Lighter k j end us t).0 e
  step-Accounts (uploads j end us) t s e = at_once t _ s (stages-Lighter k j end us t).1 e
  step-Accounts (submits j end us) t s e = at_once t _ s (stages-Lighter k j end us t).2 e
  step-Accounts (sizes j bytes) t s e = at_once t _ s (set_size-Lighter k j bytes t) e
  step-Accounts (stamps j timestamp) t s e =
      at_once t _ s (set_video_timestamp-Lighter k j timestamp t) e
  step-Accounts (begins memory input epoch frame_id receive) t s e =
      subst (λ (q : List TrackedFrame × Tracker). Accounts k t q) (step-eq e)
        (begin_frame-Accounts memory input epoch frame_id receive t)
  step-Accounts (opens epoch) t s e = at_once t _ s (epochs-Lighter k epoch t).0 e
  step-Accounts (closes epoch) t s e = at_once t _ s (epochs-Lighter k epoch t).1 e
  step-Accounts stops t s e = at_once t _ s (epochs-Lighter k 0 t).2 e
  step-Accounts (settles now timeout capacity) t s e =
      subst (λ (q : List TrackedFrame × Tracker). Accounts k t q) (step-eq e)
        (settle-Accounts now timeout capacity t)
  step-Accounts (copies capacity) t s e = at_once t _ s (copy_stats-Lighter k capacity t) e
