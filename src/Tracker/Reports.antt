-- ===== src/Tracker/Reports.antt =====
-- src/session/frame_tracker.c: how many unsettled tickets, and how many reports, a frame has.
use ihslib.Common.{
  ℕ, zero, suc, ◌+◌, ◌≤◌, ◌≡◌, refl, Bool, not, ◌&&◌, Option, none, some, List, [], ◌∷◌, ◌++◌, map,
  replicate, ◌==◌, if◌then◌else◌, arith,
}
use ihslib.Tracker.State.{TrackedFrame, Ticket, blank_ticket, change_ticket}
use ihslib.Tracker.Epoch.{
  settle_records, room_after, reported, close_ticket, settle_ticket, settled_frame, copy_ticket,
}

-- The reports of the frame with a serial number.
unfoldable pub count : ℕ → List TrackedFrame → ℕ
count k [] = 0
count k (f ∷ frames) = (if f.identity.receive_serial == k then 1 else 0) + count k frames

pub count-append :
    (k : ℕ) (fs gs : List TrackedFrame) → count k (fs ++ gs) ≡ count k fs + count k gs
unfolding count
count-append k [] gs = omega arith
count-append k (f ∷ fs) gs = omega (arith, count-append k fs gs)

module _ (k : ℕ) where
  -- Whether a ticket is the frame's and is not settled.
  unfoldable pub weight : Ticket → ℕ
  weight r = if r.occupied && (not r.settled && r.frame.identity.receive_serial == k) then 1 else 0

  unfoldable pub total : List Ticket → ℕ
  total [] = 0
  total (r ∷ records) = weight r + total records

  pub total-change :
      (w : ℕ) (f : Ticket → Ticket) (records : List Ticket) (j : ℕ)
      → ((r : Ticket) → weight (f r) ≤ weight r + w)
      → total (change_ticket f records j) ≤ total records + w
  unfolding total change_ticket
  total-change w f [] j h = omega arith
  total-change w f (r ∷ records) zero h = omega (arith, h r)
  total-change w f (r ∷ records) (suc j) h = omega (arith, total-change w f records j h)

  pub total-map :
      (f : Ticket → Ticket) (records : List Ticket)
      → ((r : Ticket) → weight (f r) ≤ weight r)
      → total (map f records) ≤ total records
  unfolding total
  total-map f [] h = omega arith
  total-map f (r ∷ records) h = omega (arith, h r, total-map f records h)

  pub total-append :
      (records : List Ticket) (n : ℕ) → total (records ++ replicate n blank_ticket) ≡ total records
  unfolding total weight
  total-append [] zero = refl
  total-append [] (suc n) = omega (arith, total-append [] n)
  total-append (r ∷ records) n = omega (arith, total-append records n)

  pub total-settle_records :
      (one : Ticket → Ticket × Option TrackedFrame) (records : List Ticket) (room : ℕ)
      → ((r : Ticket) → weight (one r).0 ≤ weight r)
      → total (settle_records one records room).0 ≤ total records
  unfolding total settle_records
  total-settle_records one [] room h = omega arith
  total-settle_records one (r ∷ records) zero h = omega arith
  total-settle_records one (r ∷ records) (suc room) h =
      omega (arith, h r, total-settle_records one records (room_after room (one r).1) h)

  -- A report takes the frame's weight from its ticket.
  pub count-settle_records :
      (one : Ticket → Ticket × Option TrackedFrame) (records : List Ticket) (room : ℕ)
      → ((r : Ticket) → count k (reported (one r).1 []) + weight (one r).0 ≤ weight r)
      → count k (settle_records one records room).1 + total (settle_records one records room).0
        ≤ total records
  unfolding total settle_records count
  count-settle_records one [] room h = omega arith
  count-settle_records one (r ∷ records) zero h = omega arith
  count-settle_records one (r ∷ records) (suc room) h =
      let rest = settle_records one records (room_after room (one r).1) in
      omega (
        arith,
        h r,
        split (one r).1 rest.1,
        count-settle_records one records (room_after room (one r).1) h,
      )
    where
      split :
          (o : Option TrackedFrame) (fs : List TrackedFrame)
          → count k (reported o fs) ≡ count k (reported o []) + count k fs
      split none fs = unfold reported in omega arith
      split (some f) fs = unfold reported in omega arith

  pub close_ticket-weight : (r : Ticket) → weight (close_ticket r) ≤ weight r
  unfolding close_ticket weight
  close_ticket-weight r = ground arith

  pub copy_ticket-weight : (epoch : ℕ) (r : Ticket) → weight (copy_ticket epoch r).0 ≤ weight r
  unfolding copy_ticket weight
  copy_ticket-weight epoch r = ground arith

  pub settle_ticket-weight :
      (now timeout : ℕ) (tracking : Bool) (r : Ticket)
      → count k (reported (settle_ticket now timeout tracking r).1 [])
          + weight (settle_ticket now timeout tracking r).0
        ≤ weight r
  unfolding settle_ticket settled_frame weight count reported
  settle_ticket-weight now timeout tracking r = ground arith
