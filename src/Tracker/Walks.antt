-- ===== src/Tracker/Walks.antt =====
-- src/session/frame_tracker.c: what the calls that walk over all tickets leave of a ticket that is
-- held.
use ihslib.Common.{
  ℕ, ◌≡◌, refl, Bool, true, false, not, ◌&&◌, ◌||◌, Option, none, List, ◌==◌, if◌then◌else◌, arith,
}
use ihslib.Tracker.State.{
  TrackedFrame, Publication, expired, closed, Ticket, Tracker, is_opened, is_ready,
  release_endpoint,
}
use ihslib.Tracker.Ticket.{ticket}
use ihslib.Tracker.Epoch.{
  close_ticket, close_records, open_epoch, close_epoch, close_tracker, settle_ticket, settle_state,
  settle, copy_ticket, copy_stats,
}
use ihslib.Tracker.Held.{
  Keeps, Keeps-same, Keeps-open, Keeps-alike, Keeps-undone, Keeps-map, Keeps-settle_records,
  is_ready-opened,
}

and_left : (a b : Bool) → a && b ≡ true → a ≡ true
and_left a b h = ground arith

-- A test that decides which of two values a ticket comes from.
pub Keeps-if {ℓ} :
    {A : Type ℓ} (f : A → Ticket) (b : Bool) (r : Ticket) (x y : A)
    → (b ≡ true → Keeps 0 r (f x))
    → (b ≡ false → Keeps 0 r (f y))
    → Keeps 0 r (f (if b then x else y))
Keeps-if f true r x y h k = h refl
Keeps-if f false r x y h k = k refl

Keeps-end :
    (b settled : Bool) (last : Publication) (r : Ticket)
    → is_opened last ≡ false
    → (b ≡ true → is_opened r.publication ≡ true)
    → Keeps 0 r (record r { publication = if b then last else r.publication; settled = settled })
Keeps-end true settled last r shut h =
    Keeps-undone r _ refl refl (is_ready-opened r.publication (h refl)) shut
Keeps-end false settled last r shut h = Keeps-open 0 r _ refl refl refl (omega arith)

close_ticket-Keeps : (r : Ticket) → Keeps 0 r (close_ticket r)
unfolding close_ticket
close_ticket-Keeps r =
    Keeps-if (λ q. q) r.occupied r _ r
      (λ _. Keeps-end (is_opened r.publication) true closed r (unfold is_opened in refl) (λ o. o))
      (λ _. Keeps-same 0 r)

settle_state-Keeps :
    (now timeout : ℕ) (settled : Bool) (r : Ticket)
    → Keeps 0 r (record r { publication = settle_state now timeout r; settled = settled })
unfolding settle_state
settle_state-Keeps now timeout settled r =
    Keeps-end _ settled expired r (unfold is_opened in refl) (and_left (is_opened r.publication) _)

settle_ticket-Keeps :
    (now timeout : ℕ) (tracking : Bool) (r : Ticket)
    → Keeps 0 r (settle_ticket now timeout tracking r).0
unfolding settle_ticket
settle_ticket-Keeps now timeout tracking r =
    Keeps-if {A = Ticket × Option TrackedFrame} (λ p. p.0) (not r.occupied || r.settled) r _ _
      (λ _. Keeps-same 0 r)
      (λ _.
        Keeps-if {A = Ticket × Option TrackedFrame} (λ p. p.0) _ r _ _
          (λ _. settle_state-Keeps now timeout r.settled r)
          (λ _. settle_state-Keeps now timeout true r))

copy_ticket-Keeps : (epoch : ℕ) (r : Ticket) → Keeps 0 r (copy_ticket epoch r).0
unfolding copy_ticket
copy_ticket-Keeps epoch r =
    Keeps-if {A = Ticket × Option TrackedFrame} (λ p. p.0)
      (not r.occupied || (r.settled || not (r.frame.identity.epoch == epoch))) r (r, none) _
      (λ _. Keeps-same 0 r)
      (λ _.
        Keeps-alike r
          (record r {
            stats_consumed = r.stats_consumed || is_ready r.publication;
            stats_reusable = r.stats_reusable || (is_ready r.publication && r.refs == 0);
          })
          refl refl refl refl)

module _ (i : ℕ) where
  abbrev pub After : ℕ → Tracker → Tracker → Type 0
  After n t t' = Keeps n (ticket t i) (ticket t' i)

  close_records-Keeps : (t : Tracker) → After 0 t (close_records t)
  unfolding close_records ticket
  close_records-Keeps t = Keeps-map close_ticket t.records i close_ticket-Keeps

  pub epochs-Keeps :
      (epoch : ℕ) (t : Tracker)
      → After 0 t (open_epoch epoch t).1
        × After 0 t (close_epoch epoch t)
        × After 0 t (close_tracker t)
  unfolding open_epoch close_epoch close_tracker release_endpoint ticket
  epochs-Keeps epoch t = (
    Keeps-if {A = Bool × Tracker} (λ p. ticket p.1 i) _ (ticket t i) _ _
        (λ _. close_records-Keeps t) (λ _. Keeps-same 0 (ticket t i)),
    Keeps-if {A = Tracker} (λ u. ticket u i) _ (ticket t i) _ _ (λ _. close_records-Keeps t)
        (λ _. Keeps-same 0 (ticket t i)),
    close_records-Keeps t,
  )

  pub walks-Keeps :
      (now timeout capacity : ℕ) (t : Tracker)
      → After 0 t (settle now timeout capacity t).1 × After 0 t (copy_stats capacity t).1
  unfolding settle copy_stats ticket
  walks-Keeps now timeout capacity t = (
    Keeps-settle_records (settle_ticket now timeout t.stats_tracking) t.records capacity i
        (settle_ticket-Keeps now timeout t.stats_tracking),
    Keeps-if {A = List TrackedFrame × Tracker} (λ p. ticket p.1 i) t.accepting (ticket t i) _ _
        (λ _.
          Keeps-settle_records (copy_ticket t.epoch) t.records capacity i
            (copy_ticket-Keeps t.epoch))
        (λ _. Keeps-same 0 (ticket t i)),
  )
