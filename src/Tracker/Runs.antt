-- ===== src/Tracker/Runs.antt =====
-- src/session/frame_tracker.c: what every sequence of calls leaves of a ticket that is held.
use ihslib.Common.{
  ℕ, ◌+◌, ◌<◌, ◌≡◌, refl, subst, Option, none, some, List, [], ◌∷◌, ◌++◌, ◌==◌, if◌then◌else◌,
}
use ihslib.Buffer.Defs.{◌>>=◌}
use ihslib.Buffer.Laws.{>>=-eq-some}
use ihslib.Tracker.State.{TrackedFrame, Tracker}
use ihslib.Tracker.Ticket.{ticket, release, publish, complete}
use ihslib.Tracker.Calls.{
  Call, retains, releases, claims, publishes, completes, abandons, decodes, uploads, submits, sizes,
  stamps, begins, opens, closes, stops, settles, copies, quiet, step, run, releases_of,
  count_releases,
}
use ihslib.Tracker.Held.{Kept, Keeps-same, Keeps-trans}
use ihslib.Tracker.Unheld.{begin_frame-Keeps}
use ihslib.Tracker.Walks.{After, epochs-Keeps, walks-Keeps}
use ihslib.Tracker.Steps.{
  retain-Keeps, release-Keeps, claim-Keeps, publish-Keeps, complete-Keeps, abandon_input-Keeps,
  stages-Keeps, set_size-Keeps, set_video_timestamp-Keeps,
}

some-eq : {x y : List TrackedFrame × Tracker} → some x ≡ some y → x ≡ y
some-eq h = cc

module _ (i : ℕ) where
  quiet-Keeps :
      (n : ℕ) (t : Tracker) (o : Option Tracker) (s : List TrackedFrame × Tracker)
      → ((u : Tracker) → o ≡ some u → After i n t u)
      → (o >>= λ u. some (quiet u)) ≡ some s
      → After i n t s.1
  quiet-Keeps n t none s h e = absurd (cc)
  quiet-Keeps n t (some u) s h e =
      subst (λ (q : List TrackedFrame × Tracker). After i n t q.1) (some-eq e) (h u refl)

  at_once :
      (n : ℕ) (t u : Tracker) (s : List TrackedFrame × Tracker)
      → After i n t u
      → some (quiet u) ≡ some s
      → After i n t s.1
  at_once n t u s h e = subst (λ (q : List TrackedFrame × Tracker). After i n t q.1) (some-eq e) h

  -- A call takes from a held ticket at most the reference that it releases.
  step-Keeps :
      (c : Call) (t : Tracker) (s : List TrackedFrame × Tracker)
      → step c t ≡ some s
      → After i (releases_of i c) t s.1
  unfolding step releases_of
  step-Keeps (retains j) t s e = at_once 0 t _ s (retain-Keeps i j t) e
  step-Keeps (releases j) t s e =
      quiet-Keeps (if j == i then 1 else 0) t (release j t) s (release-Keeps i j t) e
  step-Keeps (claims j) t s e = at_once 0 t _ s (claim-Keeps i j t) e
  step-Keeps (publishes j outcome now) t s e =
      quiet-Keeps 0 t (publish j outcome now t) s (publish-Keeps i j outcome now t) e
  step-Keeps (completes j outcome now) t s e =
      let p = >>=-eq-some (complete j outcome now t) (λ r. some (quiet r.1)) e in
      at_once 0 t _ s (complete-Keeps i j outcome now t p.0 p.1) p.2
  step-Keeps (abandons j) t s e = at_once 0 t _ s (abandon_input-Keeps i j t) e
  step-Keeps (decodes j end us) t s e = at_once 0 t _ s (stages-Keeps i j end us t).0 e
  step-Keeps (uploads j end us) t s e = at_once 0 t _ s (stages-Keeps i j end us t).1 e
  step-Keeps (submits j end us) t s e = at_once 0 t _ s (stages-Keeps i j end us t).2 e
  step-Keeps (sizes j bytes) t s e = at_once 0 t _ s (set_size-Keeps i j bytes t) e
  step-Keeps (stamps j timestamp) t s e =
      at_once 0 t _ s (set_video_timestamp-Keeps i j timestamp t) e
  step-Keeps (begins memory input epoch frame_id receive) t s e =
      at_once 0 t _ s (begin_frame-Keeps i memory input epoch frame_id receive t) e
  step-Keeps (opens epoch) t s e = at_once 0 t _ s (epochs-Keeps i epoch t).0 e
  step-Keeps (closes epoch) t s e = at_once 0 t _ s (epochs-Keeps i epoch t).1 e
  step-Keeps stops t s e = at_once 0 t _ s (epochs-Keeps i 0 t).2 e
  step-Keeps (settles now timeout capacity) t s e =
      subst (λ (q : List TrackedFrame × Tracker). After i 0 t q.1) (some-eq e)
        (walks-Keeps i now timeout capacity t).0
  step-Keeps (copies capacity) t s e = at_once 0 t _ s (walks-Keeps i 0 0 capacity t).1 e

  -- Whatever calls come in whatever order, a ticket with more references than they release of it
  -- keeps its frame's identity and loses no more references than those. If it was claimed,
  -- expired, closed or completed before, it is not open afterwards; and if its outcome was there,
  -- it still is, and is the same.
  pub run-Kept :
      (calls : List Call) (t : Tracker) (s : List TrackedFrame × Tracker)
      → run calls t ≡ some s
      → count_releases i calls < (ticket t i).refs
      → Kept (count_releases i calls) (ticket t i) (ticket s.1 i)
  unfolding run count_releases
  run-Kept [] t s e h = at_once 0 t t s (Keeps-same 0 (ticket t i)) e h
  run-Kept (c ∷ calls) t s e h =
      let p = >>=-eq-some (step c t) (λ s. run calls s.1 >>= λ r. some (s.0 ++ r.0, r.1)) e in
      let q = >>=-eq-some (run calls p.0.1) (λ r. some (p.0.0 ++ r.0, r.1)) p.2 in
      let last : After i (releases_of i c + count_releases i calls) t q.0.1 =
        Keeps-trans (releases_of i c) (count_releases i calls) (ticket t i) (ticket p.0.1 i)
          (ticket q.0.1 i) (step-Keeps c t p.0 p.1) (run-Kept calls p.0.1 q.0 q.1) in
      subst
        (λ (q : List TrackedFrame × Tracker).
          After i (releases_of i c + count_releases i calls) t q.1)
        (some-eq q.2) last h
