-- ===== src/Tests/Tracker.antt =====
-- Runs of the frame tracker, and its theorems at concrete inputs.
use ihslib.Common.{
  ℕ, ◌≤◌, ◌<◌, ◌≡◌, refl, true, false, Option, none, some, List, [], ◌∷◌, ◌++◌, map, arith,
}
use ihslib.Tracker.State.{Outcome, TrackedFrame, Tracker, no_outcome, no_receive, create}
use ihslib.Tracker.Ticket.{ticket, displayed}
use ihslib.Tracker.Calls.{
  Call, releases, claims, completes, begins, opens, settles, run, count_releases,
}
use ihslib.Tracker.Held.{Kept}
use ihslib.Tracker.Runs.{run-Kept}
use ihslib.Tracker.Reports.{count}
use ihslib.Tracker.Once.{count-run}

abbrev shown : Outcome
shown = record no_outcome { result = displayed; completion_us = 9; presentation_serial = 1 }

abbrev begun : List Call
begun = opens 1 ∷ begins true true 1 5 no_receive ∷ begins true true 1 6 no_receive ∷ []

-- The first frame is completed, and its ticket released, and the second expires.
abbrev ended : List Call
ended = completes 0 shown 3 ∷ releases 0 ∷ settles 100 50 8 ∷ settles 200 50 8 ∷ []

-- The value of an option that is there.
value {ℓ} : {A : Type ℓ} → A → Option A → A
value a none = a
value a (some x) = x

-- No tracker at all.
abbrev no_tracker : Tracker
no_tracker = record {
  refs = 0;
  completions = 0;
  session_id = 0;
  epoch = 0;
  serial = 0;
  highest_sequence = 0;
  accepting = false;
  have_sequence = false;
  stats_tracking = false;
  seen = [];
  seen_valid = [];
  records = [];
}

new_tracker : Tracker
unfolding value create
new_tracker = value no_tracker (create 7)

after : List Call → Tracker → List TrackedFrame × Tracker
unfolding value run
after calls t = value ([], t) (run calls t)

new_tracker-create : create 7 ≡ some new_tracker
unfolding new_tracker
new_tracker-create = refl

all_calls : List Call
all_calls = begun ++ ended

reports_run :
    map {B = ℕ × ℕ} (λ f. (f.identity.frame_id, f.outcome.result)) (after all_calls new_tracker).0
    ≡ (5, 1) ∷ (6, 6) ∷ []
unfolding after new_tracker all_calls
reports_run = refl

all_calls-after : run all_calls new_tracker ≡ some (after all_calls new_tracker)
unfolding after new_tracker all_calls
all_calls-after = refl

count-run_example :
    (count 1 (after all_calls new_tracker).0 ≤ 1)
    × ((after all_calls new_tracker).1.serial < 1 → count 1 (after all_calls new_tracker).0 ≡ 0)
count-run_example =
    count-run 1 7 all_calls new_tracker (after all_calls new_tracker) new_tracker-create
      all_calls-after

-- The first frame's ticket, which its receiver holds.
begun_tracker : Tracker
unfolding after new_tracker
begun_tracker = (after begun new_tracker).1

abbrev held_calls : List Call
held_calls =
    completes 0 shown 3 ∷ settles 200 50 8 ∷ begins true true 1 7 no_receive ∷ claims 0 ∷ []

held_calls-after : run held_calls begun_tracker ≡ some (after held_calls begun_tracker)
unfolding after begun_tracker
held_calls-after = refl

held_calls_room : count_releases 0 held_calls < (ticket begun_tracker 0).refs
unfolding begun_tracker count_releases ticket
held_calls_room = omega arith

run-Kept_example :
    Kept
      (count_releases 0 held_calls)
      (ticket begun_tracker 0)
      (ticket (after held_calls begun_tracker).1 0)
run-Kept_example =
    run-Kept 0 held_calls begun_tracker (after held_calls begun_tracker) held_calls-after
      held_calls_room
