-- ===== src/Tracker/Calls.antt =====
-- src/session/frame_tracker.c: every sequence of calls on a tracker, among them the two halves of a
-- completion, between which other calls may come.
use ihslib.Common.{ℕ, ◌+◌, Bool, Option, some, List, [], ◌∷◌, ◌++◌, ◌==◌, if◌then◌else◌}
use ihslib.Buffer.Defs.{◌>>=◌}
use ihslib.Tracker.State.{Receive, Outcome, TrackedFrame, Tracker}
use ihslib.Tracker.Ticket.{
  retain, release, claim, publish, complete, abandon_input, decode_stage, upload_stage,
  video_decode_stage, set_size, set_video_timestamp,
}
use ihslib.Tracker.Begin.{begin_frame}
use ihslib.Tracker.Epoch.{open_epoch, close_epoch, close_tracker, settle, copy_stats}

pub data Call : Type 0 where
  retains : ℕ → Call
  releases : ℕ → Call
  claims : ℕ → Call
  publishes : ℕ → Outcome → ℕ → Call
  completes : ℕ → Outcome → ℕ → Call
  abandons : ℕ → Call
  decodes : ℕ → Bool → ℕ → Call
  uploads : ℕ → Bool → ℕ → Call
  submits : ℕ → Bool → ℕ → Call
  sizes : ℕ → ℕ → Call
  stamps : ℕ → ℕ → Call
  begins : Bool → Bool → ℕ → ℕ → Receive → Call
  opens : ℕ → Call
  closes : ℕ → Call
  stops : Call
  settles : ℕ → ℕ → ℕ → Call
  copies : ℕ → Call

abbrev pub quiet : Tracker → List TrackedFrame × Tracker
quiet t = ([], t)

-- A call: the frames that it reports as settled, and the tracker; none where its assertion fails.
unfoldable pub step : Call → Tracker → Option (List TrackedFrame × Tracker)
unfolding retain release claim publish complete abandon_input decode_stage upload_stage
    video_decode_stage set_size set_video_timestamp begin_frame open_epoch close_epoch close_tracker
    settle copy_stats
step (retains i) t = some (quiet (retain i t).1)
step (releases i) t = release i t >>= λ t'. some (quiet t')
step (claims i) t = some (quiet (claim i t).1)
step (publishes i outcome now) t = publish i outcome now t >>= λ t'. some (quiet t')
step (completes i outcome now) t = complete i outcome now t >>= λ r. some (quiet r.1)
step (abandons i) t = some (quiet (abandon_input i t).1)
step (decodes i end us) t = some (quiet (decode_stage i end us t).1)
step (uploads i end us) t = some (quiet (upload_stage i end us t).1)
step (submits i end us) t = some (quiet (video_decode_stage i end us t).1)
step (sizes i bytes) t = some (quiet (set_size i bytes t))
step (stamps i timestamp) t = some (quiet (set_video_timestamp i timestamp t))
step (begins memory input epoch frame_id receive) t =
    some (quiet (begin_frame memory input epoch frame_id receive t).2)
step (opens epoch) t = some (quiet (open_epoch epoch t).1)
step (closes epoch) t = some (quiet (close_epoch epoch t))
step stops t = some (quiet (close_tracker t))
step (settles now timeout capacity) t = some (settle now timeout capacity t)
step (copies capacity) t = some (quiet (copy_stats capacity t).1)

-- Calls in a row, with all that they report.
unfoldable pub run : List Call → Tracker → Option (List TrackedFrame × Tracker)
unfolding step
run [] t = some (quiet t)
run (c ∷ calls) t = step c t >>= λ s. run calls s.1 >>= λ r. some (s.0 ++ r.0, r.1)

-- How often the calls release the ticket at a place.
unfoldable pub releases_of : ℕ → Call → ℕ
releases_of i (releases j) = if j == i then 1 else 0
releases_of i c = 0

unfoldable pub count_releases : ℕ → List Call → ℕ
unfolding releases_of
count_releases i [] = 0
count_releases i (c ∷ calls) = releases_of i c + count_releases i calls
