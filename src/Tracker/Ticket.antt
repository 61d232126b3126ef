-- ===== src/Tracker/Ticket.antt =====
-- src/session/frame_tracker.c: the calls on one ticket.
use ihslib.Common.{
  ◌-◌, ℕ, Bool, true, false, not, ◌&&◌, ◌||◌, Option, none, some, ltb, leb, ◌==◌, if◌then◌else◌,
  add64,
}
use ihslib.Tracker.State.{
  Identity, Outcome, TrackedFrame, claimed, ready, closed, Ticket, Tracker, is_opened, is_claimed,
  get_ticket, change_ticket, retain_ref, release_endpoint,
}

-- The ticket at a place, and a change of it.
unfoldable pub ticket : Tracker → ℕ → Ticket
unfolding get_ticket
ticket t i = get_ticket t.records i

unfoldable pub on_ticket : (Ticket → Ticket) → ℕ → Tracker → Tracker
unfolding change_ticket
on_ticket f i t = record t { records = change_ticket f t.records i }

-- `IHS_FrameTicketRetain`.
unfoldable pub retain : ℕ → Tracker → Bool × Tracker
unfolding retain_ref release_endpoint ticket on_ticket
retain i t = elim (retain_ref t.refs) [
  | none ↦ (false, t)
  | some n ↦ elim (retain_ref (ticket t i).refs) [
    | none ↦ (false, release_endpoint (record t { refs = n }))
    | some k ↦ (true, on_ticket (λ r. record r { refs = k }) i (record t { refs = n }))
  ]
]

-- `IHS_FrameTicketRelease`: none where its assertion fails, that the count was not 0.
unfoldable pub release : ℕ → Tracker → Option Tracker
unfolding release_endpoint ticket on_ticket
release i t =
    if (ticket t i).refs == 0
    then none
    else some (release_endpoint (on_ticket (λ r. record r { refs = r.refs - 1 }) i t))

-- `IHS_FrameTicketIdentity`.
unfoldable pub identity : ℕ → Tracker → Identity
unfolding ticket
identity i t = (ticket t i).frame.identity

-- `IHS_FrameTicketClaim`.
unfoldable pub claim : ℕ → Tracker → Bool × Tracker
unfolding is_opened ticket on_ticket
claim i t =
    if is_opened (ticket t i).publication
    then (true, on_ticket (λ r. record r { publication = claimed }) i t)
    else (false, t)

-- `IHS_FrameTicketPublish` at a time: none where its assertion fails.
unfoldable pub publish : ℕ → Outcome → ℕ → Tracker → Option Tracker
unfolding is_claimed ticket on_ticket
publish i outcome now t =
    if is_claimed (ticket t i).publication
    then some
        (record (on_ticket
          (λ r. record r {
            payload = outcome;
            completion_timestamp = now;
            completion_serial = t.completions;
            publication = ready;
          })
          i t) { completions = add64 t.completions 1 })
    else none

-- `IHS_VideoFrameResultDisplayed`.
abbrev pub displayed : ℕ
displayed = 1

-- The guard of `IHS_FrameTicketComplete`.
unfoldable pub is_refused : Outcome → Bool
is_refused o =
    leb o.result 0
    || (ltb 7 o.result
        || ((o.has_upload
              && (ltb o.upload_end_us o.upload_begin_us || ltb o.completion_us o.upload_end_us))
            || ((not (o.result == displayed)
                  && (not (o.presentation_serial == 0) || o.has_presentation_interval))
                || (o.result == displayed && o.presentation_serial == 0))))

-- `IHS_FrameTicketComplete` with an outcome, whose publication takes place at a time.
unfoldable pub complete : ℕ → Outcome → ℕ → Tracker → Option (Bool × Tracker)
unfolding is_refused claim publish
complete i outcome now t =
    if is_refused outcome || not (claim i t).0
    then some (false, t)
    else elim (publish i outcome now (claim i t).1) [ none ↦ none | some t' ↦ some (true, t') ]

-- `IHS_FrameTicketAbandonInput`.
unfoldable pub abandon_input : ℕ → Tracker → Bool × Tracker
unfolding is_opened ticket on_ticket
abandon_input i t =
    let r = ticket t i in
    if r.input
      && (not r.settled
          && (not r.video_decode_active
              && (not r.frame.has_decode_begin && is_opened r.publication)))
    then (true, on_ticket (λ q. record q { publication = closed; settled = true }) i t)
    else (false, t)

-- The guard of the stages; a ticket belongs to its tracker.
unfoldable pub is_current : ℕ → Tracker → Bool
unfolding ticket
is_current i t =
    t.accepting && ((ticket t i).frame.identity.epoch == t.epoch && not (ticket t i).settled)

-- `IHS_FrameTrackerDecodeStage` and `IHS_FrameTicketDecodeStage`, and the later stages' times: the
-- change of a frame at the end or the beginning of its decoding.
unfoldable pub decode_times : Bool → ℕ → TrackedFrame → TrackedFrame
decode_times true us f = record f { decode_end_us = us; has_decode_end = true }
decode_times false us f =
    if f.has_decode_begin then f else record f { decode_begin_us = us; has_decode_begin = true }

unfoldable pub decode_stage : ℕ → Bool → ℕ → Tracker → Bool × Tracker
unfolding is_current on_ticket decode_times
decode_stage i end us t =
    if is_current i t
    then (true, on_ticket (λ r. record r { frame = decode_times end us r.frame }) i t)
    else (false, t)

unfoldable pub upload_times : Bool → ℕ → TrackedFrame → TrackedFrame
upload_times true us f = record f { upload_end_us = us; has_upload_end = true }
upload_times false us f = record f { upload_begin_us = us; has_upload_begin = true }

-- `IHS_FrameTicketUploadStage`.
unfoldable pub upload_stage : ℕ → Bool → ℕ → Tracker → Bool × Tracker
unfolding is_current on_ticket upload_times
upload_stage i end us t =
    if is_current i t
    then (true, on_ticket (λ r. record r { frame = upload_times end us r.frame }) i t)
    else (false, t)

-- `IHS_FrameTicketVideoDecodeStage` at a time.
unfoldable pub video_decode_stage : ℕ → Bool → ℕ → Tracker → Bool × Tracker
unfolding is_current ticket on_ticket decode_times
video_decode_stage i end us t =
    let r = ticket t i in
    if is_current i t && (not end || (r.video_decode_active && not r.video_decode_ended))
    then (
      true,
      on_ticket
          (λ q. record q {
            frame = decode_times end us q.frame;
            video_decode_active = not end || q.video_decode_active;
            video_decode_ended = end;
          })
          i t,
    )
    else (false, t)

-- `IHS_FrameTicketSetSize`.
unfoldable pub set_size : ℕ → ℕ → Tracker → Tracker
unfolding ticket on_ticket
set_size i bytes t =
    if (ticket t i).settled
    then t
    else on_ticket
        (λ r. record r {
          frame = record r.frame { receive = record r.frame.receive { frame_size = bytes } };
        })
        i t

-- `IHS_FrameTicketSetVideoTimestamp`.
unfoldable pub set_video_timestamp : ℕ → ℕ → Tracker → Tracker
unfolding is_current on_ticket
set_video_timestamp i timestamp t =
    if is_current i t
    then on_ticket (λ r. record r { video_timestamp = timestamp; has_video_timestamp = true }) i t
    else t

-- `IHS_FrameTicketVideoTimestamp`.
unfoldable pub get_video_timestamp : ℕ → Tracker → Option ℕ
unfolding ticket
get_video_timestamp i t =
    if (ticket t i).has_video_timestamp then some (ticket t i).video_timestamp else none
