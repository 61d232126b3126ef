-- ===== src/Transport/Calls.antt =====
-- src/session/lifecycle.c, shutdown.c: every sequence of calls on a connection, among them what the
-- rest of the session does to the phase.
use ihslib.Common.{
  inl, inr, Bool-cases, add32, ℕ, zero, suc, ◌+◌, ◌≤◌, ◌≡◌, min, add32, Bool, true, false, not,
  List, [], ◌∷◌, if◌then◌else◌, arith,
}
use ihslib.Transport.State.{
  Transport, Phase, Output, connect_packet, disconnect_packet, pause_message, resume_message,
  data_lost, network_test_closed, disconnected_callback, transport_state, emit,
}
use ihslib.Transport.Shutdown.{
  disconnect, close, notify_disconnected, finish, is_finishing, retire_ids, client_transport_closed,
  send_disconnect, start_closing,
}
use ihslib.Transport.Lifecycle.{
  request_edge, set_foreground, begin_transport, update, check_timeout, prepare_update,
  change_foreground, pause_connection, resume_connection, restart_lease, send_resume,
  set_client_paused, apply_edge, next_edge, apply_edges, retry_connect, send_connect,
  set_last_connect, set_update_time, finish_or_retry, expire, is_background,
}

pub data Call : Type 0 where
  begins : ℕ → Call
  sets_foreground : Bool → Call
  updates : ℕ → ℕ → Call
  disconnects : Call
  closes : Call
  notifies : Call
  enters : Phase → Call

pub enter : Phase → Transport → Transport
enter phase s = record s { phase = phase }

unfoldable pub step : Call → Transport → Transport
unfolding enter
step (begins now) s = begin_transport now s
step (sets_foreground foreground) s = set_foreground foreground s
step (updates fresh now) s = update fresh now s
step disconnects s = disconnect s
step closes s = close s
step notifies s = notify_disconnected s
step (enters phase) s = enter phase s

unfoldable pub run : List Call → Transport → Transport
run [] s = s
run (call ∷ calls) s = run calls (step call s)

unfoldable pub is_hangup : Output → ℕ
is_hangup (connect_packet id) = 0
is_hangup (disconnect_packet id host) = 1
is_hangup pause_message = 0
is_hangup resume_message = 0
is_hangup (data_lost channel) = 0
is_hangup network_test_closed = 0
is_hangup disconnected_callback = 0

unfoldable pub is_notice : Output → ℕ
is_notice (connect_packet id) = 0
is_notice (disconnect_packet id host) = 0
is_notice pause_message = 0
is_notice resume_message = 0
is_notice (data_lost channel) = 0
is_notice network_test_closed = 0
is_notice disconnected_callback = 1

-- How many disconnect packets and application notices went out.
unfoldable pub hangups : List Output → ℕ
unfolding is_hangup
hangups [] = 0
hangups (o ∷ os) = is_hangup o + hangups os

unfoldable pub notices : List Output → ℕ
unfolding is_notice
notices [] = 0
notices (o ∷ os) = is_notice o + notices os

-- A disconnect packet has gone out only where the shutdown has started, and then one at most; the
-- application has been told only where the flag says so, and then once.
pub record IsHungUp (s : Transport) : Type 0 where
  pub hangups_le : hangups s.sent ≤ min 1 s.shutdown
  pub notices_le : notices s.sent ≤ (if s.notified then 1 else 0)

-- What a step leaves alone.
pub record Keeps (s t : Transport) : Type 0 where
  pub shutdown_eq : t.shutdown ≡ s.shutdown
  pub phase_eq : t.phase ≡ s.phase
  pub notified_eq : t.notified ≡ s.notified
  pub hangups_eq : hangups t.sent ≡ hangups s.sent
  pub notices_eq : notices t.sent ≡ notices s.sent

Keeps-IsHungUp : (s t : Transport) → Keeps s t → IsHungUp s → IsHungUp t
Keeps-IsHungUp s t k v = ground (arith, k, v)

resume_connection-Keeps : (s : Transport) → Keeps s (resume_connection s)
unfolding resume_connection restart_lease send_resume emit hangups notices
resume_connection-Keeps s = ground arith

change_foreground-Keeps : (fg : Bool) (s : Transport) → Keeps s (change_foreground fg s)
unfolding change_foreground pause_connection set_client_paused emit hangups notices
change_foreground-Keeps false s = ground arith
change_foreground-Keeps true s = ground (arith, resume_connection-Keeps s)

apply_edge-Keeps : (s : Transport) → Keeps s (apply_edge s)
unfolding apply_edge next_edge
apply_edge-Keeps s =
    let k =
      change_foreground-Keeps (not (is_background (add32 s.applied_generation 1))) (next_edge s) in
    record {
      shutdown_eq = k.shutdown_eq;
      phase_eq = k.phase_eq;
      notified_eq = k.notified_eq;
      hangups_eq = k.hangups_eq;
      notices_eq = k.notices_eq;
    }

pub apply_edges-Keeps : (n requested : ℕ) (s : Transport) → Keeps s (apply_edges n requested s)
unfolding apply_edges
apply_edges-Keeps zero requested s = ground arith
apply_edges-Keeps (suc n) requested s =
    ground (arith, apply_edge-Keeps s, apply_edges-Keeps n requested (apply_edge s))

pub retry_connect-Keeps : (now : ℕ) (s : Transport) → Keeps s (retry_connect now s)
unfolding retry_connect send_connect set_last_connect emit hangups notices
retry_connect-Keeps now s = ground arith

disconnect-IsHungUp : (s : Transport) → IsHungUp s → IsHungUp (disconnect s)
unfolding disconnect send_disconnect start_closing transport_state emit hangups notices
disconnect-IsHungUp s v = ground (arith, v)

close-IsHungUp : (s : Transport) → IsHungUp s → IsHungUp (close s)
unfolding close
close-IsHungUp s v = ground (arith, disconnect-IsHungUp s v)

notify_disconnected-IsHungUp : (s : Transport) → IsHungUp s → IsHungUp (notify_disconnected s)
unfolding notify_disconnected emit hangups notices
notify_disconnected-IsHungUp s v = ground (arith, v)

finish-IsHungUp : (fresh : ℕ) (s : Transport) → IsHungUp s → IsHungUp (finish fresh s)
unfolding finish retire_ids client_transport_closed is_finishing emit hangups notices
finish-IsHungUp fresh s v = ground (arith, v)

retry_connect-IsHungUp : (now : ℕ) (s : Transport) → IsHungUp s → IsHungUp (retry_connect now s)
retry_connect-IsHungUp now s = Keeps-IsHungUp s (retry_connect now s) (retry_connect-Keeps now s)

finish_or_retry-IsHungUp :
    (fresh now : ℕ) (s : Transport) → IsHungUp s → IsHungUp (finish_or_retry fresh now s)
unfolding finish_or_retry
finish_or_retry-IsHungUp fresh now s v = elim (Bool-cases (is_finishing s)) [
  | inl e ↦ rw e (finish-IsHungUp fresh s v)
  | inr e ↦ rw e (retry_connect-IsHungUp now s v)
]

prepare_update-IsHungUp :
    (fresh now : ℕ) (s : Transport) → IsHungUp s → IsHungUp (prepare_update fresh now s)
unfolding prepare_update set_update_time
prepare_update-IsHungUp fresh now s v =
    let edges = apply_edges 32 s.lifecycle_generation s in
    let kept = Keeps-IsHungUp s edges (apply_edges-Keeps 32 s.lifecycle_generation s) v in
    finish_or_retry-IsHungUp fresh now _
      (record { hangups_le = kept.hangups_le; notices_le = kept.notices_le })

check_timeout-IsHungUp : (now : ℕ) (s : Transport) → IsHungUp s → IsHungUp (check_timeout now s)
unfolding check_timeout expire
check_timeout-IsHungUp now s v = ground (
  arith,
  disconnect-IsHungUp (record s { timed_out = true; active = false })
      (record { hangups_le = v.hangups_le; notices_le = v.notices_le }),
  v,
)

step-IsHungUp : (call : Call) (s : Transport) → IsHungUp s → IsHungUp (step call s)
unfolding step begin_transport set_foreground request_edge update enter
step-IsHungUp (begins now) s v = record { hangups_le = v.hangups_le; notices_le = v.notices_le }
step-IsHungUp (sets_foreground foreground) s v = ground (arith, v)
step-IsHungUp (updates fresh now) s v =
    check_timeout-IsHungUp now _ (prepare_update-IsHungUp fresh now s v)
step-IsHungUp disconnects s v = disconnect-IsHungUp s v
step-IsHungUp closes s v = close-IsHungUp s v
step-IsHungUp notifies s v = notify_disconnected-IsHungUp s v
step-IsHungUp (enters phase) s v = record { hangups_le = v.hangups_le; notices_le = v.notices_le }

-- Whatever calls arrive in whatever order on a connection that is in such a state, it stays in one:
-- it sends its disconnect packet at most once, and not before its shutdown has started, and the
-- application is told of the end at most once.
pub run-IsHungUp : (calls : List Call) (s : Transport) → IsHungUp s → IsHungUp (run calls s)
unfolding run
run-IsHungUp [] s v = v
run-IsHungUp (call ∷ calls) s v = run-IsHungUp calls (step call s) (step-IsHungUp call s v)
