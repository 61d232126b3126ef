-- ===== src/Transport/Update.antt =====
-- src/session/lifecycle.c, shutdown.c: what one update of the worker does to a connection that is
-- closed or that has heard nothing for too long.
use ihslib.Common.{ℕ, ◌≤◌, ◌<◌, ◌≡◌, ◌⊎◌, refl, true, false, ==_iff, sub32, arith}
use ihslib.Transport.State.{
  Transport, transport_state, is_transport_closed, is_transport_live, emit,
}
use ihslib.Transport.Shutdown.{
  close, disconnect, finish, is_finishing, retire_ids, send_disconnect, start_closing,
}
use ihslib.Transport.Lifecycle.{
  prepare_update, finish_or_retry, set_update_time, retry_connect, apply_edges, check_timeout,
  is_expired, timeout_ticks, expire,
}
use ihslib.Transport.Calls.{Keeps, apply_edges-Keeps, retry_connect-Keeps}

-- The shutdown has started, or the connection is closed.
abbrev IsEnding : Transport → Type 0
IsEnding s = (s.shutdown ≡ 1) ⊎ (is_transport_closed (transport_state s) ≡ true)

Keeps-is_transport_closed :
    (s t : Transport)
    → Keeps s t
    → is_transport_closed (transport_state t) ≡ is_transport_closed (transport_state s)
unfolding transport_state
Keeps-is_transport_closed s t k = rw (k.shutdown_eq, k.phase_eq) refl

Keeps-IsEnding : (s t : Transport) → Keeps s t → IsEnding s → IsEnding t
Keeps-IsEnding s t k v = ground (arith, k, Keeps-is_transport_closed s t k)

close-IsEnding : (s : Transport) → s.detached ≡ false → IsEnding (close s)
unfolding close disconnect send_disconnect start_closing transport_state emit is_transport_closed
close-IsEnding s attached = ground arith

shutdown-closed : (s : Transport) → s.shutdown ≡ 2 → is_transport_closed (transport_state s) ≡ true
unfolding transport_state is_transport_closed
shutdown-closed s e = ground (arith, e)

shutdown-finish : (fresh : ℕ) (s : Transport) → s.shutdown ≡ 1 → (finish fresh s).shutdown ≡ 2
unfolding finish is_finishing retire_ids
shutdown-finish fresh s e = ground (arith, e, ==_iff s.shutdown 1)

finish-closed :
    (fresh : ℕ) (s : Transport)
    → s.shutdown ≡ 1
    → is_transport_closed (transport_state (finish fresh s)) ≡ true
finish-closed fresh s e = shutdown-closed (finish fresh s) (shutdown-finish fresh s e)

finish_or_retry-closed :
    (fresh now : ℕ) (s : Transport)
    → IsEnding s
    → is_transport_closed (transport_state (finish_or_retry fresh now s)) ≡ true
unfolding finish_or_retry is_finishing
finish_or_retry-closed fresh now s v = ground (
  arith,
  v,
  ==_iff s.shutdown 1,
  finish-closed fresh s,
  Keeps-is_transport_closed s (retry_connect now s) (retry_connect-Keeps now s),
)

-- After a close of a connection that was not closed by its owner before, the worker's next update
-- leaves the connection in the closed state, whatever state it was in.
pub prepare_update-close :
    (fresh now : ℕ) (s : Transport)
    → s.detached ≡ false
    → is_transport_closed (transport_state (prepare_update fresh now (close s))) ≡ true
unfolding prepare_update set_update_time transport_state
prepare_update-close fresh now s attached =
    let t = close s in
    let edges = apply_edges 32 t.lifecycle_generation t in
    finish_or_retry-closed fresh now (set_update_time now edges) (
      Keeps-IsEnding t edges (apply_edges-Keeps 32 t.lifecycle_generation t)
        (close-IsEnding s attached))

-- An attached, live connection that has not timed out yet either has heard from its host within the
-- limit, 15 s or 180 s while it is paused, and is left alone; or it is closing, marked as timed out
-- and out of use. The elapsed time is a 32-bit difference.
pub check_timeout_lem :
    (now : ℕ) (s : Transport)
    → s.active ≡ true
    → s.timed_out ≡ false
    → s.detached ≡ false
    → is_transport_live (transport_state s) ≡ true
    → (timeout_ticks s ≤ sub32 now s.last_receive
        × (check_timeout now s).timed_out ≡ true
        × (check_timeout now s).active ≡ false
        × (check_timeout now s).shutdown ≡ 1)
      ⊎ (sub32 now s.last_receive < timeout_ticks s × check_timeout now s ≡ s)
unfolding check_timeout is_expired expire disconnect send_disconnect start_closing transport_state
    emit
check_timeout_lem now s a b c d = ground arith
