-- ===== src/Transport/Lifecycle.antt =====
-- src/session/lifecycle.c: foreground changes, the worker's update and the receive timeout. A call
-- of `IHS_SessionSetForeground` is the compare-and-exchange that takes effect. Times are 32-bit
-- ticks of 1/65536 s.
use ihslib.Common.{
  ℕ, zero, suc, ◌*◌, ◌%◌, Bool, true, false, not, ◌&&◌, ◌||◌, if◌then◌else◌, ◌==◌, leb, add32,
  sub32,
}
use ihslib.Transport.State.{
  Transport, LostChannel, audio, video, discovery, transport_state, is_transport_connected,
  is_transport_closed, is_transport_live, is_phase_connected, is_phase_connecting, emit,
  connect_packet, pause_message, resume_message, data_lost,
}
use ihslib.Transport.Shutdown.{disconnect, finish, is_finishing}

-- The parity of a generation is the requested state: odd for the background.
unfoldable pub is_background : ℕ → Bool
is_background generation = generation % 2 == 1

-- The loop's test: the parity is not the requested one.
unfoldable pub needs_edge : Bool → ℕ → Bool
unfolding is_background
needs_edge true generation = is_background generation
needs_edge false generation = not (is_background generation)

unfoldable pub request_edge : Transport → Transport
request_edge s = record s { lifecycle_generation = add32 s.lifecycle_generation 1 }

-- `IHS_SessionSetForeground`.
unfoldable pub set_foreground : Bool → Transport → Transport
unfolding needs_edge request_edge
set_foreground foreground s =
    if needs_edge foreground s.lifecycle_generation then request_edge s else s

-- `IHS_SessionTransportBegin`.
unfoldable pub begin_transport : ℕ → Transport → Transport
begin_transport now s = record s {
  update_time = now;
  last_receive = now;
  last_connect = 0;
  last_echo = now;
  have_echo = true;
  active = true;
}

-- `IHS_SessionTransportSendConnect`: the packet goes to the sender, whose result the callers here
-- ignore.
unfoldable pub send_connect : Transport → Transport
unfolding emit
send_connect s = emit (connect_packet s.connection_id) s

unfoldable pub is_reachable : Transport → Bool
unfolding transport_state is_transport_connected
is_reachable s = is_transport_connected (transport_state s) && (not s.detached && not s.interrupted)

unfoldable pub pause_connection : Transport → Transport
unfolding emit is_phase_connected
pause_connection s =
    if is_phase_connected s.phase
    then record (emit pause_message s) { connection_paused = true }
    else record s { connection_paused = true }

-- A data channel that has not started yet is reached through the discovery channel.
unfoldable pub lost_channel : Bool → LostChannel → LostChannel
lost_channel present channel = if present then channel else discovery

unfoldable pub send_resume : Transport → Transport
unfolding emit lost_channel
send_resume s =
    emit (data_lost (lost_channel s.has_video video))
      (emit (data_lost (lost_channel s.has_audio audio)) (emit resume_message s))

unfoldable pub restart_lease : Transport → Transport
restart_lease s = record s {
  connection_paused = false;
  last_receive = s.update_time;
  last_echo = s.update_time;
  have_echo = true;
}

unfoldable pub resume_connection : Transport → Transport
unfolding restart_lease send_resume is_phase_connected
resume_connection s =
    if is_phase_connected s.phase then send_resume (restart_lease s) else restart_lease s

unfoldable pub set_client_paused : Bool → Transport → Transport
set_client_paused paused s = record s { client_paused = paused }

-- `ChangeForeground`.
unfoldable pub change_foreground : Bool → Transport → Transport
unfolding is_reachable pause_connection resume_connection set_client_paused
change_foreground false s =
    if s.client_paused
    then s
    else if is_reachable s
    then set_client_paused true (pause_connection s)
    else set_client_paused true s
change_foreground true s =
    if not s.client_paused
    then s
    else if is_reachable s
    then set_client_paused false (resume_connection s)
    else set_client_paused false s

unfoldable pub next_edge : Transport → Transport
next_edge s = record s { applied_generation = add32 s.applied_generation 1 }

unfoldable pub apply_edge : Transport → Transport
apply_edge s = change_foreground (not (is_background (add32 s.applied_generation 1))) (next_edge s)

-- The loop of `IHS_SessionTransportPrepareUpdate` over the requested changes: `rounds` of them at
-- most.
unfoldable pub apply_edges : ℕ → ℕ → Transport → Transport
apply_edges zero requested s = s
apply_edges (suc rounds) requested s =
    let rest = apply_edges rounds requested (apply_edge s) in
    if s.applied_generation == requested then s else rest

unfoldable pub is_idle : Transport → Bool
unfolding transport_state is_transport_closed
is_idle s = not s.active || (s.timed_out || (s.detached || is_transport_closed (transport_state s)))

unfoldable pub set_last_connect : ℕ → Transport → Transport
set_last_connect now s = record s { last_connect = now }

-- The periodic connect packet, until the host answers.
unfoldable pub retry_connect : ℕ → Transport → Transport
unfolding is_idle send_connect set_last_connect is_phase_connecting
retry_connect now s =
    if is_idle s
    then s
    else if is_phase_connecting s.phase
        && (s.last_connect == 0 || leb 6553 (sub32 now s.last_connect))
    then set_last_connect now (send_connect s)
    else s

unfoldable pub set_update_time : ℕ → Transport → Transport
set_update_time now s = record s { update_time = now }

unfoldable pub finish_or_retry : ℕ → ℕ → Transport → Transport
finish_or_retry fresh now s = if is_finishing s then finish fresh s else retry_connect now s

-- `IHS_SessionTransportPrepareUpdate`.
unfoldable pub prepare_update : ℕ → ℕ → Transport → Transport
prepare_update fresh now s =
    finish_or_retry fresh now (set_update_time now (apply_edges 32 s.lifecycle_generation s))

unfoldable pub timeout_ticks : Transport → ℕ
timeout_ticks s = (if s.connection_paused then 180 else 15) * 65536

unfoldable pub is_expired : ℕ → Transport → Bool
unfolding timeout_ticks transport_state is_transport_live
is_expired now s =
    s.active
    && (not s.timed_out
        && (not s.detached
            && (is_transport_live (transport_state s)
                && leb (timeout_ticks s) (sub32 now s.last_receive))))

unfoldable pub expire : Transport → Transport
expire s = record s { timed_out = true; active = false }

-- `IHS_SessionTransportCheckTimeout`.
unfoldable pub check_timeout : ℕ → Transport → Transport
unfolding is_expired expire disconnect
check_timeout now s = if is_expired now s then disconnect (expire s) else s

-- `IHS_SessionTransportUpdate`.
unfoldable pub update : ℕ → ℕ → Transport → Transport
update fresh now s = check_timeout now (prepare_update fresh now s)
