-- ===== src/Transport/Shutdown.antt =====
-- src/session/shutdown.c and src/session/client_shutdown.c (IHS_SessionClientTransportClosed). The
-- base lock is left out: each function runs under it.
use ihslib.Common.{ℕ, Bool, true, false, not, if◌then◌else◌, ◌==◌}
use ihslib.Transport.State.{
  Transport, unconnected, stopping, transport_state, is_transport_connected, is_transport_closed,
  is_phase_connected, emit, disconnect_packet, network_test_closed, disconnected_callback,
}

unfoldable pub send_disconnect : Transport → Transport
unfolding emit
send_disconnect s = emit (disconnect_packet s.connection_id s.host_connection_id) s

unfoldable pub start_closing : Transport → Transport
start_closing s = record s { shutdown = 1 }

-- `IHS_SessionTransportDisconnect`.
unfoldable pub disconnect : Transport → Transport
unfolding send_disconnect start_closing transport_state is_transport_connected is_transport_closed
disconnect s =
    if s.detached
    then s
    else if is_transport_connected (transport_state s)
    then start_closing (send_disconnect s)
    else if is_transport_closed (transport_state s)
    then s
    else start_closing s

-- `IHS_SessionTransportClose`.
unfoldable pub close : Transport → Transport
unfolding disconnect
close s = if s.detached then s else record (disconnect s) { detached = true }

-- `IHS_SessionNotifyDisconnected`, with an application that listens.
unfoldable pub notify_disconnected : Transport → Transport
unfolding emit
notify_disconnected s =
    if s.notified then s else emit disconnected_callback (record s { notified = true })

-- `IHS_SessionClientTransportClosed`; what `IHS_SessionNetworkTestClosed` does is an output.
unfoldable pub client_transport_closed : Transport → Transport
unfolding emit is_phase_connected
client_transport_closed s =
    if s.is_network_test
    then record (emit network_test_closed s) { phase = unconnected }
    else if is_phase_connected s.phase
    then record s { phase = stopping; client_paused = false }
    else record s { phase = unconnected }

-- `IHS_SessionTransportFinish`; `fresh` is the result of `IHS_SessionNextConnectionId`.
unfoldable pub retire_ids : ℕ → Transport → Transport
retire_ids fresh s = record s {
  host_connection_id = 0;
  connection_id = fresh;
  address_cleared = true;
  shutdown = 2;
  active = false;
}

unfoldable pub is_finishing : Transport → Bool
is_finishing s = s.shutdown == 1

unfoldable pub finish : ℕ → Transport → Transport
unfolding client_transport_closed retire_ids is_finishing
finish fresh s =
    if not (is_finishing s)
    then s
    else if s.detached
    then retire_ids fresh s
    else retire_ids fresh (client_transport_closed s)
