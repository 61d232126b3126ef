-- ===== src/Tests/Transport.antt =====
-- src/session/lifecycle.c, shutdown.c: a connection in use, on which the transport's theorems are
-- applied.
use ihslib.Common.{◌≡◌, refl, true, false, List, [], ◌∷◌, arith}
use ihslib.Transport.State.{
  Transport, connected, is_transport_closed, is_transport_live, transport_state,
}
use ihslib.Transport.Shutdown.{close}
use ihslib.Transport.Lifecycle.{prepare_update, apply_edges, is_background, set_foreground}
use ihslib.Transport.Calls.{
  Call, sets_foreground, updates, disconnects, closes, notifies, run, IsHungUp, run-IsHungUp,
  hangups, notices,
}
use ihslib.Transport.Update.{prepare_update-close}
use ihslib.Transport.Foreground.{IsInStep, IsBehind, apply_edges-set_foreground}

-- A connection that streams; its host was last heard at tick 100, and the application has just
-- asked for the background.
abbrev pub streaming : Transport
streaming = record {
  update_time = 100;
  last_receive = 100;
  last_connect = 50;
  applied_generation = 2;
  lifecycle_generation = 3;
  shutdown = 0;
  detached = false;
  notified = false;
  address_cleared = false;
  active = true;
  client_paused = false;
  connection_paused = false;
  timed_out = false;
  last_echo = 100;
  have_echo = true;
  phase = connected;
  connection_id = 7;
  host_connection_id = 9;
  interrupted = false;
  has_audio = true;
  has_video = false;
  is_network_test = false;
  sent = [];
}

streaming-IsHungUp : IsHungUp streaming
unfolding hangups notices
streaming-IsHungUp = record { hangups_le = omega arith; notices_le = omega arith }

streaming-IsInStep : IsInStep streaming
unfolding is_background
streaming-IsInStep = record { paused_eq = refl }

streaming-IsBehind : IsBehind 1 3 streaming
streaming-IsBehind = record {
  applied_lt = omega arith;
  behind_lt = omega arith;
  requested_eq = refl;
}

abbrev ending : List Call
ending = sets_foreground false ∷ disconnects ∷ closes ∷ updates 8 200 ∷ notifies ∷ notifies ∷ []

run-IsHungUp_example : IsHungUp (run ending streaming)
run-IsHungUp_example = run-IsHungUp ending streaming streaming-IsHungUp

prepare_update-close_example :
    is_transport_closed (transport_state (prepare_update 8 200 (close streaming))) ≡ true
prepare_update-close_example = prepare_update-close 8 200 streaming refl

streaming-live : is_transport_live (transport_state streaming) ≡ true
unfolding is_transport_live transport_state
streaming-live = refl

apply_edges-set_foreground_example :
    (apply_edges 32
      (set_foreground true streaming).lifecycle_generation
      (set_foreground true streaming)).client_paused
    ≡ false
apply_edges-set_foreground_example =
    apply_edges-set_foreground true 1 streaming (omega arith) streaming-IsBehind streaming-IsInStep
