-- ===== src/MqttServer/Events.antt =====
-- The events of the I/O loop for src/mqtt/mqtt_server.cpp and include/apr/tcp_session.hpp: a connection
-- that is accepted, a read or write that has ended, an idle timer, and the end of a session's life.
-- The handlers of one session do not overlap (its strand), and those of two are taken one after the
-- other here.
use lightapr.Prelude.{
  ℕ, zero, suc, true, false, Option, none, some, List, [], ◌∷◌, ◌++◌, if◌then◌else◌,
}
use lightapr.Prelude.Text.{Text}
use lightapr.Accumulator as Accumulator
use lightapr.Guard.{Limits, Guard, try_acquire}
use lightapr.Json.{Json}
use lightapr.Memory.{MemoryTracker}
use lightapr.Registry.{Registry}
use lightapr.MqttServer.{Settings, Session, Server, with_me, close_session, end_session}
use lightapr.MqttServer.Stream.{Ended, done, returned, thrown, out_of_fuel, on_bytes_read}

-- All the sessions that there have been, the last accepted first.
pub record World (V : Type 0) : Type 0 where
  pub sessions : List Session
  pub registry : Registry V
  pub guard : Guard
  pub memory : MemoryTracker

-- What happens to one session.
pub data Happening : Type 0 where
  bytes_read : Text → Happening
  read_failed : Happening
  idle_timeout : Happening
  write_done : Happening
  write_failed : Happening
  destroyed : Happening

-- A connection has the address that do_accept reads of its peer and the one that the constructor of
-- tcp_session_base reads again: each is an asio call of its own that may fail, which leaves it empty.
pub data Event : Type 0 where
  accepted : Text → Text → Event
  happens : ℕ → Happening → Event

-- The members as they are initialised, with the read that start() begins.
unfoldable pub new_session : Text → Session
new_session peer_ip = record {
  peer_ip = peer_ip;
  closed = false;
  closing = false;
  listed = true;
  reading = true;
  is_websocket = false;
  ws_handshake_done = false;
  authenticated = false;
  client_id = [];
  username = [];
  role = [];
  node_id = [];
  subscriptions = [];
  rx_acc = Accumulator.new;
  outbox = [];
}

-- The sessions before the one at an index, that one, and those after it.
unfoldable pub split_sessions :
    ℕ → List Session → List Session → Option (List Session × Session × List Session)
split_sessions i front [] = none
split_sessions zero front (s ∷ ss) = some (front, s, ss)
split_sessions (suc i) front (s ∷ ss) = split_sessions i (front ++ (s ∷ [])) ss

module _ {V : Type 0} where
  unfoldable pub focus : World V → ℕ → Option (Server V)
  focus w i = elim (split_sessions i [] w.sessions) [
    | none ↦ none
    | some (front, s, back) ↦ some (record {
      before = front;
      me = s;
      after = back;
      registry = w.registry;
      guard = w.guard;
      memory = w.memory;
    })
  ]

  unfoldable pub unfocus : Server V → World V
  unfocus s = record {
    sessions = s.before ++ (s.me ∷ s.after);
    registry = s.registry;
    guard = s.guard;
    memory = s.memory;
  }

  -- do_accept: the guard is asked for the first address, and a session, which has the second, made
  -- and put in the set.
  unfoldable pub do_accept : Limits → World V → Text → Text → ℕ → World V
  do_accept l w peer_ip own_ip now =
      let (admitted, g) = try_acquire l w.guard peer_ip now in
      if admitted
      then record w { sessions = new_session own_ip ∷ w.sessions; guard = g }
      else record w { guard = g }

  -- The read that was waited for has ended.
  unfoldable pub read_over : Server V → Server V
  read_over s = with_me s (record s.me { reading = false })

  -- The world after a handler. An exception leaves the handler, and the state is as it was then.
  unfoldable pub left_by : World V → Ended V → World V
  left_by w (done s) = unfocus s
  left_by w (returned s) = unfocus s
  left_by w (thrown s) = unfocus s
  left_by w out_of_fuel = w

module _ {V : Type 0} (J : Json V) (stoul : Text → Option ℕ) (c : Settings) where
  -- The timer runs while a read is waited for, and its end leaves that read to fail. Only the
  -- write of send_raw_and_close closes when it has succeeded.
  unfoldable pub handle : Server V → Happening → ℕ → Ended V
  handle s (bytes_read bytes) now =
      if s.me.reading then on_bytes_read J stoul c (read_over s) bytes now else done s
  handle s read_failed now =
      if s.me.reading then done (end_session J stoul (read_over s) now) else done s
  handle s idle_timeout now = if s.me.reading then done (end_session J stoul s now) else done s
  handle s write_done now = if s.me.closing then done (end_session J stoul s now) else done s
  handle s write_failed now = done (end_session J stoul s now)
  handle s destroyed now = done (close_session J stoul s now)

  unfoldable pub step : Limits → World V → Event → ℕ → World V
  step l w (accepted peer_ip own_ip) now = do_accept l w peer_ip own_ip now
  step l w (happens i h) now = elim (focus w i) [ none ↦ w | some s ↦ left_by w (handle s h now) ]

  -- The events one after the other, each with the time.
  unfoldable pub run : Limits → World V → List (Event × ℕ) → World V
  run l w [] = w
  run l w ((e, now) ∷ es) = run l (step l w e now) es
