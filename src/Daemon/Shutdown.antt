-- ===== src/Daemon/Shutdown.antt =====
-- The end of main in src/main.cpp: the locals are destroyed, the last declared first. `pending` says of
-- a session whether the io_context holds a handler that holds it, as it does from start_read_loop
-- until the read has ended; asio destroys such handlers with the io_context.
pub mod Dangling
use lightapr.Prelude.{
  ℕ, ◌+◌, ◌≡◌, refl, ap, ◌∙◌, Bool, true, false, not, ◌||◌, List, [], ◌∷◌, ◌++◌, arith,
  if◌then◌else◌, Bool-cases, inl, inr,
}
use mathlib.Core.List.{reverse}
use lightapr.Prelude.Text.{empty}
use lightapr.Options.{CliOptions}
use lightapr.MqttServer.{Session}
use lightapr.Daemon.{has_ws_server}

pub data Local : Type 0 where
  io_context : Local
  registry : Local
  sweep_timer : Local
  conn_guard : Local
  mqtt_srv : Local
  mqtt_ws_srv : Local
  http_srv : Local

-- The sessions of the two servers that are not destroyed yet, whether the registry and the guard are
-- there, and the calls that were made of them when they were not.
pub record Ending : Type 0 where
  pub sessions : List Session
  pub ws_sessions : List Session
  pub registry_alive : Bool
  pub guard_alive : Bool
  pub dangling_releases : ℕ
  pub dangling_marks : ℕ

unfoldable pub declared : CliOptions → List Local
declared opts =
    io_context
    ∷ registry
    ∷ sweep_timer
    ∷ conn_guard
    ∷ mqtt_srv
    ∷ ((if has_ws_server opts then mqtt_ws_srv ∷ [] else []) ++ (http_srv ∷ []))

-- ~mqtt_session, which closes a session that is open: the guard is asked to release it, and the
-- registry to put its node in the grace period.
unfoldable pub destroy_session : Session → Ending → Ending
destroy_session s e = if s.closed then e else record e {
  dangling_releases = if e.guard_alive then e.dangling_releases else e.dangling_releases + 1;
  dangling_marks =
      if e.registry_alive || empty s.node_id then e.dangling_marks else e.dangling_marks + 1;
}

unfoldable pub destroy_sessions : List Session → Ending → Ending
destroy_sessions [] e = e
destroy_sessions (s ∷ ss) e = destroy_sessions ss (destroy_session s e)

unfoldable pub held : (Session → Bool) → List Session → List Session
held pending [] = []
held pending (s ∷ ss) = let rest = held pending ss in if pending s then s ∷ rest else rest

module _ (pending : Session → Bool) where
  -- A server's stop clears its set, and what no handler holds is destroyed. The http_server has no
  -- set, and its sessions no destructor.
  unfoldable pub destroy : Local → Ending → Ending
  destroy io_context e =
      destroy_sessions (e.sessions ++ e.ws_sessions) (record e { sessions = []; ws_sessions = [] })
  destroy registry e = record e { registry_alive = false }
  destroy sweep_timer e = e
  destroy conn_guard e = record e { guard_alive = false }
  destroy mqtt_srv e =
      destroy_sessions (held (λ s. not (pending s)) e.sessions)
        (record e { sessions = held pending e.sessions })
  destroy mqtt_ws_srv e =
      destroy_sessions (held (λ s. not (pending s)) e.ws_sessions)
        (record e { ws_sessions = held pending e.ws_sessions })
  destroy http_srv e = e

  unfoldable pub destroy_all : List Local → Ending → Ending
  destroy_all [] e = e
  destroy_all (l ∷ ls) e = destroy_all ls (destroy l e)

  unfoldable pub shutdown : CliOptions → List Session → List Session → Ending
  shutdown opts sessions ws_sessions = destroy_all (reverse (declared opts)) (record {
    sessions = sessions;
    ws_sessions = if has_ws_server opts then ws_sessions else [];
    registry_alive = true;
    guard_alive = true;
    dangling_releases = 0;
    dangling_marks = 0;
  })
