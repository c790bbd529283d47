-- ===== src/Daemon/Shutdown/Dangling.antt =====
-- What the sessions that are open at the end of src/main.cpp call.
use lightapr.Prelude.{
  ℕ, ◌+◌, ◌≡◌, refl, Bool, true, false, not, ◌||◌, List, [], ◌∷◌, ◌++◌, arith, if◌then◌else◌,
  Bool-cases, inl, inr,
}
use lightapr.Prelude.Text.{empty}
use lightapr.Options.{CliOptions}
use lightapr.MqttServer.{Session}
use lightapr.Daemon.{has_ws_server}
use lightapr.Daemon.Shutdown.{
  mqtt_srv, conn_guard, sweep_timer, registry, io_context, Ending, declared, destroy_session,
  destroy_sessions, held, destroy, destroy_all, shutdown,
}

-- The sessions that are open, and those of them that have registered a node.
unfoldable pub open_count : List Session → ℕ
open_count [] = 0
open_count (s ∷ ss) = (if s.closed then 0 else 1) + open_count ss

unfoldable pub named_count : List Session → ℕ
named_count [] = 0
named_count (s ∷ ss) = (if s.closed || empty s.node_id then 0 else 1) + named_count ss

destroy_session-alive :
    (s : Session) (e : Ending)
    → (e.guard_alive ≡ true) × (e.registry_alive ≡ true)
    → destroy_session s e ≡ e
unfolding destroy_session
destroy_session-alive s e a = ground (arith, a)

destroy_sessions-alive :
    (ss : List Session) (e : Ending)
    → (e.guard_alive ≡ true) × (e.registry_alive ≡ true)
    → destroy_sessions ss e ≡ e
unfolding destroy_sessions
destroy_sessions-alive [] e a = refl
destroy_sessions-alive (s ∷ ss) e a =
    rw (destroy_session-alive s e a) (destroy_sessions-alive ss e a)

destroy_session-dead :
    (s : Session) (e : Ending)
    → (e.guard_alive ≡ false) × (e.registry_alive ≡ false)
    → let e' = destroy_session s e in
      (e'.guard_alive ≡ false)
      × (e'.registry_alive ≡ false)
      × (e'.dangling_releases ≡ e.dangling_releases + (if s.closed then 0 else 1))
      × (e'.dangling_marks ≡ e.dangling_marks + (if s.closed || empty s.node_id then 0 else 1))
unfolding destroy_session
destroy_session-dead s e a = ground (arith, a)

destroy_sessions-dead :
    (ss : List Session) (e : Ending)
    → (e.guard_alive ≡ false) × (e.registry_alive ≡ false)
    → let e' = destroy_sessions ss e in
      (e'.dangling_releases ≡ e.dangling_releases + open_count ss)
      × (e'.dangling_marks ≡ e.dangling_marks + named_count ss)
unfolding destroy_sessions open_count named_count
destroy_sessions-dead [] e a = omega arith
destroy_sessions-dead (s ∷ ss) e a =
    let one = destroy_session-dead s e a in
    let more = destroy_sessions-dead ss (destroy_session s e) (one.0, one.1) in
    omega (arith, one, more)

open_count-append : (xs ys : List Session) → open_count (xs ++ ys) ≡ open_count xs + open_count ys
unfolding open_count
open_count-append [] ys = omega arith
open_count-append (x ∷ xs) ys = omega (arith, open_count-append xs ys)

named_count-append :
    (xs ys : List Session) → named_count (xs ++ ys) ≡ named_count xs + named_count ys
unfolding named_count
named_count-append [] ys = omega arith
named_count-append (x ∷ xs) ys = omega (arith, named_count-append xs ys)

-- From the stop of the first server on.
last_locals :
    (pending : Session → Bool) (e : Ending)
    → (e.guard_alive ≡ true) × (e.registry_alive ≡ true)
    → let left =
        destroy_all pending (mqtt_srv ∷ conn_guard ∷ sweep_timer ∷ registry ∷ io_context ∷ []) e in
      (left.dangling_releases
        ≡ e.dangling_releases + open_count (held pending e.sessions) + open_count e.ws_sessions)
      × (left.dangling_marks
          ≡ e.dangling_marks + named_count (held pending e.sessions) + named_count e.ws_sessions)
unfolding destroy_all destroy
last_locals pending e a =
    let kept = held pending e.sessions in
    let stopped = record e { sessions = kept } in
    let dead = record stopped {
      sessions = [];
      ws_sessions = [];
      guard_alive = false;
      registry_alive = false;
    } in
    let counts = destroy_sessions-dead (kept ++ e.ws_sessions) dead (refl, refl) in
    rw (destroy_sessions-alive (held (λ s. not (pending s)) e.sessions) stopped a) (
      omega (
        arith,
        counts,
        open_count-append kept e.ws_sessions,
        named_count-append kept e.ws_sessions,
      ))

fresh : List Session → List Session → Ending
fresh sessions ws_sessions = record {
  sessions = sessions;
  ws_sessions = ws_sessions;
  registry_alive = true;
  guard_alive = true;
  dangling_releases = 0;
  dangling_marks = 0;
}

-- When main ends, every session that is open and that a handler of the io_context holds, as one that
-- waits for its client does, asks the guard to release it after the guard is destroyed, and if it
-- has registered a node, the registry to mark it after the registry is: there are exactly as many
-- such calls as such sessions, of both servers.
pub shutdown-dangles :
    (pending : Session → Bool) (opts : CliOptions) (sessions ws_sessions : List Session)
    → let ws = if has_ws_server opts then ws_sessions else [] in
      let left = shutdown pending opts sessions ws_sessions in
      (left.dangling_releases ≡ open_count (held pending sessions) + open_count (held pending ws))
      × (left.dangling_marks ≡ named_count (held pending sessions) + named_count (held pending ws))
unfolding shutdown declared destroy_all destroy held open_count named_count fresh
shutdown-dangles pending opts sessions ws_sessions = elim (Bool-cases (has_ws_server opts)) [
  | inl e ↦
      rw (shutdown, e)
        (rw
          (destroy_sessions-alive (held (λ s. not (pending s)) ws_sessions)
            (fresh sessions (held pending ws_sessions)) (refl, refl))
          (omega
            (arith, last_locals pending (fresh sessions (held pending ws_sessions)) (refl, refl))))
  | inr e ↦ rw (shutdown, e) (omega (arith, last_locals pending (fresh sessions []) (refl, refl)))
]
