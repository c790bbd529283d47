-- ===== src/Daemon.antt =====
-- src/main.cpp: how the daemon starts. What std::getenv gives, std::stoul, the system and the number of
-- cores are arguments.
pub mod Sweeping
pub mod Expiry
pub mod PosixPlatform
pub mod Startup
pub mod Shutdown
mod Tests
use lightapr.Prelude.{
  ℕ, ◌-◌, Bool, true, false, not, ◌&&◌, Option, none, some, List, [], ◌∷◌, ◌++◌, ltb, ◌==◌, min,
  if◌then◌else◌,
}
use lightapr.Prelude.Text.{Text, codes}
use lightapr.Guard.{Limits}
use lightapr.Options.{CliOptions}
use lightapr.Daemon.PosixPlatform.{
  Posix, Platform, new_platform, acquire_single_instance_lock, initialize_daemon,
}

pub record Environment : Type 0 where
  pub cell_id : Option Text
  pub access_key : Option Text
  pub worker_threads : Option Text
  pub threads : Option Text

unfoldable pub or_given : Option Text → Text → Text
or_given none x = x
or_given (some v) x = v

-- WORKER_THREADS, or THREADS if that is not set; `none` is an exception, which nothing catches.
unfoldable pub env_threads : (Text → Option ℕ) → Environment → Option ℕ
env_threads stoul env = elim env.worker_threads [
  | some t ↦ stoul t
  | none ↦ elim env.threads [ some t ↦ stoul t | none ↦ some 0 ]
]

unfoldable pub with_environment : (Text → Option ℕ) → Environment → CliOptions → Option CliOptions
with_environment stoul env opts =
    let opts' = record opts {
      cell_id = or_given env.cell_id opts.cell_id;
      access_key = or_given env.access_key opts.access_key;
    } in
    if opts.threads == 0
    then elim (env_threads stoul env) [ none ↦ none | some n ↦ some (record opts' { threads = n }) ]
    else some opts'

-- `std::max<size_t>(2, hardware)`
unfoldable pub max_size : ℕ → ℕ → ℕ
max_size a b = if ltb a b then b else a

unfoldable pub num_threads : CliOptions → ℕ → ℕ
num_threads opts hardware = if opts.threads == 0 then max_size 2 hardware else opts.threads

unfoldable pub connection_limits : CliOptions → Limits
connection_limits opts = record {
  max_total_connections = opts.max_connections;
  max_connections_per_ip = opts.max_connections_per_ip;
  max_new_connections_per_ip = opts.max_new_connections_per_ip;
  rate_window = opts.connection_rate_window_sec;
}

pub data Listener : Type 0 where
  mqtt : ℕ → Listener
  mqtt_websocket : ℕ → Listener
  http : ℕ → Listener

-- `opts.ws_port > 0 && opts.ws_port != opts.mqtt_port`
unfoldable pub has_ws_server : CliOptions → Bool
has_ws_server opts = ltb 0 opts.ws_port && not (opts.ws_port == opts.mqtt_port)

-- The servers in the order in which they start, each with its port.
unfoldable pub listeners : CliOptions → List Listener
unfolding has_ws_server
listeners opts =
    mqtt opts.mqtt_port
    ∷ ((if has_ws_server opts then mqtt_websocket opts.ws_port ∷ [] else [])
        ++ (http opts.http_port ∷ []))

-- A process that has returned from main, or that goes on: whether initialize_daemon said true, which
-- main does not ask, with the platform.
pub data Started (P : Type 0) : Type 0 where
  exited : ℕ → P → Started P
  runs : Bool → Platform → P → Started P

module _ {P : Type 0} (O : Posix P) where
  -- The constructor of async_logger: the file, and the worker thread.
  unfoldable pub start_logger : CliOptions → P → P
  start_logger opts p = O.start_thread (
      if opts.standalone then p else elim (O.open_file opts.log_file p) [ none ↦ p | some t ↦ t.1 ])

  unfoldable pub become_daemon : P → Started P
  become_daemon p =
      let (locked, l, q) = acquire_single_instance_lock O (codes "lightapr") p in
      let (said, r) = initialize_daemon O q in if not locked then exited 1 q else runs said l r

  -- Up to the io_context.
  unfoldable pub startup : CliOptions → P → Started P
  startup opts p =
      let q = start_logger opts p in
      if not opts.standalone then become_daemon q else runs false new_platform q
