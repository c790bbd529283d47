-- ===== src/Daemon/Tests.antt =====
-- Runs of the daemon of src/main.cpp.
use lightapr.Prelude.{◌≡◌, ◌≤◌, inr, refl, arith, true, false, none, some, List, [], ◌∷◌, ℕ, ◌+◌}
use lightapr.Prelude.Dict.{lookup}
use lightapr.Prelude.Int.{pos}
use lightapr.Prelude.Text.{codes, text_eq}
use lightapr.Json.Samples.{Value, sample_json}
use lightapr.Node.{NodeInfo, grace}
use lightapr.Registry.{has_worker}
use lightapr.Registry.Extra.{extra_total}
use lightapr.Registry.Validity.{resolve, IsValid, nodes_total}
use lightapr.Client.Following.{events}
use lightapr.Daemon.Expiry.{Undisturbed, run-gone}
use lightapr.Options.{CliOptions}
use lightapr.MqttServer.{Session}
use lightapr.MqttServer.Events.{new_session}
use lightapr.Daemon.{
  runs, startup, become_daemon, start_logger, listeners, mqtt, mqtt_websocket, http, has_ws_server,
  with_environment, env_threads, or_given, num_threads, max_size,
}
use lightapr.Daemon.PosixPlatform.{
  acquire_single_instance_lock, open_pid_file, lock_pid_file, initialize_daemon,
}
use lightapr.Daemon.PosixPlatform.Samples.{Process, sample_posix, sample_posix-IsLawful}
use lightapr.Daemon.Shutdown.{held, shutdown}
use lightapr.Daemon.Shutdown.Dangling.{open_count, named_count, shutdown-dangles}
use lightapr.Daemon.Startup.{Bereft, startup-Bereft}
use lightapr.Daemon.Sweeping.{Sweeper, Happening, call, timer, do_sweep, step, run}

-- A node whose client went away at second nine.
abbrev left_node : NodeInfo Value
left_node = record {
  id = codes "n1";
  role = codes "web";
  workers = [];
  endpoint = none;
  status = grace;
  added_at = 5;
  active_at = 9;
  expires_in = some 180;
  extra = [];
}

abbrev sweeper : Sweeper Value
sweeper = record {
  registry = record {
    nodes = (codes "n1", left_node) ∷ [];
    rr_indices = [];
    id_counter = 2;
    registry_bytes = pos 0;
    extra_bytes = pos 0;
  };
  expires = 14;
}

sweeper-IsValid : IsValid sample_json.dump 8192 200 sweeper.registry
unfolding nodes_total lookup extra_total
sweeper-IsValid = record {
  distinct = (refl, tt);
  each = (
    record { own_id = refl; status_fits = inr (refl, refl); announced = tt; distinct_extra = tt },
    tt,
  );
  exact = refl;
}

-- The timer is up to a minute late.
abbrev happenings : List (Happening Value × ℕ)
happenings =
    (timer false, 14)
    ∷ (call (resolve (codes "web") []), 20)
    ∷ (timer false, 79)
    ∷ (timer false, 144)
    ∷ (timer false, 209)
    ∷ []

quiet : Undisturbed sample_json.dump 8192 200 (codes "n1") 60 sweeper happenings
unfolding step do_sweep events
quiet = (
  refl,
  omega arith,
  (tt, omega arith, (refl, omega arith, (refl, omega arith, (refl, omega arith, tt)))),
)

last_wait : 260 ≤ (run sample_json.dump 8192 200 sweeper happenings).expires + 60
unfolding run step do_sweep
last_wait = omega arith

run-gone_example :
    lookup (codes "n1") (run sample_json.dump 8192 200 sweeper happenings).registry.nodes ≡ none
unfolding lookup text_eq
run-gone_example =
    run-gone sample_json.dump 8192 200 (codes "n1") left_node 60 260 happenings sweeper
      sweeper-IsValid refl refl (omega arith) quiet last_wait (omega arith)

-- A process before main.
abbrev process : Process
process = record { locks = []; threads = 0; files = λ i. none; next_fd = 3 }

abbrev daemon_options : CliOptions
daemon_options = record {
  standalone = false;
  cell_id = codes "cell";
  access_key = codes "key";
  mqtt_port = 1883;
  ws_port = 8083;
  http_port = 8080;
  threads = 0;
  log_file = codes "/var/log/lightapr.log";
  log_level = codes "info";
  session_idle_timeout_sec = 90;
  max_session_buffer_bytes = 262144;
  max_node_extra_bytes = 8192;
  max_connections = 10000;
  max_connections_per_ip = 100;
  max_new_connections_per_ip = 20;
  connection_rate_window_sec = 10;
  max_requests_per_connection = 10000;
  monitor_enabled = false;
  tester_enabled = false;
}

startup-Bereft_example :
    Bereft sample_posix sample_posix-IsLawful (startup sample_posix daemon_options process)
startup-Bereft_example =
    startup-Bereft sample_posix sample_posix-IsLawful daemon_options process refl

-- The lock is there before the process becomes a daemon, and the log has a worker.
locked_before :
    let q =
      (acquire_single_instance_lock sample_posix
        (codes "lightapr")
        (start_logger sample_posix daemon_options process)).2 in
    (sample_posix.locked q (codes "/var/run/lightapr.pid") ≡ true) × (sample_posix.threads q ≡ 1)
unfolding acquire_single_instance_lock open_pid_file lock_pid_file start_logger has_worker text_eq
locked_before = (refl, refl)

-- It goes on, and its platform takes the descriptor 4 for its own.
daemon_runs :
    (q : Process) × (startup sample_posix daemon_options process
      ≡ runs true (record { pid_fd = some 4; pid_file_path = codes "/var/run/lightapr.pid" }) q)
unfolding startup become_daemon start_logger acquire_single_instance_lock open_pid_file
    lock_pid_file initialize_daemon
daemon_runs = (_, refl)

three_listeners : listeners daemon_options ≡ mqtt 1883 ∷ mqtt_websocket 8083 ∷ http 8080 ∷ []
unfolding listeners
three_listeners = refl

threads_of_environment :
    with_environment
      (λ t. some 7)
      (record {
        cell_id = some (codes "other");
        access_key = none;
        worker_threads = none;
        threads = some (codes "7");
      })
      daemon_options
    ≡ some (record daemon_options { cell_id = codes "other"; threads = 7 })
unfolding with_environment env_threads or_given
threads_of_environment = refl

at_least_two : num_threads daemon_options 1 ≡ 2
unfolding num_threads max_size
at_least_two = refl

-- A client that is connected when the daemon is stopped, with its node registered.
abbrev connected : Session
connected = record (new_session (codes "10.0.0.1")) { authenticated = true; node_id = codes "n1" }

shutdown-dangles_example :
    let left = shutdown (λ s. s.reading) daemon_options (connected ∷ []) [] in
    (left.dangling_releases ≡ 1) × (left.dangling_marks ≡ 1)
unfolding new_session open_count named_count held has_ws_server
shutdown-dangles_example = shutdown-dangles (λ s. s.reading) daemon_options (connected ∷ []) []
