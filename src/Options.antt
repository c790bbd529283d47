-- ===== src/Options.antt =====
-- include/apr/cli_options.hpp and src/core/cli_options.cpp: the options of the daemon. std::stoul is
-- a parameter, `none` where it throws. A config file that was opened and parsed is the record of
-- what nlohmann/json finds under a key when it is of the type asked for.
mod Tests
pub mod Flags
pub mod Order
use lightapr.Prelude.{ℕ, ◌%◌, ◌^◌, Bool, true, false, Option, none, some}
use lightapr.Prelude.Text.{Text, codes}

pub record CliOptions : Type 0 where
  pub standalone : Bool
  pub cell_id : Text
  pub access_key : Text
  pub mqtt_port : ℕ
  pub ws_port : ℕ
  pub http_port : ℕ
  pub threads : ℕ
  pub log_file : Text
  pub log_level : Text
  pub session_idle_timeout_sec : ℕ
  pub max_session_buffer_bytes : ℕ
  pub max_node_extra_bytes : ℕ
  pub max_connections : ℕ
  pub max_connections_per_ip : ℕ
  pub max_new_connections_per_ip : ℕ
  pub connection_rate_window_sec : ℕ
  pub max_requests_per_connection : ℕ
  pub monitor_enabled : Bool
  pub tester_enabled : Bool

-- The members as they are initialised.
unfoldable pub default_options : CliOptions
default_options = record {
  standalone = false;
  cell_id = codes "default_cell";
  access_key = codes "lightapr_secret_key";
  mqtt_port = 1883;
  ws_port = 8083;
  http_port = 8080;
  threads = 0;
  log_file = codes "lightapr.log";
  log_level = codes "info";
  session_idle_timeout_sec = 90;
  max_session_buffer_bytes = 262144;
  max_node_extra_bytes = 8192;
  max_connections = 10000;
  max_connections_per_ip = 100;
  max_new_connections_per_ip = 20;
  connection_rate_window_sec = 10;
  max_requests_per_connection = 10000;
  monitor_enabled = false;
  tester_enabled = false;
}

-- The values set by flags; `none` is a flag that was not given.
pub record CliOverrides : Type 0 where
  pub standalone : Option Bool
  pub cell_id : Option Text
  pub access_key : Option Text
  pub mqtt_port : Option ℕ
  pub ws_port : Option ℕ
  pub http_port : Option ℕ
  pub threads : Option ℕ
  pub log_file : Option Text
  pub log_level : Option Text
  pub session_idle_timeout_sec : Option ℕ
  pub max_session_buffer_bytes : Option ℕ
  pub max_node_extra_bytes : Option ℕ
  pub max_connections : Option ℕ
  pub max_connections_per_ip : Option ℕ
  pub max_new_connections_per_ip : Option ℕ
  pub connection_rate_window_sec : Option ℕ
  pub max_requests_per_connection : Option ℕ
  pub monitor_enabled : Option Bool
  pub tester_enabled : Option Bool

unfoldable pub no_overrides : CliOverrides
no_overrides = record {
  standalone = none;
  cell_id = none;
  access_key = none;
  mqtt_port = none;
  ws_port = none;
  http_port = none;
  threads = none;
  log_file = none;
  log_level = none;
  session_idle_timeout_sec = none;
  max_session_buffer_bytes = none;
  max_node_extra_bytes = none;
  max_connections = none;
  max_connections_per_ip = none;
  max_new_connections_per_ip = none;
  connection_rate_window_sec = none;
  max_requests_per_connection = none;
  monitor_enabled = none;
  tester_enabled = none;
}

pub record ConfigFile : Type 0 where
  pub boolean : Text → Option Bool
  pub string : Text → Option Text
  pub unsigned : Text → Option ℕ

-- The value that is there, or the one before.
unfoldable pub or_else {ℓ} : {A : Type ℓ} → Option A → A → A
or_else none a = a
or_else (some b) a = b

-- get<uint16_t>
unfoldable pub to_port : Option ℕ → Option ℕ
to_port none = none
to_port (some n) = some (n % 2 ^ 16)

unfoldable pub load_from_file : Option ConfigFile → CliOptions → Bool × CliOptions
load_from_file none opts = (false, opts)
load_from_file (some j) opts = (
  true,
  record {
    standalone = or_else (j.boolean (codes "standalone")) opts.standalone;
    cell_id = or_else (j.string (codes "cell_id")) opts.cell_id;
    access_key = or_else (j.string (codes "access_key")) opts.access_key;
    mqtt_port = or_else (to_port (j.unsigned (codes "mqtt_port"))) opts.mqtt_port;
    ws_port = or_else (to_port (j.unsigned (codes "ws_port"))) opts.ws_port;
    http_port = or_else (to_port (j.unsigned (codes "http_port"))) opts.http_port;
    threads = or_else (j.unsigned (codes "threads")) opts.threads;
    log_file = or_else (j.string (codes "log_file")) opts.log_file;
    log_level = or_else (j.string (codes "log_level")) opts.log_level;
    session_idle_timeout_sec =
        or_else (j.unsigned (codes "session_idle_timeout_sec")) opts.session_idle_timeout_sec;
    max_session_buffer_bytes =
        or_else (j.unsigned (codes "max_session_buffer_bytes")) opts.max_session_buffer_bytes;
    max_node_extra_bytes =
        or_else (j.unsigned (codes "max_node_extra_bytes")) opts.max_node_extra_bytes;
    max_connections = or_else (j.unsigned (codes "max_connections")) opts.max_connections;
    max_connections_per_ip =
        or_else (j.unsigned (codes "max_connections_per_ip")) opts.max_connections_per_ip;
    max_new_connections_per_ip =
        or_else (j.unsigned (codes "max_new_connections_per_ip")) opts.max_new_connections_per_ip;
    connection_rate_window_sec =
        or_else (j.unsigned (codes "connection_rate_window_sec")) opts.connection_rate_window_sec;
    max_requests_per_connection =
        or_else (j.unsigned (codes "max_requests_per_connection")) opts.max_requests_per_connection;
    monitor_enabled = or_else (j.boolean (codes "monitor")) opts.monitor_enabled;
    tester_enabled = or_else (j.boolean (codes "tester")) opts.tester_enabled;
  },
)

unfoldable pub apply_overrides : CliOverrides → CliOptions → CliOptions
apply_overrides ov opts = record {
  standalone = or_else ov.standalone opts.standalone;
  cell_id = or_else ov.cell_id opts.cell_id;
  access_key = or_else ov.access_key opts.access_key;
  mqtt_port = or_else ov.mqtt_port opts.mqtt_port;
  ws_port = or_else ov.ws_port opts.ws_port;
  http_port = or_else ov.http_port opts.http_port;
  threads = or_else ov.threads opts.threads;
  log_file = or_else ov.log_file opts.log_file;
  log_level = or_else ov.log_level opts.log_level;
  session_idle_timeout_sec = or_else ov.session_idle_timeout_sec opts.session_idle_timeout_sec;
  max_session_buffer_bytes = or_else ov.max_session_buffer_bytes opts.max_session_buffer_bytes;
  max_node_extra_bytes = or_else ov.max_node_extra_bytes opts.max_node_extra_bytes;
  max_connections = or_else ov.max_connections opts.max_connections;
  max_connections_per_ip = or_else ov.max_connections_per_ip opts.max_connections_per_ip;
  max_new_connections_per_ip =
      or_else ov.max_new_connections_per_ip opts.max_new_connections_per_ip;
  connection_rate_window_sec =
      or_else ov.connection_rate_window_sec opts.connection_rate_window_sec;
  max_requests_per_connection =
      or_else ov.max_requests_per_connection opts.max_requests_per_connection;
  monitor_enabled = or_else ov.monitor_enabled opts.monitor_enabled;
  tester_enabled = or_else ov.tester_enabled opts.tester_enabled;
}
