-- ===== src/Options/Flags.antt =====
-- The pass over the arguments in src/core/cli_options.cpp.
use lightapr.Prelude.{
  ℕ, ◌%◌, ◌^◌, Bool, true, false, ◌||◌, Option, none, some, List, [], ◌∷◌, if◌then◌else◌,
}
use lightapr.Prelude.Text.{Text, codes, text_eq}
use lightapr.Options.{
  CliOptions, CliOverrides, ConfigFile, default_options, no_overrides, load_from_file,
  apply_overrides,
}

pub data Flag : Type 0 where
  standalone_flag cell_id_flag access_key_flag mqtt_port_flag ws_port_flag http_port_flag
        threads_flag log_file_flag log_level_flag idle_timeout_flag max_buffer_bytes_flag
        max_node_extra_bytes_flag max_connections_flag max_connections_per_ip_flag
        max_new_connections_per_ip_flag connection_rate_window_sec_flag
        max_requests_per_connection_flag monitor_flag tester_flag config_flag :
      Flag

-- The flag that an argument is.
unfoldable pub flag_of : Text → Option Flag
flag_of arg =
    if text_eq arg (codes "-s") || text_eq arg (codes "--standalone")
    then some standalone_flag
    else if text_eq arg (codes "-c") || text_eq arg (codes "--cell-id")
    then some cell_id_flag
    else if text_eq arg (codes "-k") || text_eq arg (codes "--access-key")
    then some access_key_flag
    else if text_eq arg (codes "-p") || text_eq arg (codes "--port")
    then some mqtt_port_flag
    else if text_eq arg (codes "-w") || text_eq arg (codes "--ws-port")
    then some ws_port_flag
    else if text_eq arg (codes "-h") || text_eq arg (codes "--http-port")
    then some http_port_flag
    else if text_eq arg (codes "-t") || text_eq arg (codes "--threads")
    then some threads_flag
    else if text_eq arg (codes "-l") || text_eq arg (codes "--log-file")
    then some log_file_flag
    else if text_eq arg (codes "-v") || text_eq arg (codes "--log-level")
    then some log_level_flag
    else if text_eq arg (codes "--idle-timeout")
    then some idle_timeout_flag
    else if text_eq arg (codes "--max-buffer-bytes")
    then some max_buffer_bytes_flag
    else if text_eq arg (codes "--max-node-extra-bytes")
    then some max_node_extra_bytes_flag
    else if text_eq arg (codes "--max-connections")
    then some max_connections_flag
    else if text_eq arg (codes "--max-connections-per-ip")
    then some max_connections_per_ip_flag
    else if text_eq arg (codes "--max-new-connections-per-ip")
    then some max_new_connections_per_ip_flag
    else if text_eq arg (codes "--connection-rate-window-sec")
    then some connection_rate_window_sec_flag
    else if text_eq arg (codes "--max-requests-per-connection")
    then some max_requests_per_connection_flag
    else if text_eq arg (codes "--monitor")
    then some monitor_flag
    else if text_eq arg (codes "--tester")
    then some tester_flag
    else if text_eq arg (codes "-f") || text_eq arg (codes "--config")
    then some config_flag
    else none

-- Whether the next argument is the flag's value.
unfoldable pub takes_value : Flag → Bool
takes_value standalone_flag = false
takes_value cell_id_flag = true
takes_value access_key_flag = true
takes_value mqtt_port_flag = true
takes_value ws_port_flag = true
takes_value http_port_flag = true
takes_value threads_flag = true
takes_value log_file_flag = true
takes_value log_level_flag = true
takes_value idle_timeout_flag = true
takes_value max_buffer_bytes_flag = true
takes_value max_node_extra_bytes_flag = true
takes_value max_connections_flag = true
takes_value max_connections_per_ip_flag = true
takes_value max_new_connections_per_ip_flag = true
takes_value connection_rate_window_sec_flag = true
takes_value max_requests_per_connection_flag = true
takes_value monitor_flag = false
takes_value tester_flag = false
takes_value config_flag = true

-- What the pass over the arguments remembers: the overrides and the path of the config file.
pub record Pass : Type 0 where
  pub overrides : CliOverrides
  pub config_path : Option Text

-- What follows a branch that did not throw.
unfoldable pub and_then : Option Pass → (Pass → Option Pass) → Option Pass
and_then none f = none
and_then (some p) f = f p

module _ (stoul : Text → Option ℕ) where
  -- A number in place, unless std::stoul throws.
  unfoldable pub with_number : Text → (ℕ → Pass) → Option Pass
  with_number value f = elim (stoul value) [ none ↦ none | some n ↦ some (f n) ]

  -- The branch of a flag, with the value where it takes one.
  unfoldable pub apply_flag : Flag → Text → Pass → Option Pass
  apply_flag standalone_flag value p =
      some (record p { overrides = record p.overrides { standalone = some true } })
  apply_flag cell_id_flag value p =
      some (record p { overrides = record p.overrides { cell_id = some value } })
  apply_flag access_key_flag value p =
      some (record p { overrides = record p.overrides { access_key = some value } })
  apply_flag mqtt_port_flag value p =
      with_number value
        (λ n. record p { overrides = record p.overrides { mqtt_port = some (n % 2 ^ 16) } })
  apply_flag ws_port_flag value p =
      with_number value
        (λ n. record p { overrides = record p.overrides { ws_port = some (n % 2 ^ 16) } })
  apply_flag http_port_flag value p =
      with_number value
        (λ n. record p { overrides = record p.overrides { http_port = some (n % 2 ^ 16) } })
  apply_flag threads_flag value p =
      with_number value (λ n. record p { overrides = record p.overrides { threads = some n } })
  apply_flag log_file_flag value p =
      some (record p { overrides = record p.overrides { log_file = some value } })
  apply_flag log_level_flag value p =
      some (record p { overrides = record p.overrides { log_level = some value } })
  apply_flag idle_timeout_flag value p =
      with_number value
        (λ n. record p { overrides = record p.overrides { session_idle_timeout_sec = some n } })
  apply_flag max_buffer_bytes_flag value p =
      with_number value
        (λ n. record p { overrides = record p.overrides { max_session_buffer_bytes = some n } })
  apply_flag max_node_extra_bytes_flag value p =
      with_number value
        (λ n. record p { overrides = record p.overrides { max_node_extra_bytes = some n } })
  apply_flag max_connections_flag value p =
      with_number value
        (λ n. record p { overrides = record p.overrides { max_connections = some n } })
  apply_flag max_connections_per_ip_flag value p =
      with_number value
        (λ n. record p { overrides = record p.overrides { max_connections_per_ip = some n } })
  apply_flag max_new_connections_per_ip_flag value p =
      with_number value
        (λ n. record p { overrides = record p.overrides { max_new_connections_per_ip = some n } })
  apply_flag connection_rate_window_sec_flag value p =
      with_number value
        (λ n. record p { overrides = record p.overrides { connection_rate_window_sec = some n } })
  apply_flag max_requests_per_connection_flag value p =
      with_number value
        (λ n. record p { overrides = record p.overrides { max_requests_per_connection = some n } })
  apply_flag monitor_flag value p =
      some (record p { overrides = record p.overrides { monitor_enabled = some true } })
  apply_flag tester_flag value p =
      some (record p { overrides = record p.overrides { tester_enabled = some true } })
  apply_flag config_flag value p = some (record p { config_path = some value })

  -- A flag whose value is missing, and an argument that is no flag, are passed over.
  unfoldable pub parse_args : List Text → Pass → Option Pass
  parse_args [] p = some p
  parse_args (arg ∷ []) p = elim (flag_of arg) [
    | none ↦ some p
    | some f ↦ elim (takes_value f) [ true ↦ some p | false ↦ apply_flag f [] p ]
  ]
  parse_args (arg ∷ value ∷ rest) p = elim (flag_of arg) [
    | none ↦ parse_args (value ∷ rest) p
    | some f ↦ elim (takes_value f) [
      | true ↦ and_then (apply_flag f value p) (λ p'. parse_args rest p')
      | false ↦ and_then (apply_flag f [] p) (λ p'. parse_args (value ∷ rest) p')
    ]
  ]

  -- The config file under the path, then the overrides. `none` is an exception of std::stoul.
  unfoldable pub finish : (Text → Option ConfigFile) → Pass → CliOptions
  finish open_file p = apply_overrides p.overrides (elim p.config_path [
    | none ↦ default_options
    | some path ↦ (load_from_file (open_file path) default_options).1
  ])

  unfoldable pub parse : (Text → Option ConfigFile) → List Text → Option CliOptions
  parse open_file args =
      elim (parse_args args (record { overrides = no_overrides; config_path = none })) [
        | none ↦ none
        | some p ↦ some (finish open_file p)
      ]
