-- ===== src/Options/Order.antt =====
-- The place of --config among the arguments of src/core/cli_options.cpp.
use lightapr.Prelude.{
  ℕ, ◌≡◌, refl, sym, ap, ◌∙◌, Bool, true, false, Bool-cases, Option-cases, inl, inr, Option, none,
  some, List, [], ◌∷◌, ◌++◌, All, append_assoc,
}
use lightapr.Prelude.Text.{Text, codes, text_eq}
use lightapr.Options.{CliOptions, ConfigFile}
use lightapr.Options.Flags.{
  Flag, standalone_flag, cell_id_flag, access_key_flag, mqtt_port_flag, ws_port_flag,
  http_port_flag, threads_flag, log_file_flag, log_level_flag, idle_timeout_flag,
  max_buffer_bytes_flag, max_node_extra_bytes_flag, max_connections_flag,
  max_connections_per_ip_flag, max_new_connections_per_ip_flag, connection_rate_window_sec_flag,
  max_requests_per_connection_flag, monitor_flag, tester_flag, config_flag, flag_of, and_then,
  takes_value, Pass, with_number, apply_flag, parse_args, finish, parse,
}

-- A flag in full.
abbrev pub flag_name : Flag → Text
flag_name standalone_flag = codes "--standalone"
flag_name cell_id_flag = codes "--cell-id"
flag_name access_key_flag = codes "--access-key"
flag_name mqtt_port_flag = codes "--port"
flag_name ws_port_flag = codes "--ws-port"
flag_name http_port_flag = codes "--http-port"
flag_name threads_flag = codes "--threads"
flag_name log_file_flag = codes "--log-file"
flag_name log_level_flag = codes "--log-level"
flag_name idle_timeout_flag = codes "--idle-timeout"
flag_name max_buffer_bytes_flag = codes "--max-buffer-bytes"
flag_name max_node_extra_bytes_flag = codes "--max-node-extra-bytes"
flag_name max_connections_flag = codes "--max-connections"
flag_name max_connections_per_ip_flag = codes "--max-connections-per-ip"
flag_name max_new_connections_per_ip_flag = codes "--max-new-connections-per-ip"
flag_name connection_rate_window_sec_flag = codes "--connection-rate-window-sec"
flag_name max_requests_per_connection_flag = codes "--max-requests-per-connection"
flag_name monitor_flag = codes "--monitor"
flag_name tester_flag = codes "--tester"
flag_name config_flag = codes "--config"

abbrev pub is_config : Flag → Bool
is_config standalone_flag = false
is_config cell_id_flag = false
is_config access_key_flag = false
is_config mqtt_port_flag = false
is_config ws_port_flag = false
is_config http_port_flag = false
is_config threads_flag = false
is_config log_file_flag = false
is_config log_level_flag = false
is_config idle_timeout_flag = false
is_config max_buffer_bytes_flag = false
is_config max_node_extra_bytes_flag = false
is_config max_connections_flag = false
is_config max_connections_per_ip_flag = false
is_config max_new_connections_per_ip_flag = false
is_config connection_rate_window_sec_flag = false
is_config max_requests_per_connection_flag = false
is_config monitor_flag = false
is_config tester_flag = false
is_config config_flag = true

flag_of-flag_name : (f : Flag) → flag_of (flag_name f) ≡ some f
unfolding flag_of text_eq
flag_of-flag_name standalone_flag = refl
flag_of-flag_name cell_id_flag = refl
flag_of-flag_name access_key_flag = refl
flag_of-flag_name mqtt_port_flag = refl
flag_of-flag_name ws_port_flag = refl
flag_of-flag_name http_port_flag = refl
flag_of-flag_name threads_flag = refl
flag_of-flag_name log_file_flag = refl
flag_of-flag_name log_level_flag = refl
flag_of-flag_name idle_timeout_flag = refl
flag_of-flag_name max_buffer_bytes_flag = refl
flag_of-flag_name max_node_extra_bytes_flag = refl
flag_of-flag_name max_connections_flag = refl
flag_of-flag_name max_connections_per_ip_flag = refl
flag_of-flag_name max_new_connections_per_ip_flag = refl
flag_of-flag_name connection_rate_window_sec_flag = refl
flag_of-flag_name max_requests_per_connection_flag = refl
flag_of-flag_name monitor_flag = refl
flag_of-flag_name tester_flag = refl
flag_of-flag_name config_flag = refl

-- The arguments that give a flag, with its value where it takes one.
unfoldable pub write_setting : Flag × Text → List Text
write_setting (f, v) = elim (takes_value f) [
  | true ↦ flag_name f ∷ v ∷ []
  | false ↦ flag_name f ∷ []
]

unfoldable pub write_settings : List (Flag × Text) → List Text
write_settings [] = []
write_settings (s ∷ ss) = write_setting s ++ write_settings ss

with_path : Text → Pass → Pass
with_path path p = record p { config_path = some path }

module _ (stoul : Text → Option ℕ) where
  value_of : Flag → Text → Text
  value_of f v = elim (takes_value f) [ true ↦ v | false ↦ [] ]

  parse_args-valued :
      (f : Flag) (v : Text) (rest : List Text) (p : Pass)
      → takes_value f ≡ true
      → parse_args stoul (flag_name f ∷ v ∷ rest) p
        ≡ and_then (apply_flag stoul f v p) (parse_args stoul rest)
  unfolding parse_args and_then
  parse_args-valued f v rest p h = rw (parse_args, flag_of-flag_name f, h) refl

  parse_args-switch :
      (f : Flag) (rest : List Text) (p : Pass)
      → takes_value f ≡ false
      → parse_args stoul (flag_name f ∷ rest) p
        ≡ and_then (apply_flag stoul f [] p) (parse_args stoul rest)
  unfolding parse_args and_then
  parse_args-switch f [] p h = elim (Option-cases (apply_flag stoul f [] p)) [
    | inl e ↦ rw (parse_args, flag_of-flag_name f, h, e) refl
    | inr (q, e) ↦ rw (parse_args, flag_of-flag_name f, h, e) refl
  ]
  parse_args-switch f (arg ∷ rest) p h = rw (parse_args, flag_of-flag_name f, h) refl

  parse_args-setting :
      (f : Flag) (v : Text) (rest : List Text) (p : Pass)
      → parse_args stoul (write_setting (f, v) ++ rest) p
        ≡ and_then (apply_flag stoul f (value_of f v) p) (parse_args stoul rest)
  unfolding write_setting value_of
  parse_args-setting f v rest p = elim (Bool-cases (takes_value f)) [
    | inl valued ↦ rw (write_setting, value_of, valued) (parse_args-valued f v rest p valued)
    | inr alone ↦ rw (write_setting, value_of, alone) (parse_args-switch f rest p alone)
  ]

  number-with_path :
      (v path : Text) (f : ℕ → Pass)
      → with_number stoul v (λ n. with_path path (f n))
        ≡ and_then (with_number stoul v f) (λ q. some (with_path path q))
  unfolding with_number and_then
  number-with_path v path f = resumed (stoul v)
    where
      resumed :
          (o : Option ℕ)
          → elim o as (λ x. Option Pass) [ none ↦ none | some n ↦ some (with_path path (f n)) ]
            ≡ and_then
                (elim o as (λ x. Option Pass) [ none ↦ none | some n ↦ some (f n) ])
                (λ q. some (with_path path q))
      resumed none = refl
      resumed (some n) = refl

  apply_flag-with_path :
      (f : Flag) (v path : Text) (p : Pass)
      → is_config f ≡ false
      → apply_flag stoul f v (with_path path p)
        ≡ and_then (apply_flag stoul f v p) (λ q. some (with_path path q))
  unfolding apply_flag with_path and_then
  apply_flag-with_path standalone_flag v path p h = refl
  apply_flag-with_path cell_id_flag v path p h = refl
  apply_flag-with_path access_key_flag v path p h = refl
  apply_flag-with_path mqtt_port_flag v path p h = number-with_path v path _
  apply_flag-with_path ws_port_flag v path p h = number-with_path v path _
  apply_flag-with_path http_port_flag v path p h = number-with_path v path _
  apply_flag-with_path threads_flag v path p h = number-with_path v path _
  apply_flag-with_path log_file_flag v path p h = refl
  apply_flag-with_path log_level_flag v path p h = refl
  apply_flag-with_path idle_timeout_flag v path p h = number-with_path v path _
  apply_flag-with_path max_buffer_bytes_flag v path p h = number-with_path v path _
  apply_flag-with_path max_node_extra_bytes_flag v path p h = number-with_path v path _
  apply_flag-with_path max_connections_flag v path p h = number-with_path v path _
  apply_flag-with_path max_connections_per_ip_flag v path p h = number-with_path v path _
  apply_flag-with_path max_new_connections_per_ip_flag v path p h = number-with_path v path _
  apply_flag-with_path connection_rate_window_sec_flag v path p h = number-with_path v path _
  apply_flag-with_path max_requests_per_connection_flag v path p h = number-with_path v path _
  apply_flag-with_path monitor_flag v path p h = refl
  apply_flag-with_path tester_flag v path p h = refl
  apply_flag-with_path config_flag v path p h = cc

  config_step :
      (path : Text) (rest : List Text) (p : Pass)
      → parse_args stoul (write_setting (config_flag, path) ++ rest) p
        ≡ parse_args stoul rest (with_path path p)
  unfolding value_of apply_flag with_path takes_value and_then
  config_step path rest p = parse_args-setting config_flag path rest p

  -- The pass over settings, with the path of the config file behind them or before.
  settings-with_path :
      (ss : List (Flag × Text)) (rest : List Text) (path : Text) (p : Pass)
      → All (λ s. is_config s.0 ≡ false) ss
      → parse_args stoul (write_settings ss ++ (write_setting (config_flag, path) ++ rest)) p
        ≡ parse_args stoul (write_settings ss ++ rest) (with_path path p)
  unfolding write_settings and_then
  settings-with_path [] rest path p h = config_step path rest p
  settings-with_path ((f, v) ∷ ss) rest path p h =
      let tail = write_setting (config_flag, path) ++ rest in
      ap (λ l. parse_args stoul l p) (append_assoc (write_setting (f, v)) (write_settings ss) tail)
      ∙ parse_args-setting f v (write_settings ss ++ tail) p
      ∙ step (apply_flag stoul f (value_of f v) p) (λ q. settings-with_path ss rest path q h.1)
      ∙ sym (
          parse_args-setting f v (write_settings ss ++ rest) (with_path path p)
          ∙ ap (λ o. and_then o (parse_args stoul (write_settings ss ++ rest)))
              (apply_flag-with_path f (value_of f v) path p h.0))
      ∙ ap (λ l. parse_args stoul l (with_path path p))
          (sym (append_assoc (write_setting (f, v)) (write_settings ss) rest))
    where
      step :
          (o : Option Pass)
          → ((q : Pass)
              → parse_args stoul
                  (write_settings ss ++ (write_setting (config_flag, path) ++ rest))
                  q
                ≡ parse_args stoul (write_settings ss ++ rest) (with_path path q))
          → and_then o
              (parse_args stoul (write_settings ss ++ (write_setting (config_flag, path) ++ rest)))
            ≡ and_then
                (and_then o (λ q. some (with_path path q)))
                (parse_args stoul (write_settings ss ++ rest))
      step none again = refl
      step (some q) again = again q

  -- After settings that give no config file of their own, `--config` stands as well as before them:
  -- the options come out the same, whatever std::stoul and the files are.
  pub parse-config_anywhere :
      (open_file : Text → Option ConfigFile) (ss : List (Flag × Text)) (rest : List Text)
      (path : Text)
      → All (λ s. is_config s.0 ≡ false) ss
      → parse stoul open_file (write_settings ss ++ (write_setting (config_flag, path) ++ rest))
        ≡ parse stoul open_file (write_setting (config_flag, path) ++ (write_settings ss ++ rest))
  unfolding parse
  parse-config_anywhere open_file ss rest path h =
      ap
        (λ o. elim o as (λ x. Option CliOptions) [
          | none ↦ none
          | some p ↦ some (finish stoul open_file p)
        ])
        (settings-with_path ss rest path _ h ∙ sym (config_step path (write_settings ss ++ rest) _))
