-- ===== src/Options/Tests.antt =====
-- Runs of the options of src/core/cli_options.cpp.
use lightapr.Prelude.{ℕ, ◌≡◌, refl, List, [], ◌∷◌, ◌++◌, Option, none, some}
use lightapr.Prelude.Text.{Text, codes}
use lightapr.Options.{ConfigFile}
use lightapr.Options.Flags.{Flag, mqtt_port_flag, monitor_flag, config_flag, parse}
use lightapr.Options.Order.{write_setting, write_settings, parse-config_anywhere}

-- std::stoul of one digit.
abbrev one_digit : Text → Option ℕ
one_digit [] = none
one_digit (c ∷ s) = some 7

abbrev no_file : Text → Option ConfigFile
no_file path = none

abbrev settings : List (Flag × Text)
settings = (mqtt_port_flag, codes "7") ∷ (monitor_flag, []) ∷ []

parse-config_anywhere_example :
    parse one_digit no_file
      (write_settings settings ++ (write_setting (config_flag, codes "a.json") ++ codes "x" ∷ []))
    ≡ parse one_digit no_file
        (write_setting (config_flag, codes "a.json") ++ (write_settings settings ++ codes "x" ∷ []))
parse-config_anywhere_example =
    parse-config_anywhere one_digit no_file settings (codes "x" ∷ []) (codes "a.json")
      (refl, (refl, tt))
