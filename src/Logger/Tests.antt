-- ===== src/Logger/Tests.antt =====
-- Runs of the logger of src/core/logger.cpp.
use lightapr.Prelude.{
  ℕ, ◌≡◌, ◌≤◌, refl, arith, true, false, none, some, List, [], ◌∷◌, ◌++◌, length,
}
use lightapr.Prelude.Int.{pos, ◌-ℤ◌}
use lightapr.Prelude.Text.{codes}
use lightapr.Memory.{MemoryTracker}
use lightapr.Logger.{
  AsyncLogger, LogMessage, LogLevel, Sink, Disk, new_logger, log_at, destroy, closed, write_all,
  log_level_from_string, formatted, push, count, swap,
}
use lightapr.Logger.Order.{
  System, Reach, start, next, counts, pushes, swaps, IsOrdered, Reach-IsOrdered,
}
use lightapr.Logger.Retention.{Keeps, IsSmallAfter, lines, backup_text, line_of, write_all-Keeps}
use lightapr.Logger.Stop.{total_bytes, with_disk, destroy-write_all}

abbrev memory : MemoryTracker
memory = record {
  registry_bytes = pos 0;
  mqtt_rx_bytes = pos 0;
  mqtt_tx_bytes = pos 0;
  http_rx_bytes = pos 0;
  http_tx_bytes = pos 0;
  other_bytes = pos 0;
  extra_bytes = pos 0;
}

abbrev good_disk : Disk
good_disk = record { renames = true; opens = true }

abbrev no_rename : Disk
no_rename = record { renames = false; opens = true }

abbrev hello : LogMessage
hello = record { level = LogLevel.info; message = codes "hello"; timestamp = codes "12:00" }

abbrev alarm : LogMessage
alarm = record { level = LogLevel.error; message = codes "alarm"; timestamp = codes "12:01" }

-- A logger to a file, with a limit of forty bytes.
abbrev file_logger : AsyncLogger
file_logger = record {
  sink = record {
    is_standalone = false;
    max_file_size = 40;
    is_open = true;
    files = record { current = codes "old"; backup = none };
    out = [];
    err = [];
  };
  running = true;
  queue = [];
  local = [];
  memory = memory;
}

hello_text : formatted hello ≡ codes "[12:00] [INFO] hello"
unfolding formatted
hello_text = refl

new_logger_file : new_logger false 40 true (file_logger.sink.files) memory ≡ file_logger
unfolding new_logger
new_logger_file = refl

-- A message below the level is dropped.
filtered :
    log_at 72 LogLevel.info
      (record { logger = some file_logger; min_level = LogLevel.warn })
      (codes "hello")
      (codes "12:00")
    ≡ record { logger = some file_logger; min_level = LogLevel.warn }
unfolding log_at
filtered = refl

queued :
    log_at 72 LogLevel.info
      (record { logger = some file_logger; min_level = LogLevel.info })
      (codes "hello")
      (codes "12:00")
    ≡ record { logger = some (push (count 72 file_logger hello) hello); min_level = LogLevel.info }
unfolding log_at
queued = refl

level_names : log_level_from_string (codes "warn") ≡ LogLevel.warn
unfolding log_level_from_string
level_names = refl

other_names : log_level_from_string (codes "WARN") ≡ LogLevel.info
unfolding log_level_from_string
other_names = refl

abbrev busy : AsyncLogger
busy = record file_logger { queue = alarm ∷ []; local = hello ∷ [] }

destroy-write_all_example :
    let left = busy.local ++ busy.queue in
    (l' : AsyncLogger) × (destroy 72 (λ s. good_disk) 2 busy ≡ some l')
    × (l'.queue ≡ [])
    × (l'.sink ≡ closed (write_all busy.sink (with_disk (λ s. good_disk) busy.sink left)))
    × (l'.memory.other_bytes ≡ busy.memory.other_bytes -ℤ pos (total_bytes 72 left))
destroy-write_all_example = destroy-write_all 72 (λ s. good_disk) 0 busy

write_all-Keeps_example :
    let t = write_all file_logger.sink ((good_disk, hello) ∷ (good_disk, alarm) ∷ []) in
    (lost : List ℕ) × Keeps 40
      ((backup_text file_logger.sink.files ++ codes "old")
        ++ lines ((good_disk, hello) ∷ (good_disk, alarm) ∷ []))
      lost
      t
    × IsSmallAfter 40 ((good_disk, hello) ∷ (good_disk, alarm) ∷ []) t
write_all-Keeps_example =
    write_all-Keeps file_logger.sink ((good_disk, hello) ∷ (good_disk, alarm) ∷ []) (omega arith)
      refl refl ((refl, refl), ((refl, refl), tt))

full : 40 ≤ length (codes "the log of a whole day, all of it" ++ line_of hello)
unfolding formatted
full = omega arith

abbrev filled : Sink
filled = record file_logger.sink {
  files = record { current = codes "the log of a whole day, all of it"; backup = none };
}

-- Two threads count their messages and push them the other way round, and the worker takes them.
abbrev both_counted : System
both_counted = record {
  logger = count 72 (count 72 file_logger hello) alarm;
  pending = alarm ∷ hello ∷ [];
  discounted = false;
}

abbrev taken : System
taken = record {
  logger = swap (push (push (count 72 (count 72 file_logger hello) alarm) hello) alarm);
  pending = [];
  discounted = false;
}

taken-Reach : Reach 72 file_logger (hello ∷ alarm ∷ []) [] taken
unfolding count push swap
taken-Reach =
    next
      (next
        (next (next (next start (counts _ hello)) (counts _ alarm))
          (pushes both_counted (alarm ∷ []) [] hello refl))
        (pushes _ [] [] alarm refl))
      (swaps _ refl refl)

Reach-IsOrdered_example : IsOrdered 72 file_logger (hello ∷ alarm ∷ []) [] taken
Reach-IsOrdered_example = Reach-IsOrdered 72 refl refl taken-Reach
