-- ===== src/Logger.antt =====
-- include/apr/logger.hpp and src/core/logger.cpp: the log. A call puts a message in a queue, and a
-- worker thread writes it, to the standard streams or to a file that is rotated. `message_size` is
-- sizeof(log_message). No other process moves the files, and a write to an open file does not fail;
-- what a rename and an open do at a rotation is an argument.
pub mod Stop
pub mod Order
pub mod Retention
mod Tests
use lightapr.Prelude.{
  ℕ, zero, suc, ◌+◌, Bool, true, false, not, ◌||◌, Option, none, some, List, [], ◌∷◌, ◌++◌, leb,
  if◌then◌else◌, length,
}
use lightapr.Prelude.Int.{ℤ, pos, ◌-ℤ◌}
use lightapr.Prelude.Text.{Text, codes, text_eq}
use lightapr.Memory.{MemoryTracker, add_other_bytes}

pub data LogLevel : Type 0 where
  debug : LogLevel
  info : LogLevel
  warn : LogLevel
  error : LogLevel

unfoldable pub to_string : LogLevel → Text
to_string debug = codes "DEBUG"
to_string info = codes "INFO"
to_string warn = codes "WARN"
to_string error = codes "ERROR"

unfoldable pub log_level_from_string : Text → LogLevel
unfolding text_eq
log_level_from_string str =
    if text_eq str (codes "debug")
    then debug
    else if text_eq str (codes "warn")
    then warn
    else if text_eq str (codes "error")
    then error
    else info

-- The enumerators as numbers, which `<=` compares.
unfoldable pub rank : LogLevel → ℕ
rank debug = 0
rank info = 1
rank warn = 2
rank error = 3

pub record LogMessage : Type 0 where
  pub level : LogLevel
  pub message : Text
  pub timestamp : Text

-- The file at `log_path_`, and the one at the backup's path if there is one.
pub record Files : Type 0 where
  pub current : Text
  pub backup : Option Text

-- What the file system does at a rotation: whether the rename and the open succeed.
pub record Disk : Type 0 where
  pub renames : Bool
  pub opens : Bool

-- Where the worker writes: the members of async_logger that it alone uses, and the streams.
pub record Sink : Type 0 where
  pub is_standalone : Bool
  pub max_file_size : ℕ
  pub is_open : Bool
  pub files : Files
  pub out : List Text
  pub err : List Text

-- `local` is the worker's own queue.
pub record AsyncLogger : Type 0 where
  pub sink : Sink
  pub running : Bool
  pub queue : List LogMessage
  pub local : List LogMessage
  pub memory : MemoryTracker

unfoldable pub is_severe : LogLevel → Bool
is_severe debug = false
is_severe info = false
is_severe warn = true
is_severe error = true

unfoldable pub formatted : LogMessage → Text
unfolding to_string
formatted msg =
    codes "["
    ++ (msg.timestamp ++ (codes "] [" ++ (to_string msg.level ++ (codes "] " ++ msg.message))))

unfoldable pub rename_to_backup : Disk → Files → Files
rename_to_backup d f = if d.renames then record { current = []; backup = some f.current } else f

-- An open with std::ios::trunc.
unfoldable pub truncate : Disk → Files → Files
truncate d f = if d.opens then record f { current = [] } else f

unfoldable pub rotate_log_files : Disk → Sink → Sink
rotate_log_files d s =
    if s.is_standalone || not s.is_open
    then s
    else record s { is_open = d.opens; files = truncate d (rename_to_backup d s.files) }

-- `file_stream_ << formatted << "\n"`
unfoldable pub append_line : Text → Files → Files
append_line line f = record f { current = f.current ++ (line ++ (b'\n' ∷ [])) }

unfoldable pub write_to_file : Disk → Sink → Text → Sink
write_to_file d s line =
    let s' = record s { files = append_line line s.files } in
    if not s.is_open
    then s
    else if leb s.max_file_size (length s'.files.current)
    then rotate_log_files d s'
    else s'

unfoldable pub write_entry : Disk → Sink → LogMessage → Sink
write_entry d s msg =
    let line = formatted msg in
    if s.is_standalone
    then if is_severe msg.level
      then record s { err = s.err ++ (line ∷ []) }
      else record s { out = s.out ++ (line ∷ []) }
    else write_to_file d s line

-- `file_stream_.close()`
unfoldable pub closed : Sink → Sink
closed s = record s { is_open = false }

-- The messages that are written one after the other, each with what the file system does then.
unfoldable pub write_all : Sink → List (Disk × LogMessage) → Sink
write_all s [] = s
write_all s ((d, m) ∷ ms) = write_all (write_entry d s m) ms

-- The second statement of log, under the lock.
unfoldable pub push : AsyncLogger → LogMessage → AsyncLogger
push l msg = record l { queue = l.queue ++ (msg ∷ []) }

-- `std::swap(local, queue_)`, where `local` is new.
unfoldable pub swap : AsyncLogger → AsyncLogger
swap l = record l { local = l.queue; queue = [] }

-- The front of `local` is written and popped.
unfoldable pub write_front : Disk → AsyncLogger → LogMessage → List LogMessage → AsyncLogger
write_front d l msg rest = record l { sink = write_entry d l.sink msg; local = rest }

pub record LoggerRegistry : Type 0 where
  pub logger : Option AsyncLogger
  pub min_level : LogLevel

unfoldable pub set_logger : LoggerRegistry → Option AsyncLogger → LoggerRegistry
set_logger r l = record r { logger = l }

unfoldable pub set_min_level : LoggerRegistry → LogLevel → LoggerRegistry
set_min_level r lvl = record r { min_level = lvl }

module _ (message_size : ℕ) where
  unfoldable pub estimate_log_message_bytes : LogMessage → ℕ
  estimate_log_message_bytes msg = message_size + length msg.message + length msg.timestamp

  -- The first statement of log: the gauge.
  unfoldable pub count : AsyncLogger → LogMessage → AsyncLogger
  count l msg = record l {
    memory = add_other_bytes l.memory (pos (estimate_log_message_bytes msg));
  }

  unfoldable pub log : AsyncLogger → LogLevel → Text → Text → AsyncLogger
  unfolding count push
  log l level message now =
      let msg : LogMessage = record { level = level; message = message; timestamp = now } in
      push (count l msg) msg

  unfoldable pub discount : AsyncLogger → LogMessage → AsyncLogger
  discount l msg = record l {
    memory = add_other_bytes l.memory (pos 0 -ℤ pos (estimate_log_message_bytes msg));
  }

  -- The inner loop, over the messages in `local`.
  unfoldable pub drain : (Sink → Disk) → List LogMessage → AsyncLogger → AsyncLogger
  drain disk [] l = l
  drain disk (m ∷ ms) l = drain disk ms (write_front (disk l.sink) (discount l m) m ms)

  -- The outer loop with no call of log between; `none` is out of fuel. While `running`, it waits
  -- and comes round again.
  unfoldable pub worker_loop : (Sink → Disk) → ℕ → AsyncLogger → Option AsyncLogger
  worker_loop disk zero l = none
  worker_loop disk (suc fuel) l =
      let again = worker_loop disk fuel (drain disk l.queue (swap l)) in
      elim l.queue [ [] ↦ if l.running then again else some l | m ∷ ms ↦ again ]

  -- The destructor: the worker ends its inner loop and runs to its end, and the file is closed.
  unfoldable pub destroy : (Sink → Disk) → ℕ → AsyncLogger → Option AsyncLogger
  destroy disk fuel l =
      let ended = worker_loop disk fuel (drain disk l.local (record l { running = false })) in
      elim ended [ none ↦ none | some l' ↦ some (record l' { sink = closed l'.sink }) ]

  -- LOG_DEBUG, LOG_INFO, LOG_WARN and LOG_ERROR, by their level.
  unfoldable pub log_at : LogLevel → LoggerRegistry → Text → Text → LoggerRegistry
  unfolding rank log
  log_at level r message now =
      if leb (rank r.min_level) (rank level)
      then elim r.logger [
        | none ↦ r
        | some l ↦ record r { logger = some (log l level message now) }
      ]
      else r

-- The constructor: `opens` is whether the file can be opened. The worker starts with it.
unfoldable pub new_logger : Bool → ℕ → Bool → Files → MemoryTracker → AsyncLogger
new_logger is_standalone max_file_size opens files memory = record {
  sink = record {
    is_standalone = is_standalone;
    max_file_size = max_file_size;
    is_open = if is_standalone then false else opens;
    files = files;
    out = [];
    err = [];
  };
  running = true;
  queue = [];
  local = [];
  memory = memory;
}
