-- ===== src/Daemon/PosixPlatform.antt =====
-- src/platforms/linux/posix_platform.cpp, with what it asks of the system as a parameter. The shared
-- parts of src/platforms/bsd/bsd_platform.cpp are the same text.
pub mod Daemonized
pub mod Samples
use lightapr.Prelude.{
  ℕ, zero, suc, ◌≡◌, ◌<◌, Bool, true, false, Option, none, some, List, [], ◌∷◌, ◌++◌, ltb, ◌==◌,
  if◌then◌else◌,
}
use lightapr.Prelude.Text.{Text, codes}

-- A process `P`, with the files that it sees. `none` is a call that failed. Of fork it is the child
-- that goes on, as the parent exits at once. A descriptor is a number, and open_max is what
-- sysconf says.
pub record Posix (P : Type 0) : Type 0 where
  pub fork : P → Option P
  pub setsid : P → Option P
  pub daemon : P → Option P
  pub ignore_signals : P → P
  pub umask : ℕ → P → P
  pub chdir : Text → P → P
  pub open_max : ℕ
  pub open_file : Text → P → Option (ℕ × P)
  pub dup2 : ℕ → ℕ → P → P
  pub close : ℕ → P → P
  pub set_lock : ℕ → P → Option P
  pub write_pid : ℕ → P → P
  pub unlink : Text → P → P
  pub start_thread : P → P
  -- What a process has: a lock on a file, threads beside the one that runs, and open files.
  pub locked : P → Text → Bool
  pub threads : P → ℕ
  pub file : P → ℕ → Option Text

-- The members of posix_platform; the descriptor -1 is none.
pub record Platform : Type 0 where
  pub pid_fd : Option ℕ
  pub pid_file_path : Text

unfoldable pub new_platform : Platform
new_platform = record { pid_fd = none; pid_file_path = [] }

-- SIGINT, SIGTERM and the rest.
pub data Signal : Type 0 where
  sigint : Signal
  sigterm : Signal
  other_signal : ℕ → Signal

-- What is called back, if anything.
unfoldable pub signal_handler {ℓ} : {C : Type ℓ} → Option C → Signal → Option C
signal_handler shutdown_cb sigint = shutdown_cb
signal_handler shutdown_cb sigterm = shutdown_cb
signal_handler shutdown_cb (other_signal n) = none

module _ {P : Type 0} (O : Posix P) where
  -- The loop from a descriptor down to 0.
  unfoldable pub close_from : ℕ → P → P
  close_from zero p = O.close 0 p
  close_from (suc x) p = close_from x (O.close (suc x) p)

  unfoldable pub close_above : ℕ → P → P
  close_above fd p = if ltb 2 fd then O.close fd p else p

  unfoldable pub redirect_to_null : P → P
  redirect_to_null p = elim (O.open_file (codes "/dev/null") p) [
    | none ↦ p
    | some (fd, q) ↦ close_above fd (O.dup2 fd 2 (O.dup2 fd 1 (O.dup2 fd 0 q)))
  ]

  -- What is done when both forks have succeeded.
  unfoldable pub detach : P → P
  detach p = redirect_to_null (close_from O.open_max (O.chdir (codes "/") (O.umask 0 p)))

  unfoldable pub initialize_daemon : P → Bool × P
  initialize_daemon p = elim (O.fork p) [
    | none ↦ (false, p)
    | some q ↦ elim (O.setsid q) [
      | none ↦ (false, q)
      | some r ↦
          let ignoring = O.ignore_signals r in
          elim (O.fork ignoring) [ none ↦ (false, ignoring) | some t ↦ (true, detach t) ]
    ]
  ]

  -- The path that could be opened, its descriptor, and the process; or the path tried last.
  unfoldable pub open_pid_file : Text → P → Text × Option (ℕ × P)
  open_pid_file app_name p =
      let in_run = codes "/var/run/" ++ (app_name ++ codes ".pid") in
      let in_tmp = codes "/tmp/" ++ (app_name ++ codes ".pid") in
      elim (O.open_file in_run p) [
        | none ↦ (in_tmp, O.open_file in_tmp p)
        | some t ↦ (in_run, some t)
      ]

  -- The lock is set and the number of the process written, or the file is closed.
  unfoldable pub lock_pid_file : Text → ℕ → P → Bool × Platform × P
  lock_pid_file path fd p = elim (O.set_lock fd p) [
    | none ↦ (false, record { pid_fd = none; pid_file_path = path }, O.close fd p)
    | some q ↦ (true, record { pid_fd = some fd; pid_file_path = path }, O.write_pid fd q)
  ]

  unfoldable pub acquire_single_instance_lock : Text → P → Bool × Platform × P
  acquire_single_instance_lock app_name p =
      let (path, opened) = open_pid_file app_name p in
      elim opened [
        | none ↦ (false, record { pid_fd = none; pid_file_path = path }, p)
        | some (fd, q) ↦ lock_pid_file path fd q
      ]

  unfoldable pub release_single_instance_lock : Platform → P → Platform × P
  release_single_instance_lock l p = elim l.pid_fd [
    | none ↦ (l, p)
    | some fd ↦ (record l { pid_fd = none }, O.unlink l.pid_file_path (O.close fd p))
  ]

  -- bsd_platform::initialize_daemon, `daemon(0, 0)`.
  unfoldable pub initialize_bsd_daemon : P → Bool × P
  initialize_bsd_daemon p = elim (O.daemon p) [ none ↦ (false, p) | some q ↦ (true, q) ]

  -- No lock on any file, and no thread beside the one that runs.
  pub record IsAlone (p : P) : Type 0 where
    pub unlocked : (path : Text) → O.locked p path ≡ false
    pub single : O.threads p ≡ 0

  -- What POSIX says of the calls: the child of a fork has none of the parent's record locks and one
  -- thread, and no other call here but set_lock takes a lock or starts a thread; and what calls do
  -- to the table of descriptors: dup2, whether it fails or not, changes none but its second.
  pub record IsLawful : Type 0 where
    pub fork-IsAlone : (p q : P) → O.fork p ≡ some q → IsAlone q
    pub umask-IsAlone : (n : ℕ) (p : P) → IsAlone p → IsAlone (O.umask n p)
    pub chdir-IsAlone : (path : Text) (p : P) → IsAlone p → IsAlone (O.chdir path p)
    pub close-IsAlone : (fd : ℕ) (p : P) → IsAlone p → IsAlone (O.close fd p)
    pub dup2-IsAlone : (a b : ℕ) (p : P) → IsAlone p → IsAlone (O.dup2 a b p)
    pub open-IsAlone :
        (path : Text) (fd : ℕ) (p q : P) → O.open_file path p ≡ some (fd, q) → IsAlone p → IsAlone q
    pub file-close :
        (fd i : ℕ) (p : P) → O.file (O.close fd p) i ≡ (if fd == i then none else O.file p i)
    pub file-dup2 : (a b i : ℕ) (p : P) → (b == i) ≡ false → O.file (O.dup2 a b p) i ≡ O.file p i
    pub file-open :
        (path : Text) (fd i : ℕ) (p q : P)
        → O.open_file path p ≡ some (fd, q)
        → O.file q i ≡ (if fd == i then some path else O.file p i)
