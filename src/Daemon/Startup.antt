-- ===== src/Daemon/Startup.antt =====
-- What the daemon of src/main.cpp is left with when it has started.
use mathlib.Core.Path.{subst}
use lightapr.Prelude.{
  ℕ, ◌≡◌, ◌<◌, ◌≤◌, refl, sym, Bool, true, false, none, arith, Bool-cases, inl, inr,
}
use lightapr.Prelude.Text.{codes}
use lightapr.Options.{CliOptions}
use lightapr.Daemon.{Started, exited, runs, start_logger, become_daemon, startup}
use lightapr.Daemon.PosixPlatform.{
  Posix, Platform, acquire_single_instance_lock, initialize_daemon, IsAlone, IsLawful,
}
use lightapr.Daemon.PosixPlatform.Daemonized.{initialize_daemon-IsAlone}

module _ {P : Type 0} (O : Posix P) (L : IsLawful O) where
  -- What a process that goes on as a daemon has.
  abbrev pub Bereft : Started P → Type 0
  Bereft (exited code p) = Unit {0}
  Bereft (runs false l p) = Unit {0}
  Bereft (runs true l p) = IsAlone O p × ((fd : ℕ) → 2 < fd → fd ≤ O.open_max → O.file p fd ≡ none)

  runs-Bereft :
      (said : Bool) (l : Platform) (p : P)
      → (said ≡ true → IsAlone O p × ((fd : ℕ) → 2 < fd → fd ≤ O.open_max → O.file p fd ≡ none))
      → Bereft (runs said l p)
  runs-Bereft true l p h = h refl
  runs-Bereft false l p h = tt

  become_daemon-Bereft : (q : P) → Bereft (become_daemon O q)
  unfolding become_daemon
  become_daemon-Bereft q =
      let t = acquire_single_instance_lock O (codes "lightapr") q in
      elim (Bool-cases t.0) [
        | inl e ↦
            rw (become_daemon, e)
              (runs-Bereft (initialize_daemon O t.2).0 t.1 (initialize_daemon O t.2).1
                (initialize_daemon-IsAlone O L t.2))
        | inr e ↦ rw (become_daemon, e) tt
      ]

  goes_daemon :
      (opts : CliOptions) (p : P)
      → opts.standalone ≡ false
      → startup O opts p ≡ become_daemon O (start_logger O opts p)
  unfolding startup
  goes_daemon opts p h = ground (arith, h)

  -- A start that is not standalone, by what POSIX says of the calls: main returns, or
  -- initialize_daemon has failed and the process goes on as it is, or the process that goes on has
  -- no lock on any file, the pid file included, no thread beside the one that runs, so that the
  -- worker of the logger is not there, and no open descriptor from 3 to the limit that sysconf
  -- gives, so that neither the log file's nor the pid file's is open if it was one of these.
  pub startup-Bereft :
      (opts : CliOptions) (p : P) → opts.standalone ≡ false → Bereft (startup O opts p)
  startup-Bereft opts p h =
      subst Bereft (sym (goes_daemon opts p h)) (become_daemon-Bereft (start_logger O opts p))
