-- ===== src/Daemon/PosixPlatform/Samples.antt =====
-- A system in which a process is its locks, its threads and its files.
use mathlib.Core.Path.{subst}
use lightapr.Prelude.{
  ℕ, ◌+◌, ◌≡◌, refl, Option, none, some, false, List, [], ◌∷◌, ◌==◌, if◌then◌else◌,
}
use lightapr.Prelude.Text.{Text}
use lightapr.Registry.{has_worker}
use lightapr.Daemon.PosixPlatform.{Posix, IsAlone, IsLawful}

pub record Process : Type 0 where
  pub locks : List Text
  pub threads : ℕ
  pub files : ℕ → Option Text
  pub next_fd : ℕ

-- A descriptor is a new number, and every call succeeds.
abbrev opened : Text → Process → ℕ × Process
opened path p = (
  p.next_fd,
  record p {
    files = λ i. if p.next_fd == i then some path else p.files i;
    next_fd = p.next_fd + 1;
  },
)

abbrev locked_too : Option Text → Process → Process
locked_too none p = p
locked_too (some path) p = record p { locks = path ∷ p.locks }

-- A descriptor that is not open is not copied.
abbrev copied : Option Text → ℕ → Process → Process
copied none b p = p
copied (some path) b p = record p { files = λ i. if b == i then some path else p.files i }

abbrev child : Process → Process
child p = record p { locks = []; threads = 0 }

abbrev pub sample_posix : Posix Process
sample_posix = record {
  fork = λ p. some (child p);
  setsid = λ p. some p;
  daemon = λ p. some (child p);
  ignore_signals = λ p. p;
  umask = λ n p. p;
  chdir = λ path p. p;
  open_max = 16;
  open_file = λ path p. some (opened path p);
  dup2 = λ a b p. copied (p.files a) b p;
  close = λ fd p. record p { files = λ i. if fd == i then none else p.files i };
  set_lock = λ fd p. some (locked_too (p.files fd) p);
  write_pid = λ fd p. p;
  unlink = λ path p. p;
  start_thread = λ p. record p { threads = p.threads + 1 };
  locked = λ p path. has_worker path p.locks;
  threads = λ p. p.threads;
  file = λ p i. p.files i;
}

some_eq {ℓ} : {A : Type ℓ} {a b : A} → some a ≡ some b → a ≡ b
some_eq e = cc

child-IsAlone : (p : Process) → IsAlone sample_posix (child p)
unfolding has_worker
child-IsAlone p = record { unlocked = λ path. refl; single = refl }

opened-IsAlone :
    (path : Text) (p : Process) → IsAlone sample_posix p → IsAlone sample_posix (opened path p).1
opened-IsAlone path p a = record { unlocked = a.unlocked; single = a.single }

copied-IsAlone :
    (o : Option Text) (b : ℕ) (p : Process)
    → IsAlone sample_posix p
    → IsAlone sample_posix (copied o b p)
copied-IsAlone none b p a = a
copied-IsAlone (some path) b p a = record { unlocked = a.unlocked; single = a.single }

copied_file :
    (o : Option Text) (b i : ℕ) (p : Process)
    → (b == i) ≡ false
    → (copied o b p).files i ≡ p.files i
copied_file none b i p h = refl
copied_file (some path) b i p h = rw h refl

pub sample_posix-IsLawful : IsLawful sample_posix
unfolding has_worker
sample_posix-IsLawful = record {
  fork-IsAlone = λ p q e. subst (IsAlone sample_posix) (some_eq e) (child-IsAlone p);
  umask-IsAlone = λ n p a. a;
  chdir-IsAlone = λ path p a. a;
  close-IsAlone = λ fd p a. record { unlocked = a.unlocked; single = a.single };
  dup2-IsAlone = λ a b p h. copied-IsAlone (p.files a) b p h;
  open-IsAlone = λ path fd p q e a.
      subst (λ (t : ℕ × Process). IsAlone sample_posix t.1) (some_eq e) (opened-IsAlone path p a);
  file-close = λ fd i p. refl;
  file-dup2 = λ a b i p h. copied_file (p.files a) b i p h;
  file-open = λ path fd i p q e.
      subst (λ (t : ℕ × Process). t.1.files i ≡ (if t.0 == i then some path else p.files i))
        (some_eq e) refl;
}
