-- ===== src/Daemon/PosixPlatform/Daemonized.antt =====
-- What is left to the process of src/platforms/linux/posix_platform.cpp when it has become a daemon.
use lightapr.Prelude.{
  ℕ, zero, suc, ◌≡◌, ◌<◌, ◌≤◌, true, none, some, arith, ltb, ◌==◌, Bool-cases, Option-cases, inl,
  inr,
}
use lightapr.Prelude.Text.{codes}
use lightapr.Daemon.PosixPlatform.{
  Posix, close_from, close_above, redirect_to_null, detach, initialize_daemon, IsAlone, IsLawful,
}

module _ {P : Type 0} (O : Posix P) (L : IsLawful O) where
  close_from-IsAlone : (x : ℕ) (p : P) → IsAlone O p → IsAlone O (close_from O x p)
  unfolding close_from
  close_from-IsAlone zero p a = L.close-IsAlone 0 p a
  close_from-IsAlone (suc x) p a =
      close_from-IsAlone x (O.close (suc x) p) (L.close-IsAlone (suc x) p a)

  close_from-keeps : (x i : ℕ) (p : P) → O.file p i ≡ none → O.file (close_from O x p) i ≡ none
  unfolding close_from
  close_from-keeps zero i p e = ground (arith, L.file-close 0 i p, e)
  close_from-keeps (suc x) i p e =
      close_from-keeps x i (O.close (suc x) p) (ground (arith, L.file-close (suc x) i p, e))

  close_from-closes : (x i : ℕ) (p : P) → i ≤ x → O.file (close_from O x p) i ≡ none
  unfolding close_from
  close_from-closes zero i p h = ground (arith, L.file-close 0 i p)
  close_from-closes (suc x) i p h = elim (Bool-cases (suc x == i)) [
    | inl e ↦ close_from-keeps x i (O.close (suc x) p) (ground (arith, L.file-close (suc x) i p, e))
    | inr e ↦ close_from-closes x i (O.close (suc x) p) (ground (arith, e))
  ]

  dup2-IsAlone_thrice :
      (fd : ℕ) (p : P) → IsAlone O p → IsAlone O (O.dup2 fd 2 (O.dup2 fd 1 (O.dup2 fd 0 p)))
  dup2-IsAlone_thrice fd p a =
      L.dup2-IsAlone fd 2 _ (L.dup2-IsAlone fd 1 _ (L.dup2-IsAlone fd 0 p a))

  close_above-IsAlone : (fd : ℕ) (p : P) → IsAlone O p → IsAlone O (close_above O fd p)
  unfolding close_above
  close_above-IsAlone fd p a = elim (Bool-cases (ltb 2 fd)) [
    | inl e ↦ rw (close_above, e) (L.close-IsAlone fd p a)
    | inr e ↦ rw (close_above, e) a
  ]

  redirect-IsAlone : (p : P) → IsAlone O p → IsAlone O (redirect_to_null O p)
  unfolding redirect_to_null
  redirect-IsAlone p a = elim (Option-cases (O.open_file (codes "/dev/null") p)) [
    | inl e ↦ rw (redirect_to_null, e) a
    | inr ((fd, q), e) ↦
        rw (redirect_to_null, e)
          (close_above-IsAlone fd _
            (dup2-IsAlone_thrice fd q (L.open-IsAlone (codes "/dev/null") fd p q e a)))
  ]

  -- A descriptor above 2 that was closed is closed after the redirection.
  redirect-closed :
      (i : ℕ) (p : P) → 2 < i → O.file p i ≡ none → O.file (redirect_to_null O p) i ≡ none
  unfolding redirect_to_null close_above
  redirect-closed i p big none_open = elim (Option-cases (O.open_file (codes "/dev/null") p)) [
    | inl e ↦ rw (redirect_to_null, e) none_open
    | inr ((fd, q), e) ↦
        let p₀ = O.dup2 fd 0 q in
        let p₁ = O.dup2 fd 1 p₀ in
        let p₂ = O.dup2 fd 2 p₁ in
        rw (redirect_to_null, e)
          (ground (
            arith,
            L.file-open (codes "/dev/null") fd i p q e,
            L.file-dup2 fd 0 i q (ground arith),
            L.file-dup2 fd 1 i p₀ (ground arith),
            L.file-dup2 fd 2 i p₁ (ground arith),
            L.file-close fd i p₂,
          ))
  ]

  detach-IsAlone : (p : P) → IsAlone O p → IsAlone O (detach O p)
  unfolding detach
  detach-IsAlone p a =
      redirect-IsAlone _
        (close_from-IsAlone O.open_max _ (L.chdir-IsAlone (codes "/") _ (L.umask-IsAlone 0 p a)))

  -- A daemon is what the second child makes of itself.
  second_child :
      (p : P)
      → (initialize_daemon O p).0 ≡ true
      → (r : P) × (t : P) × (O.fork r ≡ some t) × ((initialize_daemon O p).1 ≡ detach O t)
  unfolding initialize_daemon
  second_child p h = elim (Option-cases (O.fork p)) [
    | inl e ↦ absurd (ground (arith, e, h))
    | inr (q, e) ↦ elim (Option-cases (O.setsid q)) [
      | inl f ↦ absurd (ground (arith, e, f, h))
      | inr (r, f) ↦ elim (Option-cases (O.fork (O.ignore_signals r))) [
        | inl g ↦ absurd (ground (arith, e, f, g, h))
        | inr (t, g) ↦ (O.ignore_signals r, t, g, ground (arith, e, f, g))
      ]
    ]
  ]

  -- When initialize_daemon has succeeded, by what POSIX says of its calls: the process that goes on
  -- has no lock on any file and no other thread, whatever it had before, and none of the descriptors
  -- from 3 to the limit that sysconf gives is open.
  pub initialize_daemon-IsAlone :
      (p : P)
      → (initialize_daemon O p).0 ≡ true
      → let q = (initialize_daemon O p).1 in
        IsAlone O q × ((fd : ℕ) → 2 < fd → fd ≤ O.open_max → O.file q fd ≡ none)
  unfolding detach
  initialize_daemon-IsAlone p h =
      let (r, t, forked, same) = second_child p h in
      rw same (
        detach-IsAlone t (L.fork-IsAlone r t forked),
        λ fd big small. redirect-closed fd _ big (close_from-closes O.open_max fd _ small),
      )
