-- ===== src/Guard/Rate.antt =====
-- The rate limit of src/core/connection_guard.cpp against the log of the accepted connections.
use lightapr.Prelude.{
  ℕ, ◌≤◌, ◌<◌, ◌≡◌, refl, List, [], ◌∷◌, ◌++◌, arith, length, true, false, Bool-cases, inl, inr,
  ◌⊎◌,
}
use lightapr.Prelude.Text.{Text, text_eq, text_eq_iff}
use lightapr.Prelude.Dict.{insert, lookup}
use lightapr.Guard.{Limits, Guard, new, recent_of, prune, admit, try_acquire, release}
use lightapr.Guard.Window.{
  times, in_window, in_window-append, in_window-le, in_window_mono, Suffix, prune-Suffix,
  Suffix-trans, Suffix-later, Suffix-snoc, in_window-Suffix, recent_of-insert, times-snoc,
}

-- The accepted connections with their times, oldest first, and the time of the last call.
pub record Log : Type 0 where
  pub guard : Guard
  pub accepted : List (Text × ℕ)
  pub clock : ℕ

-- The steady clock does not go back.
pub data Step (l : Limits) : Log → Log → Type 0 where
  accept :
      (g g' : Guard) (log : List (Text × ℕ)) (ip : Text) (clock now : ℕ)
      → clock ≤ now
      → try_acquire l g ip now ≡ (true, g')
      → Step l
          (record { guard = g; accepted = log; clock = clock })
          (record { guard = g'; accepted = log ++ ((ip, now) ∷ []); clock = now })
  reject :
      (g g' : Guard) (log : List (Text × ℕ)) (ip : Text) (clock now : ℕ)
      → clock ≤ now
      → try_acquire l g ip now ≡ (false, g')
      → Step l
          (record { guard = g; accepted = log; clock = clock })
          (record { guard = g'; accepted = log; clock = now })
  close :
      (g : Guard) (log : List (Text × ℕ)) (ip : Text) (clock now : ℕ)
      → clock ≤ now
      → Step l
          (record { guard = g; accepted = log; clock = clock })
          (record { guard = release g ip; accepted = log; clock = now })

pub data Reach (l : Limits) : Log → Type 0 where
  start : (now : ℕ) → Reach l (record { guard = new; accepted = []; clock = now })
  next : {w w' : Log} → Reach l w → Step l w w' → Reach l w'

module _ (l : Limits) (limited : 0 < l.max_new_connections_per_ip) where
  -- The times are accounted for, and those in the window are not more than the limit.
  record Inv (w : Log) : Type 0 where
    history :
        (ip : Text)
        → Suffix l.rate_window w.clock (times ip w.accepted) (recent_of ip w.guard.per_ip_recent)
    bounded :
        (ip : Text)
        → in_window l.rate_window w.clock (times ip w.accepted) ≤ l.max_new_connections_per_ip

  pruned : Guard → Text → ℕ → List ℕ
  pruned g ip now = prune l.rate_window now (recent_of ip g.per_ip_recent)

  recent_accepted :
      (g g' : Guard) (ip : Text) (now : ℕ)
      → try_acquire l g ip now ≡ (true, g')
      → (g'.per_ip_recent ≡ insert ip (pruned g ip now ++ (now ∷ [])) g.per_ip_recent)
        × (length (pruned g ip now) < l.max_new_connections_per_ip)
  unfolding try_acquire admit pruned
  recent_accepted g g' ip now e = ground arith

  recent_rejected :
      (g g' : Guard) (ip : Text) (now : ℕ)
      → try_acquire l g ip now ≡ (false, g')
      → (g'.per_ip_recent ≡ g.per_ip_recent)
        ⊎ (g'.per_ip_recent ≡ insert ip (pruned g ip now) g.per_ip_recent)
  unfolding try_acquire admit pruned
  recent_rejected g g' ip now e = ground arith

  -- Time passes.
  later-Inv :
      (g : Guard) (log : List (Text × ℕ)) (clock now : ℕ)
      → clock ≤ now
      → Inv (record { guard = g; accepted = log; clock = clock })
      → Inv (record { guard = g; accepted = log; clock = now })
  later-Inv g log clock now h v = record {
    history = λ ip. Suffix-later _ clock now _ _ h (v.history ip);
    bounded =
        λ ip. omega (arith, v.bounded ip, in_window_mono l.rate_window clock now (times ip log) h);
  }

  pruned-Suffix :
      (g : Guard) (log : List (Text × ℕ)) (now : ℕ) (ip : Text)
      → Inv (record { guard = g; accepted = log; clock = now })
      → Suffix l.rate_window now (times ip log) (pruned g ip now)
  unfolding pruned
  pruned-Suffix g log now ip v =
      Suffix-trans _ now _ _ _ (v.history ip)
        (prune-Suffix l.rate_window now (recent_of ip g.per_ip_recent))

  accept-Inv :
      (g g' : Guard) (log : List (Text × ℕ)) (ip : Text) (now : ℕ)
      → try_acquire l g ip now ≡ (true, g')
      → Inv (record { guard = g; accepted = log; clock = now })
      → Inv (record { guard = g'; accepted = log ++ ((ip, now) ∷ []); clock = now })
  accept-Inv g g' log ip now e v = record { history = kept; bounded = fits }
    where
      seen : Suffix l.rate_window now (times ip log) (pruned g ip now)
      seen = pruned-Suffix g log now ip v

      kept :
          (jp : Text)
          → Suffix l.rate_window now
              (times jp (log ++ ((ip, now) ∷ [])))
              (recent_of jp g'.per_ip_recent)
      kept jp =
          rw
            (
              (recent_accepted g g' ip now e).0,
              recent_of-insert ip jp (pruned g ip now ++ (now ∷ [])) g.per_ip_recent,
              times-snoc ip jp now log,
            )
            (elim (Bool-cases (text_eq ip jp)) [
              | inl same ↦ rw (same, ← (text_eq_iff ip jp).0 same) (Suffix-snoc _ now now _ _ seen)
              | inr other ↦ rw other (v.history jp)
            ])

      fits :
          (jp : Text)
          → in_window l.rate_window now (times jp (log ++ ((ip, now) ∷ [])))
            ≤ l.max_new_connections_per_ip
      fits jp = rw (times-snoc ip jp now log) (elim (Bool-cases (text_eq ip jp)) [
        | inl same ↦
            rw
              (
                same,
                ← (text_eq_iff ip jp).0 same,
                in_window-append l.rate_window now (times ip log) (now ∷ []),
              )
              (omega (
                arith,
                (recent_accepted g g' ip now e).1,
                in_window-Suffix _ now _ _ seen,
                in_window-le l.rate_window now (now ∷ []),
              ))
        | inr other ↦ rw other (v.bounded jp)
      ])

  reject-Inv :
      (g g' : Guard) (log : List (Text × ℕ)) (ip : Text) (now : ℕ)
      → try_acquire l g ip now ≡ (false, g')
      → Inv (record { guard = g; accepted = log; clock = now })
      → Inv (record { guard = g'; accepted = log; clock = now })
  reject-Inv g g' log ip now e v = record { history = kept; bounded = v.bounded }
    where
      kept : (jp : Text) → Suffix l.rate_window now (times jp log) (recent_of jp g'.per_ip_recent)
      kept jp = elim (recent_rejected g g' ip now e) [
        | inl same ↦ rw same (v.history jp)
        | inr change ↦
            rw (change, recent_of-insert ip jp (pruned g ip now) g.per_ip_recent)
              (elim (Bool-cases (text_eq ip jp)) [
                | inl same ↦ rw (same, ← (text_eq_iff ip jp).0 same) (pruned-Suffix g log now ip v)
                | inr other ↦ rw other (v.history jp)
              ])
      ]

  Step-Inv : {w w' : Log} → Step l w w' → Inv w → Inv w'
  unfolding release
  Step-Inv (accept g g' log ip clock now h e) v =
      accept-Inv g g' log ip now e (later-Inv g log clock now h v)
  Step-Inv (reject g g' log ip clock now h e) v =
      reject-Inv g g' log ip now e (later-Inv g log clock now h v)
  Step-Inv (close g log ip clock now h) v =
      let v' = later-Inv g log clock now h v in
      record { history = v'.history; bounded = v'.bounded }

  start-Inv : (now : ℕ) → Inv (record { guard = new; accepted = []; clock = now })
  unfolding new recent_of lookup times in_window
  start-Inv now = record { history = λ ip. ([], refl, tt); bounded = λ ip. omega arith }

  Reach-Inv_rate : {w : Log} → Reach l w → Inv w
  Reach-Inv_rate (start now) = start-Inv now
  Reach-Inv_rate (next r s) = Step-Inv s (Reach-Inv_rate r)

-- In every history, at every time, the connections of one IP that were accepted within the window
-- that ends then are not more than the limit, if there is one.
pub accepted-in-window :
    (l : Limits) (w : Log) (ip : Text)
    → 0 < l.max_new_connections_per_ip
    → Reach l w
    → in_window l.rate_window w.clock (times ip w.accepted) ≤ l.max_new_connections_per_ip
accepted-in-window l w ip limited r = (Reach-Inv_rate l limited r).bounded ip
