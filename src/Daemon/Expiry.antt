-- ===== src/Daemon/Expiry.antt =====
-- When a node in its grace period is gone, by the sweep timer of src/main.cpp.
use lightapr.Prelude.{
  ℕ, ◌+◌, ◌<◌, ◌≤◌, ◌≡◌, ◌⊎◌, inl, inr, refl, sym, ◌∙◌, true, false, none, some, List, [], ◌∷◌,
  arith, leb, Bool-cases, All,
}
use lightapr.Prelude.Text.{Text, text_eq, text_eq_iff}
use lightapr.Prelude.Dict.{Dict, lookup, lookup-insert, lookup-erase_ne, lookup-erase_self}
use lightapr.Node.{NodeInfo, grace, erased}
use lightapr.Registry.{Registry, grace_period, is_grace}
use lightapr.Registry.Methods.{exec-IsValid}
use lightapr.Registry.Sweep.{is_expired, lookup-sweep_expired_nodes}
use lightapr.Registry.Validity.{Command, sweep, exec, IsValid}
use lightapr.Client.Replica.{Change, stored, graced, gone}
use lightapr.Client.Following.{Chain, end, link, events, exec-Chain}
use lightapr.Daemon.Sweeping.{Sweeper, Happening, call, timer, sweep_interval, do_sweep, step, run}

module _ {V : Type 0} (dump : V → Text) (max_bytes node_size : ℕ) where
  -- An event that does not bring the node back: it is of another, or says that one is removed.
  abbrev pub Spares : Text → NodeInfo V → Type 0
  Spares id n = (text_eq n.id id ≡ false) ⊎ (n.status ≡ erased)

  -- The entry is as it was, or none.
  abbrev SameOrNone : Text → Dict (NodeInfo V) → Dict (NodeInfo V) → Type 0
  SameOrNone id nodes nodes' = (lookup id nodes' ≡ lookup id nodes) ⊎ (lookup id nodes' ≡ none)

  Change-SameOrNone :
      (id : Text) (nodes nodes' : Dict (NodeInfo V)) (n : NodeInfo V)
      → Change nodes nodes' n
      → Spares id n
      → SameOrNone id nodes nodes'
  Change-SameOrNone id nodes nodes' n (stored e f) s =
      inl (rw f (ground (arith, e, s, lookup-insert n.id id n nodes)))
  Change-SameOrNone id nodes nodes' n (graced old e found f) s =
      inl (rw f (ground (arith, e, s, lookup-insert n.id id n nodes)))
  Change-SameOrNone id nodes nodes' n (gone e d f) s = elim (Bool-cases (text_eq n.id id)) [
    | inl same ↦ inr (rw (f, sym ((text_eq_iff n.id id).0 same)) (lookup-erase_self n.id nodes d))
    | inr other ↦ inl (rw f (lookup-erase_ne n.id id nodes other))
  ]

  join :
      (id : Text) (a b c : Dict (NodeInfo V))
      → SameOrNone id a b
      → SameOrNone id b c
      → SameOrNone id a c
  join id a b c (inl e) (inl f) = inl (f ∙ e)
  join id a b c (inr e) (inl f) = inr (f ∙ e)
  join id a b c e (inr f) = inr f

  Chain-SameOrNone :
      (id : Text) {nodes last : Dict (NodeInfo V)} {ns : List (NodeInfo V)}
      → Chain dump max_bytes node_size nodes ns last
      → All (Spares id) ns
      → SameOrNone id nodes last
  Chain-SameOrNone id end s = inl refl
  Chain-SameOrNone id (link {nodes = nodes} {mid = mid} {last = last} {n = n} c t) s =
      join id nodes mid last (Change-SameOrNone id nodes mid n c s.0) (Chain-SameOrNone id t s.1)

  exec-SameOrNone :
      (id : Text) (r : Registry V) (d : Command V)
      → IsValid dump max_bytes node_size r
      → All (Spares id) (events dump max_bytes node_size r d)
      → SameOrNone id r.nodes (exec dump max_bytes node_size r d).nodes
  exec-SameOrNone id r d v s = Chain-SameOrNone id (exec-Chain dump max_bytes node_size r d v) s

  -- No call brings the node back, the timer does not fail, and it is never later than `late`
  -- seconds: what happens, happens before that.
  abbrev pub Undisturbed : Text → ℕ → Sweeper V → List (Happening V × ℕ) → Type 0
  Undisturbed id late s [] = Unit {0}
  Undisturbed id late s ((call d, now) ∷ hs) =
      All (Spares id) (events dump max_bytes node_size s.registry d)
      × (now ≤ s.expires + late)
      × Undisturbed id late (step dump max_bytes node_size s (call d) now) hs
  Undisturbed id late s ((timer ec, now) ∷ hs) =
      (ec ≡ false)
      × (now ≤ s.expires + late)
      × Undisturbed id late (step dump max_bytes node_size s (timer ec) now) hs

  -- The node is gone, or in its grace period as it was and the timer is set before the first sweep
  -- that takes it is late.
  Waits : Text → NodeInfo V → Sweeper V → Type 0
  Waits id n s =
      (lookup id s.registry.nodes ≡ none)
      ⊎ ((lookup id s.registry.nodes ≡ some n)
          × (s.expires < n.active_at + grace_period + sweep_interval))

  call-Waits :
      (id : Text) (n : NodeInfo V) (s : Sweeper V) (d : Command V) (now : ℕ)
      → IsValid dump max_bytes node_size s.registry
      → All (Spares id) (events dump max_bytes node_size s.registry d)
      → Waits id n s
      → Waits id n (step dump max_bytes node_size s (call d) now)
  unfolding Waits step
  call-Waits id n s d now v spares (inl e) = elim (exec-SameOrNone id s.registry d v spares) [
    | inl same ↦ inl (same ∙ e)
    | inr f ↦ inl f
  ]
  call-Waits id n s d now v spares (inr (e, early)) =
      elim (exec-SameOrNone id s.registry d v spares) [
        | inl same ↦ inr (same ∙ e, early)
        | inr f ↦ inl f
      ]

  timer-Waits :
      (id : Text) (n : NodeInfo V) (s : Sweeper V) (now : ℕ)
      → IsValid dump max_bytes node_size s.registry
      → n.status ≡ grace
      → Waits id n s
      → Waits id n (step dump max_bytes node_size s (timer false) now)
  unfolding Waits step do_sweep is_expired is_grace
  timer-Waits id n s now v g (inl e) =
      inl (lookup-sweep_expired_nodes dump node_size s.registry now id v.distinct ∙ rw e refl)
  timer-Waits id n s now v g (inr (e, early)) =
      let swept = lookup-sweep_expired_nodes dump node_size s.registry now id v.distinct in
      elim (Bool-cases (leb (n.active_at + grace_period) now)) [
        | inl over ↦ inl (swept ∙ rw e (ground (arith, g, over)))
        | inr under ↦ inr (swept ∙ rw e (ground (arith, g, under)), ground (arith, under))
      ]

  step-IsValid :
      (s : Sweeper V) (h : Happening V) (now : ℕ)
      → IsValid dump max_bytes node_size s.registry
      → IsValid dump max_bytes node_size (step dump max_bytes node_size s h now).registry
  unfolding step do_sweep exec
  step-IsValid s (call d) now v = exec-IsValid dump max_bytes node_size d s.registry v
  step-IsValid s (timer true) now v = v
  step-IsValid s (timer false) now v =
      exec-IsValid dump max_bytes node_size (sweep now) s.registry v

  run-Waits :
      (id : Text) (n : NodeInfo V) (late : ℕ) (hs : List (Happening V × ℕ)) (s : Sweeper V)
      → IsValid dump max_bytes node_size s.registry
      → n.status ≡ grace
      → Undisturbed id late s hs
      → Waits id n s
      → Waits id n (run dump max_bytes node_size s hs)
  unfolding run
  run-Waits id n late [] s v g u w = w
  run-Waits id n late ((call d, now) ∷ hs) s v g u w =
      run-Waits id n late hs (step dump max_bytes node_size s (call d) now)
        (step-IsValid s (call d) now v) g u.2 (call-Waits id n s d now v u.0 w)
  run-Waits id n late ((timer true, now) ∷ hs) s v g u w = absurd (cc (u.0))
  run-Waits id n late ((timer false, now) ∷ hs) s v g u w =
      run-Waits id n late hs (step dump max_bytes node_size s (timer false) now)
        (step-IsValid s (timer false) now v) g u.2 (timer-Waits id n s now v g w)

  -- A node in its grace period in a valid registry, with the timer set for no later than five seconds
  -- after the period began. Whatever calls and ends of the timer follow, where no call brings the
  -- node back or begins its period again, no wait fails, and none is more than `late` seconds late:
  -- at any time from 185 + `late` seconds after the period began, the node is gone.
  pub run-gone :
      (id : Text) (n : NodeInfo V) (late now : ℕ) (hs : List (Happening V × ℕ)) (s : Sweeper V)
      → IsValid dump max_bytes node_size s.registry
      → lookup id s.registry.nodes ≡ some n
      → n.status ≡ grace
      → s.expires ≤ n.active_at + sweep_interval
      → Undisturbed id late s hs
      → now ≤ (run dump max_bytes node_size s hs).expires + late
      → n.active_at + grace_period + sweep_interval + late ≤ now
      → lookup id (run dump max_bytes node_size s hs).registry.nodes ≡ none
  unfolding Waits
  run-gone id n late now hs s v e g early u timely passed =
      elim (run-Waits id n late hs s v g u (inr (e, omega arith))) [
        | inl f ↦ f
        | inr both ↦ absurd (omega arith)
      ]
