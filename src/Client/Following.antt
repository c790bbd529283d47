-- ===== src/Client/Following.antt =====
-- A client of sdk/cpp/src/apr_client.cpp that has followed the events of the registry of
-- src/core/registry.cpp.
use mathlib.Core.Path.{subst}
use lightapr.Prelude.{
  ℕ, ◌≡◌, refl, sym, ap, ◌∙◌, Option, none, some, List, [], ◌∷◌, ◌++◌, arith, Option-cases,
  Bool-cases, inl, inr,
}
use lightapr.Prelude.Text.{Text}
use lightapr.Prelude.Dict.{Dict, lookup, insert, erase}
use lightapr.Node.{NodeInfo}
use lightapr.Registry.{Registry, mark_node_grace, restore_node_active, resolve_node, expired_ids}
use lightapr.Registry.Extended.{try_set-Extended}
use lightapr.Registry.Methods.{exec-IsValid, remove-IsValid}
use lightapr.Registry.Registered.{register-IsRegistered}
use lightapr.Registry.Updates.{
  Registration, register_or_update_node, update_node_extra, try_set_extra, remove_node_permanently,
  remove_all, sweep_expired_nodes,
}
use lightapr.Registry.Validity.{
  Command, register, mark_grace, restore, announce, resolve, remove, sweep, left_by, exec, run,
  IsValid, found,
}
use lightapr.Client.{Client}
use lightapr.Client.Session.{apply_node_event, apply_events}
use lightapr.Client.Replica.{Mirrors, Change, stored, graced, gone, Change-Mirrors}

-- The event of a method that did something.
abbrev pub event_of : {V : Type 0} → Option (Registry V × NodeInfo V) → List (NodeInfo V)
event_of none = []
event_of (some (r, n)) = n ∷ []

some_eq {ℓ} : {A : Type ℓ} {a b : A} → some a ≡ some b → a ≡ b
some_eq e = cc

module _ {V : Type 0} (dump : V → Text) (max_bytes node_size : ℕ) where
  -- What a call makes the registry call back with.
  unfoldable pub events : Registry V → Command V → List (NodeInfo V)
  events r (register q now id_now) =
      (register_or_update_node dump max_bytes node_size r q now id_now).1 ∷ []
  events r (mark_grace now id) = event_of (mark_node_grace r now id)
  events r (restore now id) = event_of (restore_node_active r now id)
  events r (announce now id worker value) =
      event_of (update_node_extra dump max_bytes r now id worker value)
  events r (resolve role worker) = []
  events r (remove id) = event_of (remove_node_permanently dump node_size r id)
  events r (sweep now) = (sweep_expired_nodes dump node_size r now).1

  unfoldable pub run_events : Registry V → List (Command V) → List (NodeInfo V)
  run_events r [] = []
  run_events r (d ∷ ds) = events r d ++ run_events (exec dump max_bytes node_size r d) ds

  -- The nodes after events that come one after the other.
  pub data Chain : Dict (NodeInfo V) → List (NodeInfo V) → Dict (NodeInfo V) → Type 0 where
    end : {nodes : Dict (NodeInfo V)} → Chain nodes [] nodes
    link :
        {nodes mid last : Dict (NodeInfo V)} {n : NodeInfo V} {ns : List (NodeInfo V)}
        → Change nodes mid n
        → Chain mid ns last
        → Chain nodes (n ∷ ns) last

  one_event :
      {nodes nodes' : Dict (NodeInfo V)} {n : NodeInfo V}
      → Change nodes nodes' n
      → Chain nodes (n ∷ []) nodes'
  one_event c = link c end

  register-Chain :
      (r : Registry V) (q : Registration V) (now id_now : ℕ)
      → IsValid dump max_bytes node_size r
      → let t = register_or_update_node dump max_bytes node_size r q now id_now in
        Chain r.nodes (t.1 ∷ []) t.0.nodes
  register-Chain r q now id_now v =
      let x = register-IsRegistered dump max_bytes node_size r q now id_now v in
      one_event (stored x.is_ok x.put)

  -- A valid node found under an id stands under its own.
  found_own :
      (r : Registry V) (id : Text) (n : NodeInfo V)
      → IsValid dump max_bytes node_size r
      → lookup id r.nodes ≡ some n
      → (n.id ≡ id) × (lookup n.id r.nodes ≡ some n)
  found_own r id n v e =
      let own = (found dump max_bytes node_size r.nodes r.extra_bytes id n v e).own_id in
      (own, ap (λ (i : Text). lookup i r.nodes) own ∙ e)

  -- The node is put back under its own id.
  put_back :
      (r : Registry V) (id : Text) (n n' : NodeInfo V)
      → n'.id ≡ id
      → insert id n' r.nodes ≡ insert n'.id n' r.nodes
  put_back r id n n' own = ap (λ (i : Text). insert i n' r.nodes) (sym own)

  mark-Chain :
      (r : Registry V) (now : ℕ) (id : Text)
      → IsValid dump max_bytes node_size r
      → Chain r.nodes
          (event_of (mark_node_grace r now id))
          (left_by r (mark_node_grace r now id)).nodes
  unfolding mark_node_grace left_by
  mark-Chain r now id v = elim (Option-cases (lookup id r.nodes)) [
    | inl e ↦ rw (mark_node_grace, e) end
    | inr (n, e) ↦
        let own = found_own r id n v e in
        rw (mark_node_grace, e) (one_event (graced n refl own.1 (put_back r id n _ own.0)))
  ]

  restore-Chain :
      (r : Registry V) (now : ℕ) (id : Text)
      → IsValid dump max_bytes node_size r
      → Chain r.nodes
          (event_of (restore_node_active r now id))
          (left_by r (restore_node_active r now id)).nodes
  unfolding restore_node_active left_by
  restore-Chain r now id v = elim (Option-cases (lookup id r.nodes)) [
    | inl e ↦ rw (restore_node_active, e) end
    | inr (n, e) ↦
        let own = found_own r id n v e in
        rw (restore_node_active, e) (one_event (stored refl (put_back r id n _ own.0)))
  ]

  announce-Chain :
      (r : Registry V) (now : ℕ) (id worker : Text) (value : V)
      → IsValid dump max_bytes node_size r
      → Chain r.nodes
          (event_of (update_node_extra dump max_bytes r now id worker value))
          (left_by r (update_node_extra dump max_bytes r now id worker value)).nodes
  unfolding update_node_extra left_by
  announce-Chain r now id worker value v = elim (Option-cases (lookup id r.nodes)) [
    | inl e ↦ rw (update_node_extra, e) end
    | inr (n, e) ↦
        let own = found_own r id n v e in
        let was = found dump max_bytes node_size r.nodes r.extra_bytes id n v e in
        let t = try_set_extra dump max_bytes n r.extra_bytes worker value in
        let x =
          try_set-Extended dump max_bytes n r.extra_bytes worker value was.announced
            was.distinct_extra in
        let back = put_back r id n (record t.1 { active_at = now }) (x.same.0 ∙ own.0) in
        let there = ap (λ (i : Text). lookup i r.nodes) (x.same.0) ∙ own.1 in
        elim (Bool-cases t.0) [
          | inr refused ↦ rw (update_node_extra, e, refused) end
          | inl taken ↦
              rw (update_node_extra, e, taken)
                (one_event (elim was.status_fits [
                  | inl fit ↦ stored (x.same.3 ∙ fit.0) back
                  | inr fit ↦ graced n (x.same.3 ∙ fit.0) there back
                ]))
        ]
  ]

  remove-Change :
      (r : Registry V) (id : Text) (t : Registry V × NodeInfo V)
      → IsValid dump max_bytes node_size r
      → remove_node_permanently dump node_size r id ≡ some t
      → Change r.nodes t.0.nodes t.1
  unfolding remove_node_permanently
  remove-Change r id t v e = elim (Option-cases (lookup id r.nodes)) [
    | inl f ↦ absurd (ground (arith, e, f))
    | inr (n, f) ↦
        let own = found_own r id n v f in
        subst (λ (u : Registry V × NodeInfo V). Change r.nodes u.0.nodes u.1)
          (some_eq (rw (remove_node_permanently, f) at e))
          (gone refl v.distinct (ap (λ (i : Text). erase i r.nodes) (sym own.0)))
  ]

  remove-Chain :
      (r : Registry V) (id : Text)
      → IsValid dump max_bytes node_size r
      → Chain r.nodes
          (event_of (remove_node_permanently dump node_size r id))
          (left_by r (remove_node_permanently dump node_size r id)).nodes
  unfolding left_by
  remove-Chain r id v = elim (Option-cases (remove_node_permanently dump node_size r id)) [
    | inl e ↦ rw (left_by, e) end
    | inr (t, e) ↦ rw (left_by, e) (one_event (remove-Change r id t v e))
  ]

  remove_all-Chain :
      (ids : List Text) (r : Registry V)
      → IsValid dump max_bytes node_size r
      → let t = remove_all dump node_size r ids in Chain r.nodes t.1 t.0.nodes
  unfolding remove_all left_by
  remove_all-Chain [] r v = end
  remove_all-Chain (id ∷ ids) r v =
      elim (Option-cases (remove_node_permanently dump node_size r id)) [
        | inl e ↦ rw (remove_all, e) (remove_all-Chain ids r v)
        | inr (t, e) ↦
            rw (remove_all, e)
              (link (remove-Change r id t v e) (
                remove_all-Chain ids t.0
                  (rw (left_by, e) at (remove-IsValid dump max_bytes node_size r id v))))
      ]

  -- The events of a call bring the nodes before it to those after it.
  pub exec-Chain :
      (r : Registry V) (d : Command V)
      → IsValid dump max_bytes node_size r
      → Chain r.nodes (events r d) (exec dump max_bytes node_size r d).nodes
  unfolding events exec sweep_expired_nodes resolve_node
  exec-Chain r (register q now id_now) v = register-Chain r q now id_now v
  exec-Chain r (mark_grace now id) v = mark-Chain r now id v
  exec-Chain r (restore now id) v = restore-Chain r now id v
  exec-Chain r (announce now id worker value) v = announce-Chain r now id worker value v
  exec-Chain r (resolve role worker) v =
      let same : (resolve_node r role worker).1.nodes ≡ r.nodes = ground arith in rw same end
  exec-Chain r (remove id) v = remove-Chain r id v
  exec-Chain r (sweep now) v = remove_all-Chain (expired_ids now r.nodes) r v

  Chain-Mirrors :
      {C : Type 0} {nodes last : Dict (NodeInfo V)} {ns : List (NodeInfo V)}
      → Chain nodes ns last
      → (c : Client V C) → Mirrors nodes c.local_nodes
      → Mirrors last (apply_events c ns).local_nodes
  unfolding apply_events apply_node_event
  Chain-Mirrors end c p = p
  Chain-Mirrors (link {nodes = nodes} {mid = mid} {n = n} h t) c p =
      Chain-Mirrors t (apply_node_event c n) (Change-Mirrors nodes mid c.local_nodes n h p)

  apply_events-append :
      {C : Type 0} (ms ns : List (NodeInfo V)) (c : Client V C)
      → apply_events c (ms ++ ns) ≡ apply_events (apply_events c ms) ns
  unfolding apply_events
  apply_events-append [] ns c = refl
  apply_events-append (m ∷ ms) ns c = apply_events-append ms ns (apply_node_event c m)

  -- A client whose copy mirrors a valid registry, as after a snapshot of it, and that applies the
  -- events of any calls that follow, in their order, has a copy that mirrors the registry after
  -- them: it has the same ids, and each node is the same in every member, or in its grace period in
  -- both.
  pub apply_events-Mirrors :
      {C : Type 0} (ds : List (Command V)) (r : Registry V) (c : Client V C)
      → IsValid dump max_bytes node_size r
      → Mirrors r.nodes c.local_nodes
      → Mirrors
          (run dump max_bytes node_size r ds).nodes
          (apply_events c (run_events r ds)).local_nodes
  unfolding run run_events apply_events
  apply_events-Mirrors [] r c v p = p
  apply_events-Mirrors (d ∷ ds) r c v p =
      let t = exec dump max_bytes node_size r d in
      rw (apply_events-append (events r d) (run_events t ds) c) (
        apply_events-Mirrors ds t (apply_events c (events r d))
          (exec-IsValid dump max_bytes node_size d r v) (Chain-Mirrors (exec-Chain r d v) c p))
