-- ===== src/Registry/Sweep.antt =====
-- The sweep of expired nodes in src/core/registry.cpp.
use lightapr.Prelude.{
  ℕ, ◌+◌, ◌≡◌, ◌∙◌, refl, List, [], ◌∷◌, Option, none, some, leb, ◌&&◌, arith, if◌then◌else◌, false,
  Bool, Option-cases, inl, inr,
}
use lightapr.Prelude.Text.{Text, text_eq_iff}
use lightapr.Prelude.Dict.{
  Dict, lookup, Distinct, lookup-erase_self, lookup-erase_ne, erase-Distinct,
}
use lightapr.Node.{NodeInfo}
use lightapr.Registry.{Registry, grace_period, is_grace, has_worker, expired_ids}
use lightapr.Registry.Updates.{remove_node_permanently, remove_all, sweep_expired_nodes}

module _ {V : Type 0} (dump : V → Text) (node_size : ℕ) where
  -- The node is there, in its grace period, and the period is over.
  unfoldable pub is_expired : ℕ → Option (NodeInfo V) → Bool
  is_expired now none = false
  is_expired now (some n) = is_grace n.status && leb (n.active_at + grace_period) now

  expired_ids_lem :
      (now : ℕ) (id : Text) (m : Dict (NodeInfo V))
      → Distinct m
      → has_worker id (expired_ids now m) ≡ is_expired now (lookup id m)
  unfolding has_worker expired_ids is_expired lookup
  expired_ids_lem now id [] d = refl
  expired_ids_lem now id ((j, w) ∷ m) d =
      ground (arith, text_eq_iff j id, text_eq_iff id j, expired_ids_lem now id m d.1, d.0)

  lookup-remove_all :
      (ids : List Text) (r : Registry V) (id : Text)
      → Distinct r.nodes
      → lookup id (remove_all dump node_size r ids).0.nodes
        ≡ (if has_worker id ids then none else lookup id r.nodes)
  unfolding remove_all has_worker remove_node_permanently
  lookup-remove_all [] r id d = refl
  lookup-remove_all (j ∷ ids) r id d = elim (Option-cases (lookup j r.nodes)) [
    | inl e ↦ rw (remove_all, e, lookup-remove_all ids r id d) (ground (arith, text_eq_iff j id, e))
    | inr (n, e) ↦
        rw (remove_all, e)
          (lookup-remove_all ids _ id (erase-Distinct j r.nodes d)
            ∙ ground (
              arith,
              text_eq_iff j id,
              lookup-erase_self j r.nodes d,
              lookup-erase_ne j id r.nodes,
            ))
  ]

  pub lookup-sweep_expired_nodes :
      (r : Registry V) (now : ℕ) (id : Text)
      → Distinct r.nodes
      → lookup id (sweep_expired_nodes dump node_size r now).0.nodes
        ≡ (if is_expired now (lookup id r.nodes) then none else lookup id r.nodes)
  unfolding sweep_expired_nodes
  lookup-sweep_expired_nodes r now id d =
      rw (lookup-remove_all (expired_ids now r.nodes) r id d, expired_ids_lem now id r.nodes d) refl
