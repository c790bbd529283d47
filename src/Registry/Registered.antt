-- ===== src/Registry/Registered.antt =====
-- The node that register_or_update_node of src/core/registry.cpp returns.
use mathlib.Core.Path.{subst}
use lightapr.Prelude.{ℕ, ◌+◌, ◌≡◌, refl, ◌∙◌, sym, some, Option-cases, Bool-cases, inl, inr}
use lightapr.Prelude.Text.{Text, empty}
use lightapr.Prelude.Dict.{Dict, lookup, insert, lookup-insert_self}
use lightapr.Node.{NodeInfo, ok}
use lightapr.Registry.{Registry}
use lightapr.Registry.Extended.{set_registered-Extended, registered-Extended}
use lightapr.Registry.Methods.{small_of}
use lightapr.Registry.Updates.{
  Registration, register_or_update_node, register_under, fresh_node, updated_node, set_registered,
  prune_stale_extra, generate_node_id,
}
use lightapr.Registry.Validity.{IsValid, found}

module _ {V : Type 0} (dump : V → Text) (max_bytes node_size : ℕ) where
  -- The node stands in the registry under the id, OK and with what the registration brought.
  pub record IsRegistered (q : Registration V) (nodes : Dict (NodeInfo V)) (id : Text)
      (r : Registry V) (n : NodeInfo V) : Type 0 where
    pub put : r.nodes ≡ insert id n nodes
    pub found_at : lookup id r.nodes ≡ some n
    pub own_id : n.id ≡ id
    pub is_ok : n.status ≡ ok
    pub role : n.role ≡ q.role
    pub workers : n.workers ≡ q.workers

  register_under-IsRegistered :
      (r : Registry V) (q : Registration V) (now : ℕ) (id : Text)
      → IsValid dump max_bytes node_size r
      → let t = register_under dump max_bytes node_size r q now id in
        IsRegistered q r.nodes id t.0 t.1
  unfolding register_under updated_node fresh_node
  register_under-IsRegistered r q now id v = elim (Option-cases (lookup id r.nodes)) [
    | inl e ↦
        let n = fresh_node dump q now id in
        let t = set_registered dump max_bytes q.extra n r.extra_bytes in
        let x = set_registered-Extended dump max_bytes q.extra n r.extra_bytes tt tt in
        rw (register_under, e)
          (record {
            put = refl;
            found_at = lookup-insert_self id t.0 r.nodes;
            own_id = x.same.0;
            is_ok = x.same.3;
            role = x.same.1;
            workers = x.same.2;
          })
    | inr (old, e) ↦
        let was = found dump max_bytes node_size r.nodes r.extra_bytes id old v e in
        let n = updated_node dump q now old in
        let t = prune_stale_extra dump n r.extra_bytes in
        let u = set_registered dump max_bytes q.extra t.0 t.1 in
        let x =
          registered-Extended dump max_bytes q.extra n r.extra_bytes was.distinct_extra
            (small_of dump max_bytes node_size old was.announced) in
        rw (register_under, e)
          (record {
            put = refl;
            found_at = lookup-insert_self id u.0 r.nodes;
            own_id = x.same.0 ∙ was.own_id;
            is_ok = x.same.3;
            role = x.same.1;
            workers = x.same.2;
          })
  ]

  -- The registration of a node puts the one that is returned in a valid registry, under its own id.
  pub register-IsRegistered :
      (r : Registry V) (q : Registration V) (now id_now : ℕ)
      → IsValid dump max_bytes node_size r
      → let t = register_or_update_node dump max_bytes node_size r q now id_now in
        IsRegistered q r.nodes t.1.id t.0 t.1
  unfolding register_or_update_node
  register-IsRegistered r q now id_now v = elim (Bool-cases (empty q.existing_id)) [
    | inl fresh ↦ rw fresh (
        own _ _ (
          register_under-IsRegistered (record r { id_counter = r.id_counter + 1 }) q now
            (generate_node_id id_now r.id_counter)
            (record { distinct = v.distinct; each = v.each; exact = v.exact })))
    | inr given ↦ rw given (own _ _ (register_under-IsRegistered r q now q.existing_id v))
  ]
    where
      own :
          (id : Text) (t : Registry V × NodeInfo V)
          → IsRegistered q r.nodes id t.0 t.1
          → IsRegistered q r.nodes t.1.id t.0 t.1
      own id t x = subst (λ (i : Text). IsRegistered q r.nodes i t.0 t.1) (sym x.own_id) x
