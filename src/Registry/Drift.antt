-- ===== src/Registry/Drift.antt =====
-- The gauge of registry bytes in src/core/registry.cpp.
use lightapr.Prelude.{ℕ, ◌+◌, ◌≡◌, ap, arith, length, none, some}
use lightapr.Prelude.Text.{Text}
use lightapr.Prelude.Dict.{lookup, lookup-insert_self}
use lightapr.Prelude.Int.{pos, pos_part, neg_part, +ℤ_parts, -ℤ_parts}
use lightapr.Node.{NodeInfo}
use lightapr.Registry.{Registry}
use lightapr.Registry.Updates.{
  Registration, updated_node, fresh_node, register_under, remove_node_permanently, node_bytes,
}
use lightapr.Registry.Extended.{set_registered-Extended, registered-Extended}
use lightapr.Registry.Validity.{left_by, IsValid, IsValidNode, found}
use lightapr.Registry.Methods.{register_under-IsValid, small_of}

module _ {V : Type 0} (dump : V → Text) (max_bytes node_size : ℕ) where
  -- What a registration leaves of the node and of the gauge.
  record Registered (r : Registry V) (q : Registration V) (id : Text) (added : ℕ)
      (t : Registry V × NodeInfo V) : Type 0 where
    pub there : lookup id t.0.nodes ≡ some t.1
    pub own_id : t.1.id ≡ id
    pub own_role : t.1.role ≡ q.role
    pub moved :
        pos_part t.0.registry_bytes + neg_part r.registry_bytes
        ≡ neg_part t.0.registry_bytes + pos_part r.registry_bytes + added

  fresh-Registered :
      (r : Registry V) (q : Registration V) (now : ℕ) (id : Text)
      → lookup id r.nodes ≡ none
      → Registered r q id
          (node_size + length q.role + length id)
          (register_under dump max_bytes node_size r q now id)
  unfolding register_under fresh_node node_bytes
  fresh-Registered r q now id e =
      let n = fresh_node dump q now id in
      let x = set_registered-Extended dump max_bytes q.extra n r.extra_bytes tt tt in
      rw (register_under, e)
        (record {
          there = lookup-insert_self id _ r.nodes;
          own_id = x.same.0;
          own_role = x.same.1;
          moved =
              omega
                (arith, +ℤ_parts r.registry_bytes (pos (node_size + length q.role + length id)));
        })

  again-Registered :
      (r : Registry V) (q : Registration V) (now : ℕ) (id : Text) (old : NodeInfo V)
      → lookup id r.nodes ≡ some old
      → IsValidNode dump max_bytes node_size id old
      → Registered r q id 0 (register_under dump max_bytes node_size r q now id)
  unfolding register_under updated_node
  again-Registered r q now id old e was =
      let n = updated_node dump q now old in
      let x =
        registered-Extended dump max_bytes q.extra n r.extra_bytes was.distinct_extra
          (small_of dump max_bytes node_size old was.announced) in
      rw (register_under, e)
        (record {
          there = lookup-insert_self id _ r.nodes;
          own_id = cc (x.same.0, was.own_id);
          own_role = x.same.1;
          moved = omega arith;
        })

  removed :
      (r : Registry V) (id : Text) (n : NodeInfo V)
      → lookup id r.nodes ≡ some n
      → let s = left_by r (remove_node_permanently dump node_size r id) in
        pos_part s.registry_bytes
          + neg_part r.registry_bytes
          + (node_size + length n.role + length n.id)
        ≡ neg_part s.registry_bytes + pos_part r.registry_bytes
  unfolding left_by remove_node_permanently node_bytes
  removed r id n e =
      rw (left_by, e)
        (omega (arith, -ℤ_parts r.registry_bytes (pos (node_size + length n.role + length n.id))))

  -- A node that is registered under a new id, then again under it in another role, and removed,
  -- does not give back the bytes that it took in a valid registry: the gauge falls by the length
  -- of the second role and rises by that of the first.
  pub register-remove_drift :
      (r : Registry V) (first second : Registration V) (now : ℕ) (id : Text)
      → IsValid dump max_bytes node_size r
      → lookup id r.nodes ≡ none
      → let r₁ = (register_under dump max_bytes node_size r first now id).0 in
        let r₂ = (register_under dump max_bytes node_size r₁ second now id).0 in
        let r₃ = left_by r₂ (remove_node_permanently dump node_size r₂ id) in
        pos_part r₃.registry_bytes + neg_part r.registry_bytes + length second.role
        ≡ neg_part r₃.registry_bytes + pos_part r.registry_bytes + length first.role
  register-remove_drift r first second now id v e =
      let t = register_under dump max_bytes node_size r first now id in
      let u = register_under dump max_bytes node_size t.0 second now id in
      let x = fresh-Registered r first now id e in
      let w = register_under-IsValid dump max_bytes node_size r first now id v in
      let y =
        again-Registered t.0 second now id t.1 x.there
          (found dump max_bytes node_size t.0.nodes t.0.extra_bytes id t.1 w x.there) in
      let same_id = ap length y.own_id in
      let same_role = ap length y.own_role in
      omega (arith, removed u.0 id u.1 y.there, x.moved, y.moved, same_id, same_role)
