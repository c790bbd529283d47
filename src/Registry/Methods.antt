-- ===== src/Registry/Methods.antt =====
-- Each method of src/core/registry.cpp keeps the registry valid.
use lightapr.Prelude.{
  ℕ, ◌+◌, ◌≤◌, ◌≡◌, refl, sym, List, [], ◌∷◌, none, some, arith, ◌==◌, length, Bool-cases,
  Option-cases, inl, inr,
}
use mathlib.Core.Path.{subst}
use lightapr.Prelude.Text.{Text, empty}
use lightapr.Prelude.Dict.{lookup, Entries, erase-Distinct, erase-Entries, Entries-map}
use lightapr.Prelude.Int.{ℤ}
use lightapr.Node.{NodeInfo, ok, grace}
use lightapr.Registry.{
  candidates, Registry, grace_period, mark_node_grace, restore_node_active, expired_ids,
  resolve_node,
}
use lightapr.Registry.Updates.{
  Registration, try_set_extra, prune_stale_extra, set_registered, updated_node, fresh_node,
  register_under, register_or_update_node, generate_node_id, update_node_extra,
  remove_node_permanently, remove_all, sweep_expired_nodes,
}
use lightapr.Registry.Extra.{extra_total, Announced, release-Moves}
use lightapr.Registry.Extended.{
  Extended, try_set-Extended, set_registered-Extended, registered-Extended,
}
use lightapr.Registry.Validity.{
  Command, register, mark_grace, restore, announce, resolve, remove, sweep, left_by, exec, run,
  StatusFits, IsValidNode, IsValid, old_total, nodes_total-erase, put-Holds, found,
}

module _ {V : Type 0} (dump : V → Text) (max_bytes node_size : ℕ) where
  -- A valid node stays so when its extra data changes the way the helpers change it.
  extended-IsValidNode :
      (id : Text) (n m : NodeInfo V) (g h : ℤ)
      → n.id ≡ id
      → StatusFits dump max_bytes node_size n
      → Extended dump max_bytes n g m h
      → IsValidNode dump max_bytes node_size id m
  extended-IsValidNode id n m g h own fits x = record {
    own_id = cc (own, x.same.0);
    status_fits = rw (x.same.3, x.same.4) fits;
    announced = subst (λ ws. Announced dump max_bytes ws m.extra) (sym x.same.2) x.announced;
    distinct_extra = x.distinct;
  }

  mark_grace-IsValid :
      (r : Registry V) (now : ℕ) (id : Text)
      → IsValid dump max_bytes node_size r
      → IsValid dump max_bytes node_size (left_by r (mark_node_grace r now id))
  unfolding mark_node_grace left_by old_total
  mark_grace-IsValid r now id v = elim (Option-cases (lookup id r.nodes)) [
    | inl e ↦ rw (left_by, e) v
    | inr (n, e) ↦
        let was = found dump max_bytes node_size r.nodes r.extra_bytes id n v e in
        rw (left_by, e)
          (put-Holds dump max_bytes node_size r.nodes r.extra_bytes r.extra_bytes id
            (record n { status = grace; active_at = now; expires_in = some grace_period }) v
            (record {
              own_id = was.own_id;
              status_fits = inr (refl, refl);
              announced = was.announced;
              distinct_extra = was.distinct_extra;
            })
            (rw e (omega arith)))
  ]

  restore-IsValid :
      (r : Registry V) (now : ℕ) (id : Text)
      → IsValid dump max_bytes node_size r
      → IsValid dump max_bytes node_size (left_by r (restore_node_active r now id))
  unfolding restore_node_active left_by old_total
  restore-IsValid r now id v = elim (Option-cases (lookup id r.nodes)) [
    | inl e ↦ rw (left_by, e) v
    | inr (n, e) ↦
        let was = found dump max_bytes node_size r.nodes r.extra_bytes id n v e in
        rw (left_by, e)
          (put-Holds dump max_bytes node_size r.nodes r.extra_bytes r.extra_bytes id
            (record n { status = ok; active_at = now; expires_in = none }) v
            (record {
              own_id = was.own_id;
              status_fits = inl (refl, refl);
              announced = was.announced;
              distinct_extra = was.distinct_extra;
            })
            (rw e (omega arith)))
  ]

  announce-IsValid :
      (r : Registry V) (now : ℕ) (id worker : Text) (value : V)
      → IsValid dump max_bytes node_size r
      → IsValid dump max_bytes node_size
          (left_by r (update_node_extra dump max_bytes r now id worker value))
  unfolding update_node_extra left_by old_total
  announce-IsValid r now id worker value v = elim (Option-cases (lookup id r.nodes)) [
    | inl e ↦ rw (left_by, e) v
    | inr (n, e) ↦
        let was = found dump max_bytes node_size r.nodes r.extra_bytes id n v e in
        let t = try_set_extra dump max_bytes n r.extra_bytes worker value in
        let x =
          try_set-Extended dump max_bytes n r.extra_bytes worker value was.announced
            was.distinct_extra in
        let valid = extended-IsValidNode id n t.1 r.extra_bytes t.2 was.own_id was.status_fits x in
        elim (Bool-cases t.0) [
          | inr refused ↦ rw (left_by, e, refused) v
          | inl taken ↦
              rw (left_by, e, taken)
                (put-Holds dump max_bytes node_size r.nodes r.extra_bytes t.2 id
                  (record t.1 { active_at = now }) v
                  (record {
                    own_id = valid.own_id;
                    status_fits = valid.status_fits;
                    announced = valid.announced;
                    distinct_extra = valid.distinct_extra;
                  })
                  (rw e x.moves))
        ]
  ]

  pub small_of :
      (n : NodeInfo V)
      → Announced dump max_bytes n.workers n.extra
      → Entries (λ w v. length (dump v) ≤ max_bytes) n.extra
  small_of n a = Entries-map _ _ (λ k v h. h.1) n.extra a

  pub register_under-IsValid :
      (r : Registry V) (q : Registration V) (now : ℕ) (id : Text)
      → IsValid dump max_bytes node_size r
      → IsValid dump max_bytes node_size (register_under dump max_bytes node_size r q now id).0
  unfolding register_under old_total updated_node fresh_node extra_total
  register_under-IsValid r q now id v = elim (Option-cases (lookup id r.nodes)) [
    | inl e ↦
        let n = fresh_node dump q now id in
        let t = set_registered dump max_bytes q.extra n r.extra_bytes in
        let x = set_registered-Extended dump max_bytes q.extra n r.extra_bytes tt tt in
        rw (register_under, e)
          (put-Holds dump max_bytes node_size r.nodes r.extra_bytes t.1 id t.0 v
            (extended-IsValidNode id n t.0 r.extra_bytes t.1 refl (inl (refl, refl)) x)
            (rw (old_total, e) x.moves))
    | inr (old, e) ↦
        let was = found dump max_bytes node_size r.nodes r.extra_bytes id old v e in
        let n = updated_node dump q now old in
        let t = prune_stale_extra dump n r.extra_bytes in
        let u = set_registered dump max_bytes q.extra t.0 t.1 in
        let x =
          registered-Extended dump max_bytes q.extra n r.extra_bytes was.distinct_extra
            (small_of old was.announced) in
        rw (register_under, e)
          (put-Holds dump max_bytes node_size r.nodes r.extra_bytes u.1 id u.0 v
            (extended-IsValidNode id n u.0 r.extra_bytes u.1 was.own_id (inl (refl, refl)) x)
            (rw (old_total, e) x.moves))
  ]

  pub register-IsValid :
      (r : Registry V) (q : Registration V) (now id_now : ℕ)
      → IsValid dump max_bytes node_size r
      → IsValid dump max_bytes node_size
          (register_or_update_node dump max_bytes node_size r q now id_now).0
  unfolding register_or_update_node
  register-IsValid r q now id_now v = elim (Bool-cases (empty q.existing_id)) [
    | inl fresh ↦ rw fresh (
        register_under-IsValid (record r { id_counter = r.id_counter + 1 }) q now
          (generate_node_id id_now r.id_counter)
          (record { distinct = v.distinct; each = v.each; exact = v.exact }))
    | inr given ↦ rw given (register_under-IsValid r q now q.existing_id v)
  ]

  pub remove-IsValid :
      (r : Registry V) (id : Text)
      → IsValid dump max_bytes node_size r
      → IsValid dump max_bytes node_size (left_by r (remove_node_permanently dump node_size r id))
  unfolding remove_node_permanently left_by old_total
  remove-IsValid r id v = elim (Option-cases (lookup id r.nodes)) [
    | inl e ↦ rw (left_by, e) v
    | inr (n, e) ↦
        rw (left_by, e)
          (record {
            distinct = erase-Distinct id r.nodes v.distinct;
            each = erase-Entries _ id r.nodes v.each;
            exact = omega (
              arith,
              release-Moves dump n.extra r.extra_bytes,
              v.exact,
              rw e at (nodes_total-erase dump max_bytes node_size id r.nodes),
            );
          })
  ]

  remove_all-IsValid :
      (ids : List Text) (r : Registry V)
      → IsValid dump max_bytes node_size r
      → IsValid dump max_bytes node_size (remove_all dump node_size r ids).0
  unfolding remove_all left_by
  remove_all-IsValid [] r v = v
  remove_all-IsValid (id ∷ ids) r v =
      elim (Option-cases (remove_node_permanently dump node_size r id)) [
        | inl e ↦ rw (remove_all, e) (remove_all-IsValid ids r v)
        | inr ((r', n), e) ↦
            rw (remove_all, e)
              (remove_all-IsValid ids r' (rw (left_by, e) at (remove-IsValid r id v)))
      ]

  resolve-IsValid :
      (r : Registry V) (role worker : Text)
      → IsValid dump max_bytes node_size r
      → IsValid dump max_bytes node_size (resolve_node r role worker).1
  unfolding resolve_node
  resolve-IsValid r role worker v =
      elim (Bool-cases (length (candidates role worker r.nodes) == 0)) [
        | inl nobody ↦ rw nobody v
        | inr some_one ↦
            rw some_one (record { distinct = v.distinct; each = v.each; exact = v.exact })
      ]

  pub exec-IsValid :
      (c : Command V) (r : Registry V)
      → IsValid dump max_bytes node_size r
      → IsValid dump max_bytes node_size (exec dump max_bytes node_size r c)
  unfolding exec sweep_expired_nodes
  exec-IsValid (register q now id_now) r v = register-IsValid r q now id_now v
  exec-IsValid (mark_grace now id) r v = mark_grace-IsValid r now id v
  exec-IsValid (restore now id) r v = restore-IsValid r now id v
  exec-IsValid (announce now id worker value) r v = announce-IsValid r now id worker value v
  exec-IsValid (resolve role worker) r v = resolve-IsValid r role worker v
  exec-IsValid (remove id) r v = remove-IsValid r id v
  exec-IsValid (sweep now) r v = remove_all-IsValid (expired_ids now r.nodes) r v

  -- Whatever calls are made of a valid registry, it stays valid: the nodes stand under distinct
  -- ids, each under its own; a node that is OK has no expiry and one in its grace period has 180
  -- seconds; every announcement is of a worker of its node and within the limit of bytes; and the
  -- gauge of extra bytes is the sum of their serialised sizes.
  pub run-IsValid :
      (cs : List (Command V)) (r : Registry V)
      → IsValid dump max_bytes node_size r
      → IsValid dump max_bytes node_size (run dump max_bytes node_size r cs)
  unfolding run
  run-IsValid [] r v = v
  run-IsValid (c ∷ cs) r v = run-IsValid cs (exec dump max_bytes node_size r c) (exec-IsValid c r v)
