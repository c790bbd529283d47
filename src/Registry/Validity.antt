-- ===== src/Registry/Validity.antt =====
-- The well-formedness of the registry of src/core/registry.cpp, which each of its methods keeps.
use lightapr.Prelude.{ℕ, ◌+◌, ◌≡◌, List, [], ◌∷◌, Option, none, some, arith, ◌⊎◌}
use lightapr.Prelude.Text.{Text}
use lightapr.Prelude.Dict.{
  Dict, lookup, insert, erase, Distinct, Entries, insert-Distinct, insert-Entries, lookup-Entries,
}
use lightapr.Prelude.Int.{ℤ, pos_part, neg_part}
use lightapr.Node.{NodeInfo, ok, grace}
use lightapr.Registry.{Registry, grace_period, mark_node_grace, restore_node_active, resolve_node}
use lightapr.Registry.Updates.{
  Registration, register_or_update_node, update_node_extra, remove_node_permanently,
  sweep_expired_nodes,
}
use lightapr.Registry.Extra.{Moves, extra_total, Announced}

-- A call that changes the registry.
pub data Command (V : Type 0) : Type 0 where
  register : Registration V → ℕ → ℕ → Command V
  mark_grace : ℕ → Text → Command V
  restore : ℕ → Text → Command V
  announce : ℕ → Text → Text → V → Command V
  resolve : Text → Text → Command V
  remove : Text → Command V
  sweep : ℕ → Command V

-- The registry that a method leaves, given whether it did anything.
unfoldable pub left_by : {V : Type 0} → Registry V → Option (Registry V × NodeInfo V) → Registry V
left_by r none = r
left_by r (some (r', n)) = r'

module _ {V : Type 0} (dump : V → Text) (max_bytes node_size : ℕ) where
  unfoldable pub exec : Registry V → Command V → Registry V
  exec r (register q now id_now) =
      (register_or_update_node dump max_bytes node_size r q now id_now).0
  exec r (mark_grace now id) = left_by r (mark_node_grace r now id)
  exec r (restore now id) = left_by r (restore_node_active r now id)
  exec r (announce now id worker value) =
      left_by r (update_node_extra dump max_bytes r now id worker value)
  exec r (resolve role worker) = (resolve_node r role worker).1
  exec r (remove id) = left_by r (remove_node_permanently dump node_size r id)
  exec r (sweep now) = (sweep_expired_nodes dump node_size r now).0

  unfoldable pub run : Registry V → List (Command V) → Registry V
  run r [] = r
  run r (c ∷ cs) = run (exec r c) cs

  -- The status and the seconds that are left go together.
  abbrev pub StatusFits : NodeInfo V → Type 0
  StatusFits n =
      ((n.status ≡ ok) × (n.expires_in ≡ none))
      ⊎ ((n.status ≡ grace) × (n.expires_in ≡ some grace_period))

  pub record IsValidNode (id : Text) (n : NodeInfo V) : Type 0 where
    pub own_id : n.id ≡ id
    pub status_fits : StatusFits n
    pub announced : Announced dump max_bytes n.workers n.extra
    pub distinct_extra : Distinct n.extra

  -- The bytes of all announcements.
  unfoldable pub nodes_total : Dict (NodeInfo V) → ℕ
  nodes_total [] = 0
  nodes_total ((id, n) ∷ m) = extra_total dump n.extra + nodes_total m

  -- Nodes that are valid, under distinct ids, with the gauge of their announcements exact.
  pub record Holds (nodes : Dict (NodeInfo V)) (gauge : ℤ) : Type 0 where
    pub distinct : Distinct nodes
    pub each : Entries IsValidNode nodes
    pub exact : pos_part gauge ≡ neg_part gauge + nodes_total nodes

  abbrev pub IsValid : Registry V → Type 0
  IsValid r = Holds r.nodes r.extra_bytes

  unfoldable pub old_total : Option (NodeInfo V) → ℕ
  old_total none = 0
  old_total (some n) = extra_total dump n.extra

  nodes_total-insert :
      (id : Text) (n : NodeInfo V) (m : Dict (NodeInfo V))
      → nodes_total (insert id n m) + old_total (lookup id m)
        ≡ nodes_total m + extra_total dump n.extra
  unfolding nodes_total insert lookup old_total
  nodes_total-insert id n [] = omega arith
  nodes_total-insert id n ((j, w) ∷ m) = ground (arith, nodes_total-insert id n m)

  pub nodes_total-erase :
      (id : Text) (m : Dict (NodeInfo V))
      → nodes_total (erase id m) + old_total (lookup id m) ≡ nodes_total m
  unfolding nodes_total erase lookup old_total
  nodes_total-erase id [] = omega arith
  nodes_total-erase id ((j, w) ∷ m) = ground (arith, nodes_total-erase id m)

  -- A node is put in, new or in place of another, and the gauge moves as the announcements do.
  pub put-Holds :
      (m : Dict (NodeInfo V)) (g h : ℤ) (id : Text) (n : NodeInfo V)
      → Holds m g
      → IsValidNode id n
      → Moves g h (old_total (lookup id m)) (extra_total dump n.extra)
      → Holds (insert id n m) h
  put-Holds m g h id n v valid moves = record {
    distinct = insert-Distinct id n m v.distinct;
    each = insert-Entries IsValidNode id n m valid v.each;
    exact = omega (arith, nodes_total-insert id n m, moves, v.exact);
  }

  pub found :
      (m : Dict (NodeInfo V)) (g : ℤ) (id : Text) (n : NodeInfo V)
      → Holds m g
      → lookup id m ≡ some n
      → IsValidNode id n
  found m g id n v e = lookup-Entries IsValidNode id n m e v.each
