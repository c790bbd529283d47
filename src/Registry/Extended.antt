-- ===== src/Registry/Extended.antt =====
-- What the changes of the extra data in src/core/registry.cpp keep of a node, one after the other.
use lightapr.Prelude.{ℕ, ◌≤◌, refl, sym, [], ◌∷◌, Option, none, some, arith, length}
use lightapr.Prelude.Text.{Text}
use lightapr.Prelude.Dict.{Dict, Distinct, Entries}
use lightapr.Prelude.Int.{ℤ}
use mathlib.Core.Path.{subst}
use lightapr.Node.{NodeInfo}
use lightapr.Registry.Updates.{try_set_extra, prune_stale_extra, set_extras, set_registered}
use lightapr.Registry.Extra.{
  Moves, extra_total, Announced, SameNode, try_set-Announced, try_set-Moves, try_set-Distinct,
  try_set-SameNode, prune-Announced, prune-Distinct, prune-Moves, prune-SameNode,
}

module _ {V : Type 0} (dump : V → Text) where
  -- A node with its gauge, that another has come from by changes of its extra data alone.
  pub record Extended (max_bytes : ℕ) (n : NodeInfo V) (g : ℤ) (m : NodeInfo V) (h : ℤ)
      : Type 0 where
    pub same : SameNode dump n m
    pub announced : Announced dump max_bytes n.workers m.extra
    pub distinct : Distinct m.extra
    pub moves : Moves g h (extra_total dump n.extra) (extra_total dump m.extra)

  pub try_set-Extended :
      (max_bytes : ℕ) (n : NodeInfo V) (g : ℤ) (w : Text) (v : V)
      → Announced dump max_bytes n.workers n.extra
      → Distinct n.extra
      → let t = try_set_extra dump max_bytes n g w v in Extended max_bytes n g t.1 t.2
  try_set-Extended max_bytes n g w v a d = record {
    same = try_set-SameNode dump max_bytes n g w v;
    announced = try_set-Announced dump max_bytes n g w v a;
    distinct = try_set-Distinct dump max_bytes n g w v d;
    moves = try_set-Moves dump max_bytes n g w v;
  }

  Extended-trans :
      (max_bytes : ℕ) (n m o : NodeInfo V) (g h i : ℤ)
      → Extended max_bytes n g m h
      → Extended max_bytes m h o i
      → Extended max_bytes n g o i
  Extended-trans max_bytes n m o g h i x y = record {
    same = ground (arith, x.same, y.same);
    announced = subst (λ ws. Announced dump max_bytes ws o.extra) x.same.2 y.announced;
    distinct = y.distinct;
    moves = omega (arith, x.moves, y.moves);
  }

  pub set_extras-Extended :
      (max_bytes : ℕ) (es : Dict V) (n : NodeInfo V) (g : ℤ)
      → Announced dump max_bytes n.workers n.extra
      → Distinct n.extra
      → let t = set_extras dump max_bytes es n g in Extended max_bytes n g t.0 t.1
  unfolding set_extras
  set_extras-Extended max_bytes [] n g a d = record {
    same = (refl, refl, refl, refl, refl);
    announced = a;
    distinct = d;
    moves = omega arith;
  }
  set_extras-Extended max_bytes ((k, v) ∷ es) n g a d =
      let t = try_set_extra dump max_bytes n g k v in
      let first = try_set-Extended max_bytes n g k v a d in
      Extended-trans max_bytes n t.1 (set_extras dump max_bytes es t.1 t.2).0 g t.2
        (set_extras dump max_bytes es t.1 t.2).1 first
        (set_extras-Extended max_bytes es t.1 t.2
          (subst (λ ws. Announced dump max_bytes ws t.1.extra) (sym first.same.2) first.announced)
          first.distinct)

  pub set_registered-Extended :
      (max_bytes : ℕ) (o : Option (Dict V)) (n : NodeInfo V) (g : ℤ)
      → Announced dump max_bytes n.workers n.extra
      → Distinct n.extra
      → let t = set_registered dump max_bytes o n g in Extended max_bytes n g t.0 t.1
  unfolding set_registered
  set_registered-Extended max_bytes (some es) n g a d = set_extras-Extended max_bytes es n g a d
  set_registered-Extended max_bytes none n g a d = record {
    same = (refl, refl, refl, refl, refl);
    announced = a;
    distinct = d;
    moves = omega arith;
  }

  -- The pruning of a node whose workers have changed.
  pub prune-Extended :
      (max_bytes : ℕ) (n : NodeInfo V) (g : ℤ)
      → Distinct n.extra
      → Entries (λ w v. length (dump v) ≤ max_bytes) n.extra
      → let t = prune_stale_extra dump n g in Extended max_bytes n g t.0 t.1
  prune-Extended max_bytes n g d small = record {
    same = prune-SameNode dump n g;
    announced = prune-Announced dump max_bytes n g d small;
    distinct = prune-Distinct dump n g d;
    moves = prune-Moves dump n g;
  }

  -- The pruning, and then what the registration brings.
  pub registered-Extended :
      (max_bytes : ℕ) (o : Option (Dict V)) (n : NodeInfo V) (g : ℤ)
      → Distinct n.extra
      → Entries (λ w v. length (dump v) ≤ max_bytes) n.extra
      → let t = prune_stale_extra dump n g in
        let u = set_registered dump max_bytes o t.0 t.1 in Extended max_bytes n g u.0 u.1
  registered-Extended max_bytes o n g d small =
      let t = prune_stale_extra dump n g in
      let u = set_registered dump max_bytes o t.0 t.1 in
      let first = prune-Extended max_bytes n g d small in
      Extended-trans max_bytes n t.0 u.0 g t.1 u.1 first (
        set_registered-Extended max_bytes o t.0 t.1
          (subst (λ ws. Announced dump max_bytes ws t.0.extra) (sym first.same.2) first.announced)
          first.distinct)
