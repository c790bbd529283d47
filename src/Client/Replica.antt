-- ===== src/Client/Replica.antt =====
-- The copy of the registry that a client of sdk/cpp/src/apr_client.cpp keeps by the events that
-- src/core/registry.cpp calls back with.
use lightapr.Prelude.{◌≡◌, refl, sym, Option, none, some, arith, Bool-cases, inl, inr, ◌⊎◌}
use lightapr.Prelude.Text.{Text, text_eq, text_eq_iff}
use lightapr.Prelude.Dict.{
  Dict, lookup, insert, erase, Distinct, lookup-insert, lookup-erase_ne, lookup-erase_self,
  insert-Distinct, erase-Distinct,
}
use lightapr.Node.{NodeInfo, ok, grace, erased}
use lightapr.Client.Session.{apply_status}

module _ {V : Type 0} where
  -- What the copy has of one node: none if there is none, and else the same node, or one that is
  -- in its grace period as it is.
  abbrev pub Mirror : Option (NodeInfo V) → Option (NodeInfo V) → Type 0
  Mirror none none = Unit {0}
  Mirror none (some k) = ⊥
  Mirror (some n) none = ⊥
  Mirror (some n) (some k) = (k ≡ n) ⊎ ((n.status ≡ grace) × (k.status ≡ grace))

  -- The copy `m` of the nodes `nodes`.
  pub record Mirrors (nodes m : Dict (NodeInfo V)) : Type 0 where
    pub distinct : Distinct m
    pub at : (id : Text) → Mirror (lookup id nodes) (lookup id m)

  -- What an event says of the nodes before and after it.
  pub data Change (nodes nodes' : Dict (NodeInfo V)) (n : NodeInfo V) : Type 0 where
    stored : n.status ≡ ok → nodes' ≡ insert n.id n nodes → Change nodes nodes' n
    graced :
        (old : NodeInfo V)
        → n.status ≡ grace
        → lookup n.id nodes ≡ some old
        → nodes' ≡ insert n.id n nodes
        → Change nodes nodes' n
    gone : n.status ≡ erased → Distinct nodes → nodes' ≡ erase n.id nodes → Change nodes nodes' n

  apply_ok :
      (n : NodeInfo V) (m : Dict (NodeInfo V)) → n.status ≡ ok → apply_status n m ≡ insert n.id n m
  unfolding apply_status
  apply_ok n m e = ground (arith, e)

  apply_grace :
      (n k : NodeInfo V) (m : Dict (NodeInfo V))
      → n.status ≡ grace
      → lookup n.id m ≡ some k
      → apply_status n m ≡ insert n.id (record k { status = grace }) m
  unfolding apply_status
  apply_grace n k m e f = ground (arith, e, f)

  apply_erased :
      (n : NodeInfo V) (m : Dict (NodeInfo V)) → n.status ≡ erased → apply_status n m ≡ erase n.id m
  unfolding apply_status
  apply_erased n m e = ground (arith, e)

  insert-Mirror :
      (id j : Text) (n k : NodeInfo V) (nodes m : Dict (NodeInfo V))
      → Mirror (some n) (some k)
      → Mirror (lookup j nodes) (lookup j m)
      → Mirror (lookup j (insert id n nodes)) (lookup j (insert id k m))
  insert-Mirror id j n k nodes m p q = elim (Bool-cases (text_eq id j)) [
    | inl e ↦ rw (lookup-insert id j n nodes, lookup-insert id j k m, e) p
    | inr e ↦ rw (lookup-insert id j n nodes, lookup-insert id j k m, e) q
  ]

  erase-Mirror :
      (id j : Text) (nodes m : Dict (NodeInfo V))
      → Distinct nodes
      → Distinct m
      → Mirror (lookup j nodes) (lookup j m)
      → Mirror (lookup j (erase id nodes)) (lookup j (erase id m))
  erase-Mirror id j nodes m d f q = elim (Bool-cases (text_eq id j)) [
    | inl e ↦
        let same = (text_eq_iff id j).0 e in
        rw (sym same) (rw (lookup-erase_self id nodes d, lookup-erase_self id m f) tt)
    | inr e ↦ rw (lookup-erase_ne id j nodes e, lookup-erase_ne id j m e) q
  ]

  -- A node that the registry has, the copy has too.
  mirrored :
      (o p : Option (NodeInfo V)) (n : NodeInfo V)
      → Mirror o p
      → o ≡ some n
      → (k : NodeInfo V) × (p ≡ some k)
  mirrored none p n h e = absurd (cc)
  mirrored (some n') none n h e = elim h [ ]
  mirrored (some n') (some k) n h e = (k, refl)

  -- An event brings the copy from the nodes before it to those after it.
  pub Change-Mirrors :
      (nodes nodes' m : Dict (NodeInfo V)) (n : NodeInfo V)
      → Change nodes nodes' n
      → Mirrors nodes m
      → Mirrors nodes' (apply_status n m)
  Change-Mirrors nodes nodes' m n (stored e f) p =
      rw (f, apply_ok n m e)
        (record {
          distinct = insert-Distinct n.id n m p.distinct;
          at = λ j. insert-Mirror n.id j n n nodes m (inl refl) (p.at j);
        })
  Change-Mirrors nodes nodes' m n (graced old e found f) p =
      let (k, g) = mirrored (lookup n.id nodes) (lookup n.id m) old (p.at n.id) found in
      rw (f, apply_grace n k m e g)
        (record {
          distinct = insert-Distinct n.id _ m p.distinct;
          at = λ j.
              insert-Mirror n.id j n (record k { status = grace }) nodes m (inr (e, refl)) (p.at j);
        })
  Change-Mirrors nodes nodes' m n (gone e d f) p =
      rw (f, apply_erased n m e)
        (record {
          distinct = erase-Distinct n.id m p.distinct;
          at = λ j. erase-Mirror n.id j nodes m d p.distinct (p.at j);
        })
