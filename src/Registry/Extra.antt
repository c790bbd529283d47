-- ===== src/Registry/Extra.antt =====
-- The extra data of one node in src/core/registry.cpp, and the gauge of its bytes.
use lightapr.Prelude.{
  ℕ, ◌+◌, ◌≤◌, ◌≡◌, refl, List, [], ◌∷◌, none, some, arith, ltb, length, if◌then◌else◌, true, false,
  Bool-cases, inl, inr,
}
use lightapr.Prelude.Text.{Text, text_eq_iff}
use lightapr.Prelude.Dict.{
  Dict, lookup, insert, erase, Distinct, Entries, lookup-erase_self, lookup-erase_ne,
  insert-Distinct, erase-Distinct, insert-Entries, lookup-Entries, Entries-of_lookup,
}
use lightapr.Prelude.Int.{ℤ, pos, ◌-ℤ◌, pos_part, neg_part, +ℤ_parts, -ℤ_parts}
use lightapr.Node.{NodeInfo}
use lightapr.Registry.{has_worker}
use lightapr.Registry.Updates.{
  extra_size, try_set_extra, stale_keys, drop_keys, prune_stale_extra, release_extra,
}

-- The gauge moves from `g` to `h` as a quantity falls by `a` and rises by `b`.
abbrev pub Moves : ℤ → ℤ → ℕ → ℕ → Type 0
Moves g h a b = pos_part h + neg_part g + a ≡ neg_part h + pos_part g + b

module _ {V : Type 0} (dump : V → Text) where
  -- The serialised bytes of the announcements.
  unfoldable pub extra_total : Dict V → ℕ
  extra_total [] = 0
  extra_total ((k, v) ∷ m) = length (dump v) + extra_total m

  extra_total-insert :
      (k : Text) (v : V) (m : Dict V)
      → extra_total (insert k v m) + extra_size dump k m ≡ extra_total m + length (dump v)
  unfolding extra_total insert extra_size lookup
  extra_total-insert k v [] = omega arith
  extra_total-insert k v ((j, w) ∷ m) = ground (arith, extra_total-insert k v m)

  extra_total-erase :
      (k : Text) (m : Dict V) → extra_total (erase k m) + extra_size dump k m ≡ extra_total m
  unfolding extra_total erase extra_size lookup
  extra_total-erase k [] = omega arith
  extra_total-erase k ((j, w) ∷ m) = ground (arith, extra_total-erase k m)

  -- An announcement is of a worker of the node, and within the limit.
  abbrev pub Announced : ℕ → List Text → Dict V → Type 0
  Announced max_bytes workers m =
      Entries (λ w v. (has_worker w workers ≡ true) × (length (dump v) ≤ max_bytes)) m

  pub try_set-Announced :
      (max_bytes : ℕ) (n : NodeInfo V) (g : ℤ) (w : Text) (v : V)
      → Announced max_bytes n.workers n.extra
      → Announced max_bytes n.workers (try_set_extra dump max_bytes n g w v).1.extra
  unfolding try_set_extra
  try_set-Announced max_bytes n g w v h = elim (Bool-cases (has_worker w n.workers)) [
    | inr unknown ↦ rw unknown h
    | inl known ↦ elim (Bool-cases (ltb max_bytes (length (dump v)))) [
      | inl large ↦ rw (known, large) h
      | inr fits ↦ rw (known, fits) (insert-Entries _ w v n.extra (known, ground arith) h)
    ]
  ]

  pub try_set-Moves :
      (max_bytes : ℕ) (n : NodeInfo V) (g : ℤ) (w : Text) (v : V)
      → let t = try_set_extra dump max_bytes n g w v in
        Moves g t.2 (extra_total n.extra) (extra_total t.1.extra)
  unfolding try_set_extra
  try_set-Moves max_bytes n g w v = ground (
    arith,
    extra_total-insert w v n.extra,
    +ℤ_parts g (pos (length (dump v)) -ℤ pos (extra_size dump w n.extra)),
    -ℤ_parts (pos (length (dump v))) (pos (extra_size dump w n.extra)),
  )

  pub try_set-Distinct :
      (max_bytes : ℕ) (n : NodeInfo V) (g : ℤ) (w : Text) (v : V)
      → Distinct n.extra
      → Distinct (try_set_extra dump max_bytes n g w v).1.extra
  unfolding try_set_extra
  try_set-Distinct max_bytes n g w v d = ground (arith, insert-Distinct w v n.extra d)

  -- Nothing but the extra data of the node changes.
  abbrev pub SameNode : NodeInfo V → NodeInfo V → Type 0
  SameNode n m =
      (m.id ≡ n.id)
      × (m.role ≡ n.role)
      × (m.workers ≡ n.workers)
      × (m.status ≡ n.status)
      × (m.expires_in ≡ n.expires_in)

  pub try_set-SameNode :
      (max_bytes : ℕ) (n : NodeInfo V) (g : ℤ) (w : Text) (v : V)
      → SameNode n (try_set_extra dump max_bytes n g w v).1
  unfolding try_set_extra
  try_set-SameNode max_bytes n g w v = ground arith

  -- The keys that are dropped are gone, and the others stay.
  lookup-drop_keys :
      (ks : List Text) (m : Dict V) (g : ℤ) (k : Text)
      → Distinct m
      → lookup k (drop_keys dump ks m g).0 ≡ (if has_worker k ks then none else lookup k m)
  unfolding drop_keys has_worker
  lookup-drop_keys [] m g k d = refl
  lookup-drop_keys (j ∷ ks) m g k d =
      rw (lookup-drop_keys ks (erase j m) (g -ℤ pos (extra_size dump j m)) k (erase-Distinct j m d))
        (ground (arith, text_eq_iff j k, lookup-erase_self j m d, lookup-erase_ne j k m))

  drop_keys-Distinct :
      (ks : List Text) (m : Dict V) (g : ℤ) → Distinct m → Distinct (drop_keys dump ks m g).0
  unfolding drop_keys
  drop_keys-Distinct [] m g d = d
  drop_keys-Distinct (j ∷ ks) m g d =
      drop_keys-Distinct ks (erase j m) (g -ℤ pos (extra_size dump j m)) (erase-Distinct j m d)

  drop_keys-Moves :
      (ks : List Text) (m : Dict V) (g : ℤ)
      → let t = drop_keys dump ks m g in Moves g t.1 (extra_total m) (extra_total t.0)
  unfolding drop_keys
  drop_keys-Moves [] m g = omega arith
  drop_keys-Moves (j ∷ ks) m g = omega (
    arith,
    drop_keys-Moves ks (erase j m) (g -ℤ pos (extra_size dump j m)),
    extra_total-erase j m,
    -ℤ_parts g (pos (extra_size dump j m)),
  )

  stale_has :
      (ws : List Text) (m : Dict V) (k : Text) (v : V)
      → lookup k m ≡ some v
      → has_worker k (stale_keys dump ws m) ≡ false
      → has_worker k ws ≡ true
  unfolding stale_keys lookup has_worker
  stale_has ws [] k v e h = cc
  stale_has ws ((j, w) ∷ m) k v e h = ground (arith, text_eq_iff j k, stale_has ws m k v)

  -- After the pruning only announcements of the workers are left.
  pub prune-Announced :
      (max_bytes : ℕ) (n : NodeInfo V) (g : ℤ)
      → Distinct n.extra
      → Entries (λ w v. length (dump v) ≤ max_bytes) n.extra
      → Announced max_bytes n.workers (prune_stale_extra dump n g).0.extra
  unfolding prune_stale_extra
  prune-Announced max_bytes n g d small =
      Entries-of_lookup _ _ (drop_keys-Distinct (stale_keys dump n.workers n.extra) n.extra g d)
        (λ k v e.
          let stale : (if has_worker k (stale_keys dump n.workers n.extra)
                then none
                else lookup k n.extra)
              ≡ some v =
            rw (lookup-drop_keys (stale_keys dump n.workers n.extra) n.extra g k d) at e in
          elim (Bool-cases (has_worker k (stale_keys dump n.workers n.extra))) [
            | inl gone ↦ absurd (none-ne_some (rw gone at stale))
            | inr kept ↦
                let there : lookup k n.extra ≡ some v = rw kept at stale in
                (
                  stale_has n.workers n.extra k v there kept,
                  lookup-Entries _ k v n.extra there small,
                )
          ])
    where
      none-ne_some : {v : V} → none ≡ some v → ⊥
      none-ne_some e = cc

  pub prune-Distinct :
      (n : NodeInfo V) (g : ℤ) → Distinct n.extra → Distinct (prune_stale_extra dump n g).0.extra
  unfolding prune_stale_extra
  prune-Distinct n g d = drop_keys-Distinct (stale_keys dump n.workers n.extra) n.extra g d

  pub prune-Moves :
      (n : NodeInfo V) (g : ℤ)
      → let t = prune_stale_extra dump n g in
        Moves g t.1 (extra_total n.extra) (extra_total t.0.extra)
  unfolding prune_stale_extra
  prune-Moves n g = drop_keys-Moves (stale_keys dump n.workers n.extra) n.extra g

  pub prune-SameNode : (n : NodeInfo V) (g : ℤ) → SameNode n (prune_stale_extra dump n g).0
  unfolding prune_stale_extra
  prune-SameNode n g = (refl, refl, refl, refl, refl)

  pub release-Moves : (m : Dict V) (g : ℤ) → Moves g (release_extra dump m g) (extra_total m) 0
  unfolding release_extra extra_total
  release-Moves [] g = omega arith
  release-Moves ((k, v) ∷ m) g =
      omega
        (arith, release-Moves m (g -ℤ pos (length (dump v))), -ℤ_parts g (pos (length (dump v))))
