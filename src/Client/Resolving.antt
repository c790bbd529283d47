-- ===== src/Client/Resolving.antt =====
-- resolve_node of sdk/cpp/src/apr_client.cpp beside that of src/core/registry.cpp.
use lightapr.Prelude.{
  ℕ, zero, suc, ◌%◌, ◌<◌, ◌≡◌, ◌⊎◌, refl, ap, ◌∙◌, true, false, Option, none, some, List, [], ◌∷◌,
  arith, length, get_elem?, get_elem?_lt, Bool-cases, inl, inr,
}
use native.Mathlib.Nat.{mod-lt}
use lightapr.Prelude.Text.{Text, text_eq_iff, text_eq_refl}
use lightapr.Prelude.Dict.{Dict, lookup, Distinct}
use lightapr.Node.{NodeInfo, grace}
use lightapr.Registry.{Registry, has_worker, is_ok, is_candidate, candidates, rr_key, rr_index}
use lightapr.Registry as Registry
use lightapr.Registry.Resolve.{candidates_at}
use lightapr.Registry.Validity.{Command, run, IsValid, found}
use lightapr.Registry.Methods.{run-IsValid}
use lightapr.Client.{Client}
use lightapr.Client.Session.{
  has_local_worker, is_local_candidate, local_candidates, local_index, is_ok_status, resolve_node,
  apply_events,
}
use lightapr.Client.Replica.{Mirror, Mirrors}
use lightapr.Client.Following.{run_events, apply_events-Mirrors}

has_local_worker-has_worker : (w : Text) (ws : List Text) → has_local_worker w ws ≡ has_worker w ws
unfolding has_local_worker has_worker
has_local_worker-has_worker w [] = refl
has_local_worker-has_worker w (x ∷ xs) = rw (has_local_worker-has_worker w xs) refl

local_index-rr_index : (key : Text) (m : Dict ℕ) → local_index key m ≡ rr_index key m
unfolding local_index rr_index
local_index-rr_index key m = refl

empty_or_not : {A : Type 0} (xs : List A) → (xs ≡ []) ⊎ (0 < length xs)
empty_or_not [] = inl refl
empty_or_not (x ∷ xs) = inr (omega arith)

module _ {V : Type 0} where
  is_local_candidate-is_candidate :
      (role worker : Text) (n : NodeInfo V)
      → is_local_candidate role worker n ≡ is_candidate role worker n
  unfolding is_local_candidate is_candidate is_ok is_ok_status
  is_local_candidate-is_candidate role worker n =
      ground (arith, has_local_worker-has_worker worker n.workers)

  -- The loop over the client's copy finds what the registry's loop finds in the same nodes.
  local_candidates-candidates :
      (role worker : Text) (m : Dict (NodeInfo V))
      → local_candidates role worker m ≡ candidates role worker m
  unfolding local_candidates candidates
  local_candidates-candidates role worker [] = refl
  local_candidates-candidates role worker ((id, n) ∷ m) =
      rw (is_local_candidate-is_candidate role worker n, local_candidates-candidates role worker m)
        refl

  -- A client whose copy is the registry's nodes in the same order, with the same round-robin
  -- indices, gives the registry's answer to every call of resolve_node, and moves the indices as
  -- the registry does.
  pub resolve_node-resolve_node :
      {C : Type 0} (r : Registry V) (c : Client V C) (role worker : Text)
      → c.local_nodes ≡ r.nodes
      → c.rr_indices ≡ r.rr_indices
      → let mine = resolve_node c role worker in
        let theirs = Registry.resolve_node r role worker in
        (mine.0 ≡ theirs.0)
        × (mine.1.rr_indices ≡ theirs.1.rr_indices)
        × (mine.1.local_nodes ≡ theirs.1.nodes)
  unfolding resolve_node Registry.resolve_node rr_key
  resolve_node-resolve_node r c role worker nodes indices =
      let same : local_candidates role worker c.local_nodes ≡ candidates role worker r.nodes =
        local_candidates-candidates role worker c.local_nodes
        ∙ ap (λ (m : Dict (NodeInfo V)). candidates role worker m) nodes in
      let index : local_index (rr_key role worker) c.rr_indices
          ≡ rr_index (rr_key role worker) r.rr_indices =
        local_index-rr_index (rr_key role worker) c.rr_indices
        ∙ ap (λ (m : Dict ℕ). rr_index (rr_key role worker) m) indices in
      ground (arith, same, index, nodes, indices)

  -- A candidate is a node of the map, under some key.
  weaken :
      (m : Dict (NodeInfo V)) (j : Text) (w n : NodeInfo V)
      → lookup j m ≡ none
      → (id : Text) × (lookup id m ≡ some n)
      → (id : Text) × (lookup id ((j, w) ∷ m) ≡ some n)
  unfolding lookup
  weaken m j w n fresh (id, e) = (id, ground (arith, text_eq_iff j id, fresh, e))

  candidates_in :
      (m : Dict (NodeInfo V)) (role worker : Text) (i : ℕ) (n : NodeInfo V)
      → Distinct m
      → get_elem? (candidates role worker m) i ≡ some n
      → (id : Text) × (lookup id m ≡ some n)
  unfolding candidates lookup
  candidates_in [] role worker i n d h = absurd (cc)
  candidates_in ((id, w) ∷ m) role worker zero n d h =
      elim (Bool-cases (is_candidate role worker w)) [
        | inr e ↦
            weaken m id w n d.0 (candidates_in m role worker 0 n d.1 (rw (candidates, e) at h))
        | inl e ↦ (id, rw (text_eq_refl id) (rw (candidates, e) at h))
      ]
  candidates_in ((id, w) ∷ m) role worker (suc i) n d h =
      weaken m id w n d.0 (elim (Bool-cases (is_candidate role worker w)) [
        | inr e ↦ candidates_in m role worker (suc i) n d.1 (rw (candidates, e) at h)
        | inl e ↦ candidates_in m role worker i n d.1 (rw (candidates, e) at h)
      ])

  -- Where the candidates are none, no node of the map is one.
  not_candidate :
      (m : Dict (NodeInfo V)) (role worker id : Text) (n : NodeInfo V)
      → candidates role worker m ≡ []
      → lookup id m ≡ some n
      → is_candidate role worker n ≡ false
  unfolding candidates lookup
  not_candidate [] role worker id n h e = cc
  not_candidate ((j, w) ∷ m) role worker id n h e = ground (arith, not_candidate m role worker id n)

  no_candidates :
      (m : Dict (NodeInfo V)) (role worker : Text)
      → Distinct m
      → ((id : Text) (n : NodeInfo V) → lookup id m ≡ some n → is_candidate role worker n ≡ false)
      → candidates role worker m ≡ []
  unfolding candidates lookup
  no_candidates [] role worker d h = refl
  no_candidates ((id, w) ∷ m) role worker d h =
      rw (candidates, h id w (rw (text_eq_refl id) refl))
        (no_candidates m role worker d.1
          (λ j n e. h j n (ground (arith, text_eq_iff id j, d.0, e))))

  -- What a client may answer: none where the registry has no candidate, and else one of the
  -- registry's candidates, as the registry has it.
  abbrev pub Answers : Registry V → Text → Text → Option (NodeInfo V) → Type 0
  Answers r role worker none = candidates role worker r.nodes ≡ []
  Answers r role worker (some n) =
      (is_candidate role worker n ≡ true) × (lookup n.id r.nodes ≡ some n)

  some_eq : {a b : NodeInfo V} → some a ≡ some b → a ≡ b
  some_eq e = cc

  grace_not :
      (role worker : Text) (n : NodeInfo V) → n.status ≡ grace → is_candidate role worker n ≡ false
  unfolding is_candidate is_ok
  grace_not role worker n e = rw (is_candidate, e) refl

  -- A candidate of the copy is the registry's node.
  mirrored_candidate :
      (role worker : Text) (o p : Option (NodeInfo V)) (n : NodeInfo V)
      → Mirror o p
      → p ≡ some n
      → is_candidate role worker n ≡ true
      → o ≡ some n
  mirrored_candidate role worker o none n h e t = absurd (cc)
  mirrored_candidate role worker none (some k) n h e t = elim h [ ]
  mirrored_candidate role worker (some n') (some k) n h e t = elim h [
    | inl same ↦ cc
    | inr both ↦ absurd (ground (arith, grace_not role worker k both.1, some_eq e))
  ]

  -- A node that is no candidate in the copy is none in the registry.
  mirrored_other :
      (role worker : Text) (o p : Option (NodeInfo V)) (n : NodeInfo V)
      → Mirror o p
      → o ≡ some n
      → ((k : NodeInfo V) → p ≡ some k → is_candidate role worker k ≡ false)
      → is_candidate role worker n ≡ false
  mirrored_other role worker none p n h e t = cc
  mirrored_other role worker (some n') none n h e t = elim h [ ]
  mirrored_other role worker (some n') (some k) n h e t = elim h [
    | inl same ↦ ground (arith, t k refl, some_eq e)
    | inr both ↦ ground (arith, grace_not role worker n' both.0, some_eq e)
  ]

  -- The answer of a call: none without candidates, and else one of the candidates.
  answer_cases :
      {C : Type 0} (c : Client V C) (role worker : Text)
      → let found = candidates role worker c.local_nodes in
        ((found ≡ []) × ((resolve_node c role worker).0 ≡ none))
        ⊎ ((i : ℕ) × (n : NodeInfo V) × (get_elem? found i ≡ some n)
            × ((resolve_node c role worker).0 ≡ some n))
  unfolding resolve_node rr_key
  answer_cases c role worker =
      let same = local_candidates-candidates role worker c.local_nodes in
      elim (empty_or_not (candidates role worker c.local_nodes)) [
        | inl e ↦ inl (e, rw (resolve_node, same, e) refl)
        | inr lt ↦
            let found = candidates role worker c.local_nodes in
            let i = local_index (rr_key role worker) c.rr_indices % length found in
            let (n, e) =
              get_elem?_lt found i (mod-lt (local_index (rr_key role worker) c.rr_indices) lt) in
            inr (i, n, e, ground (arith, same, lt, e))
      ]

  resolve_node-Answers :
      {C : Type 0} (max_bytes node_size : ℕ) (dump : V → Text) (r : Registry V) (c : Client V C)
      (role worker : Text)
      → IsValid dump max_bytes node_size r
      → Mirrors r.nodes c.local_nodes
      → Answers r role worker (resolve_node c role worker).0
  resolve_node-Answers max_bytes node_size dump r c role worker v p =
      elim (answer_cases c role worker) [
        | inl (e, f) ↦ rw f (
            no_candidates r.nodes role worker v.distinct (λ id n g.
              mirrored_other role worker (lookup id r.nodes) (lookup id c.local_nodes) n (p.at id) g
                (λ k l. not_candidate c.local_nodes role worker id k e l)))
        | inr (i, n, e, f) ↦
            let t = candidates_at c.local_nodes role worker i n e in
            let (id, l) = candidates_in c.local_nodes role worker i n p.distinct e in
            let there =
              mirrored_candidate role worker (lookup id r.nodes) (lookup id c.local_nodes) n
                (p.at id) l t in
            let own = (found dump max_bytes node_size r.nodes r.extra_bytes id n v there).own_id in
            rw f (t, ap (λ (k : Text). lookup k r.nodes) own ∙ there)
      ]

  -- A client that has the copy of a valid registry and applies the events of the calls that follow,
  -- in their order: its resolve_node answers with none exactly where the registry has no candidate,
  -- and else with a node that the registry has, as it has it, and that is OK, of the role, and with
  -- the worker if one is asked for.
  pub resolve_node-apply_events :
      {C : Type 0} (dump : V → Text) (max_bytes node_size : ℕ) (ds : List (Command V))
      (r : Registry V) (c : Client V C) (role worker : Text)
      → IsValid dump max_bytes node_size r
      → Mirrors r.nodes c.local_nodes
      → Answers
          (run dump max_bytes node_size r ds)
          role
          worker
          (resolve_node (apply_events c (run_events dump max_bytes node_size r ds)) role worker).0
  resolve_node-apply_events dump max_bytes node_size ds r c role worker v p =
      resolve_node-Answers max_bytes node_size dump (run dump max_bytes node_size r ds)
        (apply_events c (run_events dump max_bytes node_size r ds)) role worker
        (run-IsValid dump max_bytes node_size ds r v)
        (apply_events-Mirrors dump max_bytes node_size ds r c v p)
