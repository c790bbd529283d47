-- ===== src/Registry/Resolve.antt =====
-- The round robin of resolve_node in src/core/registry.cpp.
use lightapr.Prelude.{
  ℕ, zero, suc, ◌+◌, ◌%◌, ◌<◌, ◌≡◌, refl, ap, ◌∙◌, [], ◌∷◌, some, arith, length, get_elem?,
  get_elem?_lt, true,
}
use native.Mathlib.Nat.{mod-lt, mod-add-mod}
use lightapr.Prelude.Text.{Text}
use lightapr.Prelude.Dict.{Dict, insert, lookup-insert_self}
use lightapr.Node.{NodeInfo}
use lightapr.Registry.{Registry, rr_key, rr_index, is_candidate, candidates, resolve_node}

turn : (i k n : ℕ) → ((i % n + 1) % n + k) % n ≡ (i + suc k) % n
turn i k n =
    mod-add-mod (i % n + 1) n k ∙ ap (λ (t : ℕ). t % n) (omega arith) ∙ mod-add-mod i n (suc k)

rr_index-insert : (key : Text) (i : ℕ) (m : Dict ℕ) → rr_index key (insert key i m) ≡ i
unfolding rr_index
rr_index-insert key i m = rw (rr_index, lookup-insert_self key i m) refl

module _ {V : Type 0} where
  -- The registry after the call is made a number of times.
  unfoldable pub resolve_times : ℕ → Registry V → Text → Text → Registry V
  resolve_times zero r role worker = r
  resolve_times (suc k) r role worker = resolve_times k (resolve_node r role worker).1 role worker

  -- An answer, with the index of the pair moved on.
  resolve_node_lem :
      (r : Registry V) (role worker : Text)
      → 0 < length (candidates role worker r.nodes)
      → let found = candidates role worker r.nodes in
        let idx = rr_index (rr_key role worker) r.rr_indices % length found in
        resolve_node r role worker ≡ (
          get_elem? found idx,
          record r {
            rr_indices = insert (rr_key role worker) ((idx + 1) % length found) r.rr_indices;
          },
        )
  unfolding resolve_node
  resolve_node_lem r role worker h = ground (arith, h)

  next_index :
      (r : Registry V) (role worker : Text)
      → 0 < length (candidates role worker r.nodes)
      → let found = candidates role worker r.nodes in
        rr_index (rr_key role worker) (resolve_node r role worker).1.rr_indices
        ≡ (rr_index (rr_key role worker) r.rr_indices % length found + 1) % length found
  next_index r role worker h =
      let found = candidates role worker r.nodes in
      let idx = rr_index (rr_key role worker) r.rr_indices % length found in
      rw (resolve_node_lem r role worker h)
        (rr_index-insert (rr_key role worker) ((idx + 1) % length found) r.rr_indices)

  same_nodes :
      (r : Registry V) (role worker : Text) → (resolve_node r role worker).1.nodes ≡ r.nodes
  unfolding resolve_node
  same_nodes r role worker = ground arith

  -- With candidates, the calls go through them in turn: the call after `k` others answers with the
  -- one `k` places after the one where the index stood, round the end of the list.
  pub resolve_node-round_robin :
      (k : ℕ) (r : Registry V) (role worker : Text)
      → 0 < length (candidates role worker r.nodes)
      → let found = candidates role worker r.nodes in
        (resolve_node (resolve_times k r role worker) role worker).0
        ≡ get_elem? found ((rr_index (rr_key role worker) r.rr_indices + k) % length found)
  unfolding resolve_times
  resolve_node-round_robin zero r role worker h =
      let e : rr_index (rr_key role worker) r.rr_indices + 0
          ≡ rr_index (rr_key role worker) r.rr_indices =
        omega arith in
      rw (e, resolve_node_lem r role worker h) refl
  resolve_node-round_robin (suc k) r role worker h =
      let found = candidates role worker r.nodes in
      let again =
        resolve_node-round_robin k (resolve_node r role worker).1 role worker
          (rw (same_nodes r role worker) h) in
      (rw (same_nodes r role worker, next_index r role worker h) at again)
      ∙ ap (λ (t : ℕ). get_elem? found t)
          (turn (rr_index (rr_key role worker) r.rr_indices) k (length found))

  pub candidates_at :
      (m : Dict (NodeInfo V)) (role worker : Text) (i : ℕ) (n : NodeInfo V)
      → get_elem? (candidates role worker m) i ≡ some n
      → is_candidate role worker n ≡ true
  unfolding candidates
  candidates_at [] role worker i n h = cc
  candidates_at ((id, w) ∷ m) role worker zero n h =
      ground (arith, h, candidates_at m role worker 0 n)
  candidates_at ((id, w) ∷ m) role worker (suc i) n h =
      ground (arith, h, candidates_at m role worker i n, candidates_at m role worker (suc i) n)

  -- With candidates there is an answer, and it is one of them: a node that is OK, of the role, and
  -- with the worker if one is asked for.
  pub resolve_node-is_candidate :
      (r : Registry V) (role worker : Text)
      → 0 < length (candidates role worker r.nodes)
      → (n : NodeInfo V) × ((resolve_node r role worker).0 ≡ some n)
        × (is_candidate role worker n ≡ true)
  resolve_node-is_candidate r role worker h =
      let found = candidates role worker r.nodes in
      let idx = rr_index (rr_key role worker) r.rr_indices % length found in
      let (n, e) = get_elem?_lt found idx (mod-lt (rr_index (rr_key role worker) r.rr_indices) h) in
      (n, rw (resolve_node_lem r role worker h) e, candidates_at r.nodes role worker idx n e)
