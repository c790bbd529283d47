-- ===== src/Registry.antt =====
-- include/apr/registry.hpp and src/core/registry.cpp: the registry of nodes. The lock makes each
-- method one step, but for the sweep, which is modelled with no other call between its parts.
-- `now` is the clock's reading in seconds, `dump` the serialisation of nlohmann/json, and
-- `node_size` is sizeof(node_info). The map of nodes is a list in the container's order of
-- iteration, which the standard leaves open: a new node is put at its end. An event is the node
-- that the callbacks get; the callbacks are in Observers, and the log is left out.
mod Tests
pub mod Updates
pub mod Extra
pub mod Extended
pub mod Validity
pub mod Methods
pub mod Registered
pub mod Resolve
pub mod Pages
pub mod Stats
pub mod Sweep
pub mod Drift
pub mod Observers
use lightapr.Prelude.{
  ℕ, zero, suc, ◌+◌, ◌-◌, ◌*◌, ◌%◌, ◌^◌, Bool, true, false, not, ◌&&◌, ◌||◌, Option, none, some,
  List, [], ◌∷◌, ◌++◌, ltb, leb, ◌==◌, if◌then◌else◌, length, take, drop, get_elem?, min, map,
}
use lightapr.Prelude.Text.{Text, codes, text_eq, empty}
use lightapr.Prelude.Dict.{Dict, lookup, insert, erase}
use lightapr.Prelude.Int.{ℤ, pos, ◌+ℤ◌, ◌-ℤ◌, sub_ℕ}
use lightapr.Node.{EndpointInfo, NodeInfo, NodeStatus, ok, grace, erased}

-- What the registry holds: the nodes, the round-robin indices, the two counters, and the two gauges
-- of the memory tracker that it alone moves.
pub record Registry (V : Type 0) : Type 0 where
  pub nodes : Dict (NodeInfo V)
  pub rr_indices : Dict ℕ
  pub id_counter : ℕ
  pub registry_bytes : ℤ
  pub extra_bytes : ℤ

pub record RegistryStats : Type 0 where
  pub total_nodes : ℕ
  pub alive_nodes : ℕ
  pub grace_nodes : ℕ
  pub roles : Dict ℕ
  pub workers : Dict ℕ

unfoldable pub new : {V : Type 0} → Registry V
new = record {
  nodes = [];
  rr_indices = [];
  id_counter = 1;
  registry_bytes = pos 0;
  extra_bytes = pos 0;
}

-- std::find over the workers.
unfoldable pub has_worker : Text → List Text → Bool
has_worker w [] = false
has_worker w (x ∷ xs) = text_eq x w || has_worker w xs

-- The grace period, in seconds.
abbrev pub grace_period : ℕ
grace_period = 180

-- `remaining > 0 ? remaining : 0` for `remaining = 180 - (now - active_at)`, on signed numbers.
unfoldable pub remaining : ℕ → ℕ → ℕ
remaining now active_at = active_at + grace_period - now

-- `status == node_status::ok` and so on.
unfoldable pub is_ok : NodeStatus → Bool
is_ok ok = true
is_ok grace = false
is_ok erased = false

unfoldable pub is_grace : NodeStatus → Bool
is_grace ok = false
is_grace grace = true
is_grace erased = false

unfoldable pub is_erased : NodeStatus → Bool
is_erased ok = false
is_erased grace = false
is_erased erased = true

-- The copy that a reader gets: a node in its grace period with the seconds that it has left.
unfoldable pub with_remaining : {V : Type 0} → ℕ → NodeInfo V → NodeInfo V
with_remaining now n =
    if is_grace n.status then record n { expires_in = some (remaining now n.active_at) } else n

-- `role + ":" + worker`
unfoldable pub rr_key : Text → Text → Text
rr_key role worker = role ++ (b':' ∷ worker)

-- `operator[]` makes a missing index 0.
unfoldable pub rr_index : Text → Dict ℕ → ℕ
rr_index key m = elim (lookup key m) [ none ↦ 0 | some i ↦ i ]

-- `++m[key]`
unfoldable pub increment : Text → Dict ℕ → Dict ℕ
increment key m = insert key (rr_index key m + 1) m

unfoldable pub increments : List Text → Dict ℕ → Dict ℕ
increments [] m = m
increments (w ∷ ws) m = increments ws (increment w m)

module _ {V : Type 0} where
  unfoldable pub get_node : Registry V → ℕ → Text → Option (NodeInfo V)
  get_node r now id = elim (lookup id r.nodes) [
    | none ↦ none
    | some n ↦ elim n.expires_in [ none ↦ some n | some e ↦ some (with_remaining now n) ]
  ]

  -- A node found by the key takes the change, and is what the callbacks get.
  unfoldable pub mark_node_grace : Registry V → ℕ → Text → Option (Registry V × NodeInfo V)
  mark_node_grace r now id = elim (lookup id r.nodes) [
    | none ↦ none
    | some n ↦
        let n' = record n { status = grace; active_at = now; expires_in = some grace_period } in
        some (record r { nodes = insert id n' r.nodes }, n')
  ]

  unfoldable pub restore_node_active : Registry V → ℕ → Text → Option (Registry V × NodeInfo V)
  restore_node_active r now id = elim (lookup id r.nodes) [
    | none ↦ none
    | some n ↦
        let n' = record n { status = ok; active_at = now; expires_in = none } in
        some (record r { nodes = insert id n' r.nodes }, n')
  ]

  -- The filters of query_registry.
  unfoldable pub matches_filters : Text → Text → NodeInfo V → Bool
  matches_filters role_filter worker_filter n =
      not (is_erased n.status)
      && ((empty role_filter || text_eq n.role role_filter)
          && (empty worker_filter || has_worker worker_filter n.workers))

  unfoldable pub matched : ℕ → Text → Text → Dict (NodeInfo V) → List (NodeInfo V)
  matched now role_filter worker_filter [] = []
  matched now role_filter worker_filter ((id, n) ∷ m) =
      let rest = matched now role_filter worker_filter m in
      if matches_filters role_filter worker_filter n then with_remaining now n ∷ rest else rest

  -- The page of a list; `none` is a vector built from an end before its start. size_t wraps.
  unfoldable pub page_of : ℕ → ℕ → List (NodeInfo V) → Option (List (NodeInfo V))
  page_of page count found =
      let total = length found in
      let start_idx = ((if ltb page 1 then 1 else page) - 1) * count % 2 ^ 64 in
      let end_idx = min ((start_idx + count) % 2 ^ 64) total in
      if leb total start_idx
      then some []
      else if ltb end_idx start_idx
      then none
      else some (take (end_idx - start_idx) (drop start_idx found))

  unfoldable pub query_registry :
      Registry V → ℕ → ℕ → ℕ → Text → Text → ℕ × Option (List (NodeInfo V))
  query_registry r now page count role_filter worker_filter =
      let found = matched now role_filter worker_filter r.nodes in
      (length found, page_of page count found)

  -- The candidates of resolve_node.
  unfoldable pub is_candidate : Text → Text → NodeInfo V → Bool
  is_candidate role worker n =
      is_ok n.status && (text_eq n.role role && (empty worker || has_worker worker n.workers))

  unfoldable pub candidates : Text → Text → Dict (NodeInfo V) → List (NodeInfo V)
  candidates role worker [] = []
  candidates role worker ((id, n) ∷ m) =
      let rest = candidates role worker m in if is_candidate role worker n then n ∷ rest else rest

  unfoldable pub resolve_node : Registry V → Text → Text → Option (NodeInfo V) × Registry V
  resolve_node r role worker =
      let found = candidates role worker r.nodes in
      let idx = rr_index (rr_key role worker) r.rr_indices % length found in
      if length found == 0 then (none, r) else (
        get_elem? found idx,
        record r {
          rr_indices = insert (rr_key role worker) ((idx + 1) % length found) r.rr_indices;
        },
      )

  -- The loop of get_stats, over the nodes that are left.
  unfoldable pub stats_loop : Dict (NodeInfo V) → RegistryStats → RegistryStats
  stats_loop [] s = s
  stats_loop ((id, n) ∷ m) s = stats_loop m (record s {
    alive_nodes = if is_ok n.status then s.alive_nodes + 1 else s.alive_nodes;
    grace_nodes = if is_grace n.status then s.grace_nodes + 1 else s.grace_nodes;
    roles = increment n.role s.roles;
    workers = increments n.workers s.workers;
  })

  unfoldable pub get_stats : Registry V → RegistryStats
  get_stats r = stats_loop r.nodes (record {
    total_nodes = length r.nodes;
    alive_nodes = 0;
    grace_nodes = 0;
    roles = [];
    workers = [];
  })

  -- The ids of the nodes whose grace period is over: `now - active_at >= 180`.
  unfoldable pub expired_ids : ℕ → Dict (NodeInfo V) → List Text
  expired_ids now [] = []
  expired_ids now ((id, n) ∷ m) =
      let rest = expired_ids now m in
      if is_grace n.status && leb (n.active_at + grace_period) now then id ∷ rest else rest
