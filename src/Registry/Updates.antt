-- ===== src/Registry/Updates.antt =====
-- The methods of src/core/registry.cpp that register nodes, announce their extra data and remove
-- them. A JSON object is the list of its entries.
use lightapr.Prelude.{
  ℕ, zero, suc, ◌+◌, ◌/◌, ◌%◌, Bool, true, false, not, Option, none, some, List, [], ◌∷◌, ◌++◌, ltb,
  ◌==◌, if◌then◌else◌, length,
}
use lightapr.Prelude.Text.{Text, codes, empty}
use lightapr.Prelude.Dict.{Dict, lookup, insert, erase}
use lightapr.Prelude.Int.{ℤ, pos, ◌+ℤ◌, ◌-ℤ◌}
use lightapr.Node.{EndpointInfo, NodeInfo, ok, erased}
use lightapr.Registry.{Registry, has_worker, expired_ids}

-- Twenty digits are enough for a 64-bit number.
decimal_loop : ℕ → ℕ → Text → Text
decimal_loop zero n acc = acc
decimal_loop (suc fuel) n acc =
    let acc' = (b'0' + n % 10) ∷ acc in
    let rest = decimal_loop fuel (n / 10) acc' in if n / 10 == 0 then acc' else rest

-- `ss << n`
unfoldable pub decimal : ℕ → Text
unfolding decimal_loop
decimal n = decimal_loop 20 n []

-- The clock is read once more for the id.
unfoldable pub generate_node_id : ℕ → ℕ → Text
generate_node_id now counter = codes "node-" ++ (decimal now ++ (b'-' ∷ decimal counter))

-- The peer's address stands in for one that is left out.
unfoldable pub final_endpoint : Option EndpointInfo → Text → Option EndpointInfo
final_endpoint none peer_ip = none
final_endpoint (some ep) peer_ip = some (if empty ep.addr then record ep { addr = peer_ip } else ep)

-- What a registration brings. `none` is an `extra` that is no object.
pub record Registration (V : Type 0) : Type 0 where
  pub role : Text
  pub workers : List Text
  pub endpoint : Option EndpointInfo
  pub peer_ip : Text
  pub existing_id : Text
  pub extra : Option (Dict V)

module _ {V : Type 0} (dump : V → Text) where
  -- `node.extra.contains(worker) ? node.extra[worker].dump().size() : 0`
  unfoldable pub extra_size : Text → Dict V → ℕ
  extra_size worker m = elim (lookup worker m) [ none ↦ 0 | some v ↦ length (dump v) ]

  -- Whether the value was taken, the node, and the gauge of extra bytes.
  unfoldable pub try_set_extra : ℕ → NodeInfo V → ℤ → Text → V → Bool × NodeInfo V × ℤ
  try_set_extra max_bytes n gauge worker value =
      if not (has_worker worker n.workers)
      then (false, n, gauge)
      else if ltb max_bytes (length (dump value))
      then (false, n, gauge)
      else (
        true,
        record n { extra = insert worker value n.extra },
        gauge +ℤ (pos (length (dump value)) -ℤ pos (extra_size worker n.extra)),
      )

  unfoldable pub stale_keys : List Text → Dict V → List Text
  stale_keys workers [] = []
  stale_keys workers ((k, v) ∷ m) =
      let rest = stale_keys workers m in if has_worker k workers then rest else k ∷ rest

  unfoldable pub drop_keys : List Text → Dict V → ℤ → Dict V × ℤ
  drop_keys [] m gauge = (m, gauge)
  drop_keys (k ∷ ks) m gauge = drop_keys ks (erase k m) (gauge -ℤ pos (extra_size k m))

  unfoldable pub prune_stale_extra : NodeInfo V → ℤ → NodeInfo V × ℤ
  prune_stale_extra n gauge =
      let (m, gauge') = drop_keys (stale_keys n.workers n.extra) n.extra gauge in
      (record n { extra = m }, gauge')

  -- The loop over the `extra` of a registration.
  unfoldable pub set_extras : ℕ → Dict V → NodeInfo V → ℤ → NodeInfo V × ℤ
  set_extras max_bytes [] n gauge = (n, gauge)
  set_extras max_bytes ((k, v) ∷ m) n gauge =
      let (taken, n', gauge') = try_set_extra max_bytes n gauge k v in
      set_extras max_bytes m n' gauge'

  unfoldable pub set_registered : ℕ → Option (Dict V) → NodeInfo V → ℤ → NodeInfo V × ℤ
  set_registered max_bytes none n gauge = (n, gauge)
  set_registered max_bytes (some m) n gauge = set_extras max_bytes m n gauge

  -- What the gauge of registry bytes counts for a node.
  unfoldable pub node_bytes : ℕ → NodeInfo V → ℕ
  node_bytes node_size n = node_size + length n.role + length n.id

  -- The node that a registration makes of the one found, or of none.
  unfoldable pub updated_node : Registration V → ℕ → NodeInfo V → NodeInfo V
  updated_node q now n = record n {
    role = q.role;
    workers = q.workers;
    endpoint = final_endpoint q.endpoint q.peer_ip;
    status = ok;
    active_at = now;
    expires_in = none;
  }

  unfoldable pub fresh_node : Registration V → ℕ → Text → NodeInfo V
  fresh_node q now id = record {
    id = id;
    role = q.role;
    workers = q.workers;
    endpoint = final_endpoint q.endpoint q.peer_ip;
    status = ok;
    added_at = now;
    active_at = now;
    expires_in = none;
    extra = [];
  }

  -- The node under the id, with the gauges moved.
  unfoldable pub register_under :
      ℕ → ℕ → Registry V → Registration V → ℕ → Text → Registry V × NodeInfo V
  register_under max_bytes node_size r q now id = elim (lookup id r.nodes) [
    | none ↦
        let n = fresh_node q now id in
        let (n', gauge) = set_registered max_bytes q.extra n r.extra_bytes in
        (
          record r {
            nodes = insert id n' r.nodes;
            registry_bytes = r.registry_bytes +ℤ pos (node_bytes node_size n);
            extra_bytes = gauge;
          },
          n',
        )
    | some old ↦
        let (n, gauge) = prune_stale_extra (updated_node q now old) r.extra_bytes in
        let (n', gauge') = set_registered max_bytes q.extra n gauge in
        (record r { nodes = insert id n' r.nodes; extra_bytes = gauge' }, n')
  ]

  unfoldable pub register_or_update_node :
      ℕ → ℕ → Registry V → Registration V → ℕ → ℕ → Registry V × NodeInfo V
  register_or_update_node max_bytes node_size r q now id_now =
      if empty q.existing_id
      then register_under max_bytes node_size (record r { id_counter = r.id_counter + 1 }) q now
          (generate_node_id id_now r.id_counter)
      else register_under max_bytes node_size r q now q.existing_id

  -- `none` is `return false`, which leaves the registry as it was.
  unfoldable pub update_node_extra :
      ℕ → Registry V → ℕ → Text → Text → V → Option (Registry V × NodeInfo V)
  update_node_extra max_bytes r now id worker value = elim (lookup id r.nodes) [
    | none ↦ none
    | some n ↦
        let (taken, n', gauge) = try_set_extra max_bytes n r.extra_bytes worker value in
        let n'' = record n' { active_at = now } in
        if taken
        then some (record r { nodes = insert id n'' r.nodes; extra_bytes = gauge }, n'')
        else none
  ]

  unfoldable pub release_extra : Dict V → ℤ → ℤ
  release_extra [] gauge = gauge
  release_extra ((k, v) ∷ m) gauge = release_extra m (gauge -ℤ pos (length (dump v)))

  unfoldable pub remove_node_permanently : ℕ → Registry V → Text → Option (Registry V × NodeInfo V)
  remove_node_permanently node_size r id = elim (lookup id r.nodes) [
    | none ↦ none
    | some n ↦ some (
      record r {
        nodes = erase id r.nodes;
        registry_bytes = r.registry_bytes -ℤ pos (node_bytes node_size n);
        extra_bytes = release_extra n.extra r.extra_bytes;
      },
      record n { status = erased; expires_in = some 0 },
    )
  ]

  -- The registry after the removals, and the events in their order.
  unfoldable pub remove_all : ℕ → Registry V → List Text → Registry V × List (NodeInfo V)
  remove_all node_size r [] = (r, [])
  remove_all node_size r (id ∷ ids) = elim (remove_node_permanently node_size r id) [
    | none ↦ remove_all node_size r ids
    | some (r', n) ↦ let (r'', events) = remove_all node_size r' ids in (r'', n ∷ events)
  ]

  unfoldable pub sweep_expired_nodes : ℕ → Registry V → ℕ → Registry V × List (NodeInfo V)
  sweep_expired_nodes node_size r now = remove_all node_size r (expired_ids now r.nodes)
