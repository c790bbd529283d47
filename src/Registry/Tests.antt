-- ===== src/Registry/Tests.antt =====
-- Runs of the registry of src/core/registry.cpp.
use lightapr.Prelude.{
  ℕ, ◌+◌, ◌≡◌, ◌≤◌, ◌%◌, refl, arith, List, [], ◌∷◌, none, some, length, get_elem?,
}
use lightapr.Prelude.Text.{Text, codes, text_eq}
use lightapr.Prelude.Dict.{lookup}
use lightapr.Prelude.Int.{pos, pos_part, neg_part}
use lightapr.Node.{NodeInfo, ok}
use lightapr.Registry.{
  matched, matches_filters, with_remaining, is_erased, is_grace, Registry, new, rr_key, rr_index,
  is_candidate, candidates, resolve_node, is_ok, has_worker,
}
use lightapr.Registry.Updates.{Registration, register_under, remove_node_permanently}
use lightapr.Registry.Validity.{
  Command, register, mark_grace, sweep, left_by, run, IsValid, nodes_total,
}
use lightapr.Registry.Methods.{run-IsValid}
use lightapr.Registry.Resolve.{resolve_times, resolve_node-round_robin}
use lightapr.Registry.Observers.{Observers}
use lightapr.Registry.Pages.{pages_upto, query_registry-pages}
use lightapr.Registry.Drift.{register-remove_drift}

-- A JSON value is the text that it is dumped as.
abbrev dump : Text → Text
dump v = v

abbrev node : Text → NodeInfo Text
node id = record {
  id = id;
  role = codes "web";
  workers = [];
  endpoint = none;
  status = ok;
  added_at = 5;
  active_at = 5;
  expires_in = none;
  extra = [];
}

abbrev two_nodes : Registry Text
two_nodes = record {
  nodes = (codes "n1", node (codes "n1")) ∷ (codes "n2", node (codes "n2")) ∷ [];
  rr_indices = [];
  id_counter = 1;
  registry_bytes = pos 0;
  extra_bytes = pos 0;
}

abbrev registration : Text → Registration Text
registration role = record {
  role = role;
  workers = codes "w" ∷ [];
  endpoint = none;
  peer_ip = codes "10.0.0.1";
  existing_id = [];
  extra = some ((codes "w", codes "{}") ∷ []);
}

new-IsValid : IsValid dump 8192 200 new
unfolding new nodes_total
new-IsValid = record { distinct = tt; each = tt; exact = refl }

abbrev calls : List (Command Text)
calls = register (registration (codes "web")) 5 6 ∷ mark_grace 9 (codes "node-6-1") ∷ sweep 200 ∷ []

run-IsValid_example : IsValid dump 8192 200 (run dump 8192 200 new calls)
run-IsValid_example = run-IsValid dump 8192 200 calls new new-IsValid

two_candidates : length (candidates (codes "web") [] two_nodes.nodes) ≡ 2
unfolding candidates is_candidate is_ok has_worker text_eq
two_candidates = refl

resolve_node-round_robin_example :
    let found = candidates (codes "web") [] two_nodes.nodes in
    (resolve_node (resolve_times 3 two_nodes (codes "web") []) (codes "web") []).0
    ≡ get_elem? found ((rr_index (rr_key (codes "web") []) two_nodes.rr_indices + 3) % length found)
resolve_node-round_robin_example =
    resolve_node-round_robin 3 two_nodes (codes "web") [] (omega (arith, two_candidates))

register-remove_drift_example :
    let r₁ = (register_under dump 8192 200 new (registration (codes "web")) 5 (codes "n1")).0 in
    let r₂ = (register_under dump 8192 200 r₁ (registration (codes "worker")) 5 (codes "n1")).0 in
    let r₃ = left_by r₂ (remove_node_permanently dump 200 r₂ (codes "n1")) in
    pos_part r₃.registry_bytes + neg_part (new {V = Text}).registry_bytes + 6
    ≡ neg_part r₃.registry_bytes + pos_part (new {V = Text}).registry_bytes + 3
unfolding new lookup
register-remove_drift_example =
    register-remove_drift dump 8192 200 new (registration (codes "web"))
      (registration (codes "worker")) 5 (codes "n1") new-IsValid refl

-- One callback, with the token 1.
abbrev one_observer : Observers ℕ
one_observer = record { event_cbs = (1, 10) ∷ []; event_cb_id_counter = 2 }

two_matches : length (matched 9 (codes "web") [] two_nodes.nodes) ≤ 2
unfolding matched matches_filters with_remaining text_eq is_erased is_grace has_worker
two_matches = omega arith

query_registry-pages_example :
    pages_upto 2 two_nodes 9 1 (codes "web") [] ≡ some (matched 9 (codes "web") [] two_nodes.nodes)
query_registry-pages_example =
    query_registry-pages 2 two_nodes 9 1 (codes "web") [] (omega arith) two_matches
