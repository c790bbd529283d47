-- ===== src/Node/Tests.antt =====
-- Runs of the JSON form of include/apr/node.hpp.
use lightapr.Prelude.{ℕ, ◌≡◌, refl, arith, Option, none, some, [], ◌∷◌}
use lightapr.Prelude.Text.{Text, codes}
use lightapr.Json.Samples.{Value, sample_json, sample-IsLawful, string_value}
use lightapr.Node.{NodeInfo, grace}
use lightapr.Node.Json.{node_to_json, node_from_json, default_node}
use lightapr.Node.RoundTrip.{node_from_json-to_json}

-- std::stoul is not asked: ports are written as numbers.
abbrev no_stoul : Text → Option ℕ
no_stoul t = none

abbrev node : NodeInfo Value
node = record {
  id = codes "node-1-1";
  role = codes "web";
  workers = codes "mail" ∷ [];
  endpoint = some (record { addr = codes "10.0.0.1"; port = 8080; scheme = codes "http" });
  status = grace;
  added_at = 5;
  active_at = 9;
  expires_in = some 180;
  extra = (codes "mail", string_value (codes "up")) ∷ [];
}

read_back :
    node_from_json sample_json no_stoul (node_to_json sample_json no_stoul node) default_node
    ≡ some node
unfolding sample_json
read_back =
    node_from_json-to_json sample_json no_stoul sample-IsLawful node default_node (omega arith)
      (omega arith) (omega arith) (omega arith) refl
