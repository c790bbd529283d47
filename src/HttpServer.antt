-- ===== src/HttpServer.antt =====
-- src/http/http_server.hpp and http_server.cpp: the routes of the HTTP API. The embedded pages are made
-- by the build, so they are settings here. Times are in seconds.
pub mod Serving
pub mod Answers
pub mod Cap
pub mod ReadOnly
pub mod Repeats
pub mod Nodes
mod Tests
use lightapr.Prelude.{
  ℕ, ◌-◌, Bool, true, false, not, ◌&&◌, ◌||◌, Option, none, some, List, [], ◌∷◌, ◌++◌,
  if◌then◌else◌, length, drop, map,
}
use lightapr.Prelude.Text.{Text, codes, text_eq, empty}
use lightapr.Prelude.Dict.{Dict, lookup}
use lightapr.Http.{HttpRequest, starts_with}
use lightapr.Json.{Json}
use lightapr.Memory.{MemoryTracker, MemoryStats, memory_stats}
use lightapr.Node.{NodeInfo}
use lightapr.Node.Json.{◌>>=◌, node_to_json, endpoint_or_null}
use lightapr.Registry.{Registry, RegistryStats, get_node, get_stats, query_registry, resolve_node}

pub record HttpResponse : Type 0 where
  pub status_code : ℕ
  pub status_text : Text
  pub content_type : Text
  pub body : Text

unfoldable pub default_response : HttpResponse
default_response = record {
  status_code = 200;
  status_text = codes "OK";
  content_type = codes "application/json";
  body = [];
}

pub record HttpSettings : Type 0 where
  pub cell_id : Text
  pub monitor_enabled : Bool
  pub tester_enabled : Bool
  pub monitor_html : Text
  pub tester_html : Text
  pub max_buffer_bytes : ℕ
  pub max_requests_per_connection : ℕ

-- What a request sees besides the registry: the readings of the clock, the seconds since the server
-- started, the open connections, the memory in use, and the gauges of the memory tracker.
pub record Surroundings : Type 0 where
  pub now : ℕ
  pub uptime_sec : ℕ
  pub total_connections : ℕ
  pub process_rss_kb : ℕ
  pub memory : MemoryTracker

unfoldable pub html : Text → HttpResponse
html page = record default_response { content_type = codes "text/html"; body = page }

-- `if (params.count(key)) x = params.at(key);`
unfoldable pub param_or : Text → Dict Text → Text → Text
param_or key params absent = elim (lookup key params) [ none ↦ absent | some v ↦ v ]

-- The same through std::stoul, which may throw.
unfoldable pub number_or : (Text → Option ℕ) → Text → Dict Text → ℕ → Option ℕ
number_or stoul key params absent = elim (lookup key params) [
  | none ↦ some absent
  | some v ↦ stoul v
]

module _ {V : Type 0} (J : Json V) where
  unfoldable pub json_body : V → HttpResponse
  json_body j = record default_response { body = J.dump j }

  unfoldable pub error_response : ℕ → Text → Text → HttpResponse
  error_response code text what = record default_response {
    status_code = code;
    status_text = text;
    body = J.dump (J.object ((codes "error", J.of_string what) ∷ []));
  }

  unfoldable pub not_found : Text → HttpResponse
  not_found what = error_response 404 (codes "Not Found") what

  unfoldable pub memory_to_json : MemoryStats → V
  memory_to_json stats = J.object (
      (codes "total", J.of_number stats.total_kb)
      ∷ (codes "registry", J.of_number stats.registry_kb)
      ∷ (codes "mqtt_rx", J.of_number stats.mqtt_rx_kb)
      ∷ (codes "mqtt_tx", J.of_number stats.mqtt_tx_kb)
      ∷ (codes "http_rx", J.of_number stats.http_rx_kb)
      ∷ (codes "http_tx", J.of_number stats.http_tx_kb)
      ∷ (codes "other", J.of_number stats.other_kb)
      ∷ (codes "extra", J.of_number stats.extra_kb)
      ∷ [])

  unfoldable pub counts_to_json : Dict ℕ → V
  counts_to_json m = J.object (map (λ entry. (entry.0, J.of_number entry.1)) m)

  unfoldable pub healthz : Text → ℕ → HttpResponse
  healthz cell_id uptime_sec = json_body (
      J.object (
        (codes "status", J.of_string (codes "UP"))
        ∷ (codes "cell_id", J.of_string cell_id)
        ∷ (codes "uptime", J.of_number uptime_sec)
        ∷ []))

  unfoldable pub status : Registry V → Surroundings → HttpResponse
  status r e =
      let stats = get_stats r in
      let nodes = J.object (
        (codes "total", J.of_number stats.total_nodes)
        ∷ (codes "alive", J.of_number stats.alive_nodes)
        ∷ (codes "grace", J.of_number stats.grace_nodes)
        ∷ []) in
      json_body (
        J.object (
          (codes "nodes", nodes)
          ∷ (codes "memory", memory_to_json (memory_stats e.process_rss_kb e.memory))
          ∷ (codes "connections", J.object ((codes "total", J.of_number e.total_connections) ∷ []))
          ∷ (codes "roles", counts_to_json stats.roles)
          ∷ (codes "workers", counts_to_json stats.workers)
          ∷ []))

module _ {V : Type 0} (J : Json V) (stoul : Text → Option ℕ) where
  -- `none` is an exception of std::stoul, or a page that is built from an end before its start.
  unfoldable pub list_registry : Registry V → Dict Text → ℕ → Option HttpResponse
  list_registry r params now = do
    page ← number_or stoul (codes "page") params 1
    count ← number_or stoul (codes "count") params 50
    let answer =
        query_registry r now page count (param_or (codes "role") params [])
          (param_or (codes "worker") params [])
    nodes ← answer.1
    some (
        json_body J (
          J.object (
            (codes "total", J.of_number answer.0)
            ∷ (codes "nodes", J.array (map (node_to_json J stoul) nodes))
            ∷ [])))

  unfoldable pub show_node : Registry V → Text → ℕ → HttpResponse
  show_node r id now = elim (get_node r now id) [
    | none ↦ not_found J (codes "Node not found")
    | some n ↦ json_body J (node_to_json J stoul n)
  ]

  -- `if (!worker.empty() && n.extra.contains(worker)) j["extra"] = n.extra[worker];`
  unfoldable pub resolved_extra : Text → Dict V → Dict V
  resolved_extra worker extra = elim (lookup worker extra) [
    | none ↦ []
    | some v ↦ if empty worker then [] else (codes "extra", v) ∷ []
  ]

  unfoldable pub resolved : Text → NodeInfo V → V
  resolved worker n = J.object (
      (codes "id", J.of_string n.id)
      ∷ (codes "endpoint", endpoint_or_null J stoul n.endpoint)
      ∷ resolved_extra worker n.extra)

  unfoldable pub resolve : Registry V → Dict Text → HttpResponse × Registry V
  resolve r params =
      let role = param_or (codes "role") params [] in
      let worker = param_or (codes "worker") params [] in
      let missing =
        error_response J 400 (codes "Bad Request")
          (codes "Missing required query parameter: role") in
      let answer = resolve_node r role worker in
      if empty role then (missing, r) else elim answer.0 [
        | none ↦ (not_found J (codes "No available node found"), answer.1)
        | some n ↦ (json_body J (resolved worker n), answer.1)
      ]

  -- The routes, in the order of their tests. `none` is an exception that leaves the handler.
  unfoldable pub route_request :
      HttpSettings → Surroundings → Registry V → HttpRequest → Option (HttpResponse × Registry V)
  route_request c e r req =
      if c.monitor_enabled && (text_eq req.path (codes "/monitor") || text_eq req.path (codes "/"))
      then some (html c.monitor_html, r)
      else if c.tester_enabled && text_eq req.path (codes "/tester")
      then some (html c.tester_html, r)
      else if text_eq req.path (codes "/healthz")
      then some (healthz J c.cell_id e.uptime_sec, r)
      else if text_eq req.path (codes "/status")
      then some (status J r e, r)
      else if text_eq req.path (codes "/registry")
      then list_registry r req.query_params e.now >>= (λ res. some (res, r))
      else if starts_with (codes "/registry/") req.path
      then some (show_node r (drop 10 req.path) e.now, r)
      else if text_eq req.path (codes "/resolve")
      then some (resolve r req.query_params)
      else some (not_found J (codes "Route not found"), r)
