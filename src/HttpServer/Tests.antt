-- ===== src/HttpServer/Tests.antt =====
-- Runs of the routes and connections of src/http/http_server.cpp.
use lightapr.Prelude.{ℕ, ◌≡◌, refl, arith, true, false, Option, none, some, length, [], ◌∷◌, ◌++◌}
use lightapr.Prelude.Text.{Text, codes}
use lightapr.Prelude.Dict.{Dict, lookup}
use lightapr.Prelude.Int.{pos}
use lightapr.Guard as Guard
use lightapr.Accumulator.{view}
use lightapr.Http.{
  HttpRequest, find, starts_with, header_end_mark, pieces, content_length_of, line_content_length,
  strip_cr, split_at, iequals_ascii, tolower, skip_spaces, parse_digits,
}
use lightapr.Json.{Json, IsLawful}
use lightapr.Json.Samples.{Value, sample_json, parse_as, parse_as-IsLawful}
use lightapr.Node.{NodeInfo, ok}
use lightapr.Node.Json.{node_to_json, endpoint_or_null, number_or_null}
use lightapr.Client.Wire.{IsWritable}
use lightapr.Registry.Updates.{
  Registration, register_or_update_node, register_under, fresh_node, set_registered, final_endpoint,
}
use lightapr.Registry.Validity.{IsValid, nodes_total}
use lightapr.HttpServer.Nodes.{Shows, register-Shows}
use lightapr.Memory.{MemoryTracker}
use lightapr.Registry as Registry
use lightapr.HttpServer.{HttpResponse, HttpSettings, Surroundings, route_request}
use lightapr.HttpServer.Cap.{EndsCounted, try_process_next_request-EndsCounted}
use lightapr.HttpServer.ReadOnly.{EndsReader, on_bytes_read-EndsReader}
use lightapr.HttpServer.Repeats.{EndsRepeated, try_process_next_request-EndsRepeated}
use lightapr.HttpServer.Serving.{HttpState, try_process_next_request, on_bytes_read}

abbrev no_stoul : Text → Option ℕ
no_stoul t = none

abbrev params : Dict Text
params = (codes "role", codes "web") ∷ []

abbrev settings : HttpSettings
settings = record {
  cell_id = codes "cell";
  monitor_enabled = false;
  tester_enabled = false;
  monitor_html = [];
  tester_html = [];
  max_buffer_bytes = 262144;
  max_requests_per_connection = 2;
}

abbrev memory : MemoryTracker
memory = record {
  registry_bytes = pos 0;
  mqtt_rx_bytes = pos 0;
  mqtt_tx_bytes = pos 0;
  http_rx_bytes = pos 0;
  http_tx_bytes = pos 0;
  other_bytes = pos 0;
  extra_bytes = pos 0;
}

abbrev here : Surroundings
here = record {
  now = 5;
  uptime_sec = 5;
  total_connections = 1;
  process_rss_kb = 100;
  memory = memory;
}

-- A connection with one request in its buffer.
abbrev connection : HttpState Value
connection = record {
  me = record {
    peer_ip = codes "10.0.0.1";
    closed = false;
    reading = false;
    request_count = 0;
    request_acc = record { buf = codes "GET /healthz HTTP/1.1" ++ header_end_mark; offset = 0 };
    outbox = [];
  };
  registry = Registry.new;
  guard = Guard.new;
  memory = memory;
}

try_process_next_request-EndsCounted_example :
    EndsCounted 2 connection
      (try_process_next_request sample_json no_stoul settings here 2 connection)
try_process_next_request-EndsCounted_example =
    try_process_next_request-EndsCounted sample_json no_stoul settings here 2 connection
      (omega arith) (omega arith)

on_bytes_read-EndsReader_example :
    EndsReader connection
      (on_bytes_read sample_json no_stoul settings here 2 connection (codes "GET /"))
on_bytes_read-EndsReader_example =
    on_bytes_read-EndsReader sample_json no_stoul settings here 2 connection (codes "GET /") refl
      (omega arith) (omega arith)

-- A request whose length wraps.
abbrev huge : Text
huge = codes "GET /" ++ (13 ∷ 10 ∷ codes "Content-Length:18446744073709551570")

huge-ends : find header_end_mark (huge ++ header_end_mark) ≡ some (length huge)
unfolding find starts_with
huge-ends = refl

huge-announces : content_length_of (pieces 10 huge) 0 ≡ 18446744073709551570
unfolding content_length_of pieces line_content_length strip_cr split_at iequals_ascii tolower
    skip_spaces parse_digits
huge-announces = refl

abbrev wrapped : HttpState Value
wrapped = record connection {
  me = record connection.me { request_acc = record { buf = huge ++ header_end_mark; offset = 0 } };
}

try_process_next_request-EndsRepeated_example :
    EndsRepeated 2 wrapped (try_process_next_request sample_json no_stoul settings here 2 wrapped)
unfolding view
try_process_next_request-EndsRepeated_example =
    try_process_next_request-EndsRepeated sample_json no_stoul settings here huge [] 2 wrapped
      huge-ends (omega (arith, huge-announces)) refl (omega arith) (omega arith)

-- A node that registers, and what is then parsed of a body.
abbrev web_registration : Registration Value
web_registration = record {
  role = codes "web";
  workers = codes "mail" ∷ [];
  endpoint = none;
  peer_ip = codes "10.0.0.1";
  existing_id = codes "n1";
  extra = none;
}

abbrev web_node : NodeInfo Value
web_node = record {
  id = codes "n1";
  role = codes "web";
  workers = codes "mail" ∷ [];
  endpoint = none;
  status = ok;
  added_at = 5;
  active_at = 5;
  expires_in = none;
  extra = [];
}

abbrev node_json : Json Value
node_json = parse_as (node_to_json sample_json no_stoul web_node)

abbrev node_json-IsLawful : IsLawful node_json
node_json-IsLawful = parse_as-IsLawful (node_to_json sample_json no_stoul web_node)

abbrev registered : Registry.Registry Value × NodeInfo Value
registered = register_or_update_node node_json.dump 8192 200 Registry.new web_registration 5 6

new-IsValid : IsValid node_json.dump 8192 200 Registry.new
unfolding Registry.new nodes_total
new-IsValid = record { distinct = tt; each = tt; exact = refl }

web_node-IsWritable : IsWritable node_json no_stoul node_json-IsLawful registered.1
unfolding register_or_update_node register_under fresh_node set_registered Registry.new lookup
    final_endpoint sample_json node_to_json endpoint_or_null number_or_null
web_node-IsWritable = record {
  port = tt;
  added = omega arith;
  active = omega arith;
  expires = tt;
  order = refl;
  parsed = refl;
}

abbrev node_request : HttpRequest
node_request = record {
  method = codes "GET";
  path = codes "/registry/n1";
  http_version = codes "HTTP/1.1";
  query_params = [];
  headers = [];
  body = [];
  keep_alive = true;
}

register-Shows_example :
    (res : HttpResponse) × (route_request node_json no_stoul settings here registered.0 node_request
      ≡ some (res, registered.0))
    × Shows node_json no_stoul node_json-IsLawful registered.1 res
unfolding register_or_update_node register_under fresh_node set_registered Registry.new lookup
register-Shows_example =
    register-Shows node_json no_stoul node_json-IsLawful 8192 200 settings here Registry.new
      web_registration 5 6 node_request new-IsValid refl web_node-IsWritable
