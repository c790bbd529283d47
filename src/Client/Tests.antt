-- ===== src/Client/Tests.antt =====
-- Runs of the client of sdk/cpp/src/apr_client.cpp.
use lightapr.Prelude.{
  ℕ, zero, suc, ◌+◌, ◌≡◌, ◌<◌, ◌≤◌, ◌⊎◌, refl, arith, true, false, Option, none, some, List, [],
  ◌∷◌, ◌++◌, length, map, All, inl,
}
use lightapr.Prelude.Text.{Text, codes, text_eq}
use lightapr.Prelude.Dict.{lookup}
use lightapr.Prelude.Int.{pos}
use lightapr.Guard as Guard
use lightapr.Json.{Json, IsLawful}
use lightapr.Json.Samples.{Value, sample_json, sample_text, parse_as, parse_as-IsLawful}
use lightapr.Node.{NodeInfo, NodeStatus, grace}
use lightapr.Node.Json.{node_to_json, endpoint_or_null, number_or_null}
use lightapr.Registry.Extra.{extra_total}
use lightapr.Client.Wire.{announcement, IsWritable, handle_all-Answers}
use lightapr.Client.Resolving.{Answers}
use lightapr.Registry.{mark_node_grace}
use lightapr.Memory.{MemoryTracker}
use lightapr.Packet.{encode_publish}
use lightapr.Packet.Reading.{ok, failed, overrun}
use lightapr.Registry as Registry
use lightapr.Registry.Updates.{Registration, decimal}
use lightapr.Registry.Validity.{Command, register, mark_grace, run, IsValid, nodes_total}
use lightapr.MqttServer.{Settings, Server, notify, broadcast}
use lightapr.MqttServer.Events.{new_session}
use lightapr.MqttServer.Stream.{done, on_bytes_read}
use lightapr.Accumulator.{view}
use lightapr.Client.{Client, default_options}
use lightapr.Client.Batches.{packets, handle_all, process_mqtt_buffer-packets}
use lightapr.Client.Opening.{on_bytes_read-make_connect}
use lightapr.Client.Following.{run_events, events, apply_events-Mirrors}
use lightapr.Client.Packets.{
  connect_packet, connect_prefix, write_str, connect_length, make_client_id, make_username,
  make_connect, subscribe_packet, subscribe_body,
}
use lightapr.Client.Receiving.{process_mqtt_buffer-fails}
use lightapr.Client.Replica.{Mirror, Mirrors}
use lightapr.Client.Session.{apply_events, resolve_node}
use lightapr.Client.Stream.{process_mqtt_buffer}

abbrev no_stoul : Text → Option ℕ
no_stoul t = none

-- A client that has started; its callbacks are numbered.
abbrev client : Client Value ℕ
client = record {
  opts = default_options;
  running = true;
  reconciled = true;
  is_websocket = false;
  local_nodes = [];
  sync_queue = [];
  rr_indices = [];
  app_callbacks = (codes "app/web", 1 ∷ []) ∷ [];
  has_status_cb = true;
  stream_buf = [];
  last_error = [];
  sent = [];
  calls = [];
}

abbrev settings : Settings
settings = record {
  access_key = codes "lightapr_secret_key";
  max_buffer_bytes = 262144;
  max_extra_bytes = 8192;
  node_size = 200;
  max_string = 4611686018427387904;
}

abbrev memory : MemoryTracker
memory = record {
  registry_bytes = pos 0;
  mqtt_rx_bytes = pos 0;
  mqtt_tx_bytes = pos 0;
  http_rx_bytes = pos 0;
  http_tx_bytes = pos 0;
  other_bytes = pos 0;
  extra_bytes = pos 0;
}

abbrev server : Server Value
server = record {
  before = [];
  me = new_session (codes "10.0.0.1");
  after = [];
  registry = Registry.new;
  guard = Guard.new;
  memory = memory;
}

-- The length of the CONNECT with the default options.
short_connect :
    let username = make_username default_options 7 in
    connect_length
      (make_client_id default_options 9)
      username
      (codes "lightapr_secret_key" ++ username)
    < 128
unfolding connect_length make_username make_client_id default_options decimal
short_connect = omega arith

-- The CONNECT with a SUBSCRIBE in the same read.
abbrev first_read : Text
first_read = make_connect default_options 7 9 ++ subscribe_packet (codes "apr/+")

first_read-fits : length first_read ≤ settings.max_buffer_bytes
unfolding make_connect connect_packet write_str connect_prefix make_username make_client_id
    default_options decimal subscribe_packet subscribe_body connect_length
first_read-fits = omega arith

on_bytes_read-make_connect_example :
    (t : Server Value) × (on_bytes_read sample_json no_stoul settings server first_read 5 ≡ done t)
    × (t.me.authenticated ≡ true)
    × (t.me.username ≡ make_username default_options 7)
    × (t.me.client_id ≡ make_client_id default_options 9)
    × (t.me.subscriptions ≡ server.me.subscriptions)
    × (view t.me.rx_acc ≡ [])
    × (t.registry ≡ Registry.new)
    × (t.before ≡ [])
    × (t.after ≡ [])
unfolding default_options new_session
on_bytes_read-make_connect_example =
    on_bytes_read-make_connect sample_json no_stoul settings server default_options 7 9 5
      (subscribe_packet (codes "apr/+")) refl refl first_read-fits refl short_connect

abbrev messages : List (Text × Text)
messages = (codes "app/web", codes "hello") ∷ (codes "apr/web", sample_text) ∷ []

process_mqtt_buffer-packets_example :
    process_mqtt_buffer sample_json no_stoul client (packets messages)
    ≡ ok (handle_all sample_json no_stoul client messages, length (packets messages))
process_mqtt_buffer-packets_example =
    process_mqtt_buffer-packets sample_json no_stoul messages client (omega arith)

-- A payload of a hundred and thirty bytes.
repeated : ℕ → Text
repeated zero = []
repeated (suc n) = b'x' ∷ repeated n

long_payload : 126 ≤ length (codes "apr/web") + length (repeated 130)
unfolding repeated
long_payload = omega arith

not_too_long : length (codes "apr/web") + length (repeated 130) + 4 < 2097152
unfolding repeated
not_too_long = omega arith

process_mqtt_buffer-fails_example :
    let out =
      process_mqtt_buffer sample_json no_stoul client
        (encode_publish (codes "apr/web") (repeated 130) 0 0 ++ []) in
    (out ≡ failed) ⊎ (out ≡ overrun)
process_mqtt_buffer-fails_example =
    process_mqtt_buffer-fails sample_json no_stoul client (codes "apr/web") (repeated 130) []
      long_payload not_too_long

abbrev registration : Registration Value
registration = record {
  role = codes "web";
  workers = codes "mail" ∷ [];
  endpoint = none;
  peer_ip = codes "10.0.0.1";
  existing_id = codes "n1";
  extra = some [];
}

-- A node that registers and goes away.
abbrev commands : List (Command Value)
commands = register registration 5 5 ∷ mark_grace 9 (codes "n1") ∷ []

new-IsValid : IsValid sample_json.dump 8192 200 (Registry.new {V = Value})
unfolding Registry.new nodes_total
new-IsValid = record { distinct = tt; each = tt; exact = refl }

new-Mirrors : Mirrors (Registry.new {V = Value}).nodes []
unfolding Registry.new lookup
new-Mirrors = record { distinct = tt; at = λ id. tt }

apply_events-Mirrors_example :
    Mirrors
      (run sample_json.dump 8192 200 Registry.new commands).nodes
      (apply_events client (run_events sample_json.dump 8192 200 Registry.new commands)).local_nodes
apply_events-Mirrors_example =
    apply_events-Mirrors sample_json.dump 8192 200 commands Registry.new client new-IsValid
      new-Mirrors

-- A JSON library that parses every text as the node below.
abbrev web_node : NodeInfo Value
web_node = record {
  id = codes "n1";
  role = codes "web";
  workers = codes "mail" ∷ [];
  endpoint = none;
  status = grace;
  added_at = 5;
  active_at = 9;
  expires_in = some 180;
  extra = [];
}

abbrev node_json : Json Value
node_json = parse_as (node_to_json sample_json no_stoul web_node)

abbrev node_json-IsLawful : IsLawful node_json
node_json-IsLawful = parse_as-IsLawful (node_to_json sample_json no_stoul web_node)

-- The node before its client goes away.
abbrev web_registry : Registry.Registry Value
web_registry = record {
  nodes = (codes "n1", record web_node { status = NodeStatus.ok; expires_in = none }) ∷ [];
  rr_indices = [];
  id_counter = 2;
  registry_bytes = pos 0;
  extra_bytes = pos 0;
}

web_registry-IsValid : IsValid node_json.dump 8192 200 web_registry
unfolding nodes_total lookup extra_total
web_registry-IsValid = record {
  distinct = (refl, tt);
  each = (
    record { own_id = refl; status_fits = inl (refl, refl); announced = tt; distinct_extra = tt },
    tt,
  );
  exact = refl;
}

Mirror-refl : (o : Option (NodeInfo Value)) → Mirror o o
Mirror-refl none = tt
Mirror-refl (some n) = inl refl

web_registry-Mirrors : Mirrors web_registry.nodes web_registry.nodes
unfolding lookup text_eq
web_registry-Mirrors = record {
  distinct = (refl, tt);
  at = λ id. Mirror-refl (lookup id web_registry.nodes);
}

abbrev goes_away : List (Command Value)
goes_away = mark_grace 9 (codes "n1") ∷ []

announced-IsWritable :
    All
      (IsWritable node_json no_stoul node_json-IsLawful)
      (run_events node_json.dump 8192 200 web_registry goes_away)
unfolding run_events events mark_node_grace lookup text_eq sample_json node_to_json endpoint_or_null
    number_or_null
announced-IsWritable = (
  record {
    port = tt;
    added = omega arith;
    active = omega arith;
    expires = omega arith;
    order = refl;
    parsed = refl;
  },
  tt,
)

handle_all-Answers_example :
    let at_client = record client { local_nodes = web_registry.nodes } in
    let messages =
      map
        (announcement node_json no_stoul node_json-IsLawful)
        (run_events node_json.dump 8192 200 web_registry goes_away) in
    ((s : Server Value) (n : NodeInfo Value)
      → notify node_json no_stoul s n
        ≡ broadcast s
            (announcement node_json no_stoul node_json-IsLawful n).0
            (announcement node_json no_stoul node_json-IsLawful n).1)
    × Answers
        (run node_json.dump 8192 200 web_registry goes_away)
        (codes "web")
        []
        (resolve_node (handle_all node_json no_stoul at_client messages) (codes "web") []).0
handle_all-Answers_example =
    handle_all-Answers node_json no_stoul node_json-IsLawful 8192 200 goes_away web_registry
      (record client { local_nodes = web_registry.nodes }) (codes "web") [] web_registry-IsValid
      web_registry-Mirrors refl announced-IsWritable
