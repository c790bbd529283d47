-- ===== src/Client.antt =====
-- The C++ client of sdk/cpp/src/apr_client.cpp and sdk/cpp/include/apr_sdk/apr_client.hpp: its state, and
-- what it sends. `C` is the type of an application's callback, and a callback's call is put in a
-- log. What the sockets do, the environment and the random numbers are arguments.
pub mod Packets
pub mod Session
pub mod Stream
pub mod Start
pub mod Connecting
pub mod Opening
pub mod Receiving
pub mod Batches
pub mod Replica
pub mod Following
pub mod Resolving
pub mod Wire
mod Tests
use lightapr.Prelude.{
  ℕ, ◌+◌, Bool, true, false, ◌||◌, Option, none, some, List, [], ◌∷◌, ◌++◌, if◌then◌else◌, take,
  drop,
}
use lightapr.Prelude.Text.{Text, codes, text_eq, empty}
use lightapr.Prelude.Dict.{Dict}
use lightapr.Http.{split_at, find}
use lightapr.Node.{EndpointInfo, NodeInfo}

pub record ClientOptions : Type 0 where
  pub mqtt_url : Text
  pub http_url : Text
  pub role : Text
  pub workers : List Text
  pub endpoint : Option EndpointInfo
  pub access_key : Text

unfoldable pub default_options : ClientOptions
default_options = record {
  mqtt_url = codes "mqtt://127.0.0.1:1883";
  http_url = codes "http://127.0.0.1:8080";
  role = codes "default-role";
  workers = [];
  endpoint = none;
  access_key = codes "lightapr_secret_key";
}

-- What std::getenv gives for the four variables.
pub record Environment : Type 0 where
  pub mqtt_url : Option Text
  pub http_url : Option Text
  pub role : Option Text
  pub access_key : Option Text

-- `if (const char* v = std::getenv(name)) x = v;`
unfoldable pub overridden : Option Text → Text → Text
overridden none x = x
overridden (some v) x = v

unfoldable pub with_environment : Environment → ClientOptions → ClientOptions
with_environment env opts = record opts {
  mqtt_url = overridden env.mqtt_url opts.mqtt_url;
  http_url = overridden env.http_url opts.http_url;
  role = overridden env.role opts.role;
  access_key = overridden env.access_key opts.access_key;
}

pub record Url : Type 0 where
  pub scheme : Text
  pub host : Text
  pub port : Text
  pub path : Text

-- The scheme, and what is behind it.
unfoldable pub split_scheme : Text → Text × Text
split_scheme url = elim (find (codes "://") url) [
  | none ↦ (codes "mqtt", url)
  | some pos ↦ (take pos url, drop (pos + 3) url)
]

-- The path, and what is before it.
unfoldable pub split_path : Text → Text × Text
split_path rest = elim (split_at b'/' rest) [
  | none ↦ (b'/' ∷ [], rest)
  | some (before, after) ↦ (b'/' ∷ after, before)
]

-- `scheme == "ws" || scheme == "wss"`
unfoldable pub is_ws_scheme : Text → Bool
is_ws_scheme scheme = text_eq scheme (codes "ws") || text_eq scheme (codes "wss")

unfoldable pub host_port : Text → Text → Text × Text
host_port scheme rest = elim (split_at b':' rest) [
  | some (host, port) ↦ (host, port)
  | none ↦
      if empty rest
      then (codes "127.0.0.1", codes "1883")
      else (rest, if is_ws_scheme scheme then codes "8083" else codes "1883")
]

unfoldable pub parse_url : Text → Url
parse_url url =
    let (scheme, after) = split_scheme url in
    let (path, rest) = split_path after in
    let (host, port) = host_port scheme rest in
    record {
      scheme = scheme;
      host = if empty host || text_eq host (codes "localhost") then codes "127.0.0.1" else host;
      port = port;
      path = path;
    }

-- A call of the application's.
pub data Call (V : Type 0) (C : Type 0) : Type 0 where
  status_changed : NodeInfo V → Call V C
  app_event : C → Text → Text → Call V C

-- `sent` is what was written to the socket, and `has_status_cb` whether a status callback is set.
pub record Client (V : Type 0) (C : Type 0) : Type 0 where
  pub opts : ClientOptions
  pub running : Bool
  pub reconciled : Bool
  pub is_websocket : Bool
  pub local_nodes : Dict (NodeInfo V)
  pub sync_queue : List (NodeInfo V)
  pub rr_indices : Dict ℕ
  pub app_callbacks : Dict (List C)
  pub has_status_cb : Bool
  pub stream_buf : Text
  pub last_error : Text
  pub sent : List Text
  pub calls : List (Call V C)
