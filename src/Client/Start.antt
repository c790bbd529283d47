-- ===== src/Client/Start.antt =====
-- start() of sdk/cpp/src/apr_client.cpp: the connection, the snapshot of the registry, and their order.
use lightapr.Prelude.{
  ℕ, ◌+◌, Bool, true, false, Option, none, some, List, [], ◌∷◌, ◌++◌, if◌then◌else◌, drop,
}
use lightapr.Prelude.Text.{Text, codes}
use lightapr.Prelude.Dict.{Dict, insert}
use lightapr.Http.{split_at, find, header_end_mark}
use lightapr.Json.{Json}
use lightapr.Node.{NodeInfo}
use lightapr.Node.Json.{node_from_json, default_node}
use lightapr.WebSocket.Digest.{base64_encode}
use lightapr.WebSocket.Handshake.{contains_text, crlf}
use lightapr.Client.{Client, Url, parse_url, is_ws_scheme}
use lightapr.Client.Session.{send_connect, send_subscribe, publish_metadata, reconcile_queue}

-- The lines behind the key of the upgrade request.
abbrev handshake_end : Text
handshake_end =
    crlf
    ++ (codes "Sec-WebSocket-Version: 13"
        ++ (crlf ++ (codes "Sec-WebSocket-Protocol: mqtt" ++ header_end_mark)))

-- The lines of the request before the key.
abbrev upgrade_lines : Text
upgrade_lines =
    crlf
    ++ (codes "Upgrade: websocket"
        ++ (crlf ++ (codes "Connection: Upgrade" ++ (crlf ++ codes "Sec-WebSocket-Key: "))))

-- The request for a WebSocket, with sixteen random bytes.
unfoldable pub handshake_request : Url → Text → Text
handshake_request url nonce =
    codes "GET "
    ++ (url.path
        ++ (codes " HTTP/1.1"
            ++ (crlf
                ++ (codes "Host: "
                    ++ (url.host
                        ++ (b':'
                            ∷ (url.port
                                ++ (upgrade_lines ++ (base64_encode nonce ++ handshake_end)))))))))

-- The host and the port of the HTTP server.
unfoldable pub snapshot_address : Text → Text × Text
snapshot_address url =
    let rest : Text = elim (find (codes "://") url) [
      | none ↦ url
      | some pos ↦ drop (pos + 3) url
    ] in
    elim (split_at b':' rest) [
      | none ↦ (codes "127.0.0.1", codes "8080")
      | some (host, port_str) ↦ elim (split_at b'/' port_str) [
        | none ↦ (host, port_str)
        | some (port, path) ↦ (host, port)
      ]
    ]

unfoldable pub snapshot_request : Text → Text
snapshot_request host =
    codes "GET /registry?count=1000 HTTP/1.1"
    ++ (crlf
        ++ (codes "Host: " ++ (host ++ (crlf ++ (codes "Connection: close" ++ header_end_mark)))))

module _ {V : Type 0} (J : Json V) (stoul : Text → Option ℕ) where
  -- The nodes are put in one by one, so those before one that throws stay.
  unfoldable pub put_nodes : List V → Dict (NodeInfo V) → Dict (NodeInfo V)
  put_nodes [] m = m
  put_nodes (j ∷ js) m = elim (node_from_json J stoul j default_node) [
    | none ↦ m
    | some n ↦ put_nodes js (insert n.id n m)
  ]

  -- The values of `j["nodes"]`, if it is an array.
  unfoldable pub snapshot_nodes : V → List V
  snapshot_nodes j = elim (J.find (codes "nodes") j) [
    | none ↦ []
    | some v ↦ if J.is_array v then J.elements v else []
  ]

  -- What the response to the snapshot's request puts into the copy of the registry.
  unfoldable pub take_snapshot : Text → Dict (NodeInfo V) → Dict (NodeInfo V)
  take_snapshot resp m = elim (find header_end_mark resp) [
    | none ↦ m
    | some body_pos ↦ elim (J.parse (drop (body_pos + 4) resp)) [
      | none ↦ m
      | some j ↦ put_nodes (snapshot_nodes j) m
    ]
  ]

-- What the network does while start() runs: the error of the connection if there is one, the answer
-- to the handshake, the response to the snapshot's request (`none` is an exception), and the three
-- random values.
pub record Network : Type 0 where
  pub connect_error : Option Text
  pub handshake_response : Text
  pub snapshot : Option Text
  pub nonce : Text
  pub first_random : ℕ
  pub second_random : ℕ

abbrev not_accepted : Text
not_accepted = codes "WebSocket handshake was not accepted (no HTTP 101 response)"

module _ {V : Type 0} {C : Type 0} (J : Json V) (stoul : Text → Option ℕ) where
  unfoldable pub fetch_snapshot : Client V C → Option Text → Client V C
  fetch_snapshot c none = c
  fetch_snapshot c (some resp) = record c { local_nodes = take_snapshot J stoul resp c.local_nodes }

  -- The canonical procedure, on a connection that stands.
  unfoldable pub introduce : Client V C → Network → Client V C
  introduce c net =
      let greeted = send_connect c net.first_random net.second_random in
      let listening = send_subscribe greeted (codes "apr/+") in
      let announced = publish_metadata J stoul listening in
      record (reconcile_queue (fetch_snapshot announced net.snapshot)) { running = true }

  -- The upgrade of a WebSocket's connection comes first.
  unfoldable pub upgrade : Client V C → Network → Text → Bool × Client V C
  upgrade c net request =
      let asked = record c { sent = c.sent ++ (request ∷ []) } in
      if contains_text (codes "101") net.handshake_response
      then (true, introduce asked net)
      else (false, record asked { last_error = not_accepted })

  unfoldable pub start : Client V C → Network → Bool × Client V C
  start c net =
      let url = parse_url c.opts.mqtt_url in
      let ws = is_ws_scheme url.scheme in
      let fresh = record c { last_error = []; is_websocket = ws } in
      elim net.connect_error [
        | some what ↦ (false, record fresh { last_error = what })
        | none ↦
            if ws
            then upgrade fresh net (handshake_request url net.nonce)
            else (true, introduce fresh net)
      ]
