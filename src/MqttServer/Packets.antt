-- ===== src/MqttServer/Packets.antt =====
-- The packet handlers of mqtt_session in src/mqtt/mqtt_server.cpp.
use lightapr.Prelude.{
  ℕ, Bool, true, not, ◌&&◌, ◌||◌, Option, none, some, [], ◌∷◌, ◌++◌, ◌==◌, if◌then◌else◌, map,
}
use Prim.Native.Nat.{bit_and}
use lightapr.Prelude.Text.{Text, codes, empty, text_eq}
use lightapr.Http.{split_at, starts_with}
use lightapr.Json.{Json}
use lightapr.Node.Json.{◌>>=◌, read_if, read_endpoint}
use lightapr.Packet.{
  MqttConnect, decode_connect, decode_publish, decode_subscribe, encode_connack, encode_puback,
  encode_suback, encode_pingresp,
}
use lightapr.Packet.Reading.{Outcome, ok}
use lightapr.Registry.Updates.{Registration, register_or_update_node, update_node_extra}
use lightapr.MqttServer.{
  Settings, Session, Server, with_me, send_raw, send_raw_and_close, broadcast, notify, announce,
  end_session,
}

-- The decoders' `return false` and a value. The other outcomes do not occur.
unfoldable pub decoded {ℓ} : {A : Type ℓ} → Outcome A → Option A
decoded (ok a) = some a
decoded _ = none

-- The username up to its first '_'.
unfoldable pub role_of : Text → Text
role_of username = elim (split_at b'_' username) [ none ↦ username | some (role, rest) ↦ role ]

-- `conn.password != access_key + username && !access_key.empty()`
unfoldable pub refused : Text → MqttConnect → Bool
refused access_key conn =
    not (text_eq conn.password (access_key ++ conn.username)) && not (empty access_key)

module _ {V : Type 0} where
  unfoldable pub handle_subscribe : Server V → Text → Server V
  handle_subscribe s bytes =
      if not s.me.authenticated then s else elim (decoded (decode_subscribe bytes)) [
        | none ↦ s
        | some sub ↦
            send_raw (with_me s (record s.me { subscriptions = s.me.subscriptions ++ sub.topics }))
              (encode_suback sub.packet_id (map (λ t. 0) sub.topics))
      ]

  unfoldable pub handle_pingreq : Server V → Server V
  handle_pingreq s = send_raw s encode_pingresp

module _ {V : Type 0} (c : Settings) where
  unfoldable pub authenticate : Server V → MqttConnect → Server V
  authenticate s conn =
      let named =
        with_me s (record s.me { client_id = conn.client_id; username = conn.username }) in
      if refused c.access_key conn
      then send_raw_and_close named (encode_connack 0x04)
      else send_raw
          (with_me named (record named.me { role = role_of conn.username; authenticated = true }))
          (encode_connack 0x00)

  unfoldable pub handle_connect : Server V → Text → Server V
  handle_connect s bytes = elim (decoded (decode_connect bytes)) [
    | none ↦ send_raw_and_close s (encode_connack 0x01)
    | some conn ↦ authenticate s conn
  ]

module _ {V : Type 0} (J : Json V) (stoul : Text → Option ℕ) (c : Settings) where
  -- `j.value(key, absent)` for a string, which throws on what is no object.
  unfoldable pub value_or : V → Text → Text → Option Text
  value_or j key absent =
      if J.is_object j
      then elim (J.find key j) [ none ↦ some absent | some v ↦ J.get_string v ]
      else none

  -- What the payload of apr/node/meta registers; `none` is an exception, which is caught.
  unfoldable pub read_meta : Session → Text → Option (Registration V)
  read_meta me payload = do
    j ← J.parse payload
    role ← value_or j (codes "role") me.role
    workers ← read_if J stoul J.is_array J.get_strings (codes "workers") j []
    endpoint ← read_endpoint J stoul j
    extra ← read_if J stoul J.is_object (λ v. some (J.entries v)) (codes "extra") j []
    some (record {
      role = role;
      workers = workers;
      endpoint = endpoint;
      peer_ip = me.peer_ip;
      existing_id = me.node_id;
      extra = some extra;
    })

  unfoldable pub handle_meta : Server V → Text → ℕ → Server V
  handle_meta s payload now = elim (read_meta s.me payload) [
    | none ↦ s
    | some q ↦
        let (r, n) =
          register_or_update_node J.dump c.max_extra_bytes c.node_size s.registry q now now in
        let told = notify J stoul (record s { registry = r }) n in
        with_me told (record told.me { node_id = n.id })
  ]

  -- The worker and its extra data; `none` is an exception, or a payload that is malformed.
  unfoldable pub read_extra : Text → Option (Text × V)
  read_extra payload = do
    j ← J.parse payload
    worker ← value_or j (codes "worker") []
    v ← J.find (codes "extra") j
    if empty worker || not (J.is_object v) then none else some (worker, v)

  unfoldable pub handle_extra : Server V → Text → ℕ → Server V
  handle_extra s payload now = if empty s.me.node_id then s else elim (read_extra payload) [
    | none ↦ s
    | some (worker, v) ↦
        announce J stoul s
          (update_node_extra J.dump c.max_extra_bytes s.registry now s.me.node_id worker v)
  ]

  -- The three kinds of topics; the rest of the reserved ones are dropped.
  unfoldable pub route_publish : Server V → Text → Text → ℕ → Server V
  route_publish s topic payload now =
      if text_eq topic (codes "apr/node/meta")
      then handle_meta s payload now
      else if text_eq topic (codes "apr/node/extra")
      then handle_extra s payload now
      else if starts_with (codes "apr/") topic
      then s
      else broadcast s topic payload

  unfoldable pub handle_publish : Server V → Text → ℕ → Server V
  handle_publish s bytes now =
      if not s.me.authenticated then s else elim (decoded (decode_publish bytes)) [
        | none ↦ s
        | some pub_ ↦
            let acked = if pub_.qos == 1 then send_raw s (encode_puback pub_.packet_id) else s in
            route_publish acked pub_.topic pub_.payload now
      ]

  unfoldable pub handle_disconnect : Server V → ℕ → Server V
  handle_disconnect s now = end_session J stoul s now

  -- The switch on the type of the packet.
  unfoldable pub dispatch : ℕ → Server V → Text → ℕ → Server V
  dispatch pkt_type s bytes now =
      if pkt_type == 0x10
      then handle_connect c s bytes
      else if pkt_type == 0x30
      then handle_publish s bytes now
      else if pkt_type == 0x80
      then handle_subscribe s bytes
      else if pkt_type == 0xc0
      then handle_pingreq s
      else if pkt_type == 0xe0
      then handle_disconnect s now
      else s

  unfoldable pub process_packet : Server V → Text → ℕ → Server V
  process_packet s [] now = s
  process_packet s (b ∷ bs) now = dispatch (bit_and b 0xf0) s (b ∷ bs) now
