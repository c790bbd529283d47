-- ===== src/MqttServer.antt =====
-- The sessions of src/mqtt/mqtt_server.hpp, mqtt_server.cpp and include/apr/tcp_session.hpp, and what
-- a session does to the others, to the registry and to the guard. Asynchronous calls are events in
-- Events: a write puts its bytes in the outbox of its session, and a read that is waited for is the
-- flag `reading`. The clock is read once for an event.
pub mod Packets
pub mod Stream
pub mod Events
pub mod Kept
pub mod Reads
pub mod Auth
pub mod Gate
pub mod Delivery
pub mod Undead
pub mod Invariant
pub mod Handlers
pub mod Histories
mod Tests
use lightapr.Prelude.{
  ℕ, ◌+◌, ◌%◌, ◌^◌, Bool, true, false, not, ◌&&◌, ◌||◌, Option, none, some, List, [], ◌∷◌, ◌++◌,
  if◌then◌else◌, length, map,
}
use lightapr.Prelude.Text.{Text, codes, empty}
use lightapr.Prelude.Int.{pos}
use lightapr.Accumulator.{Accumulator}
use lightapr.Guard.{Guard, release}
use lightapr.Json.{Json}
use lightapr.Memory.{MemoryTracker, add_mqtt_tx_bytes}
use lightapr.Node.{NodeInfo}
use lightapr.Node.Json.{node_to_json}
use lightapr.Packet.{encode_publish}
use lightapr.Registry.{Registry, mark_node_grace}
use lightapr.Topic.{matches}
use lightapr.WebSocket.{encode_frame}

-- The access key and the limits that the daemon is started with; `node_size` is sizeof(node_info)
-- and `max_string` is std::string::max_size().
pub record Settings : Type 0 where
  pub access_key : Text
  pub max_buffer_bytes : ℕ
  pub max_extra_bytes : ℕ
  pub node_size : ℕ
  pub max_string : ℕ

-- `listed` is membership in the server's set of sessions.
pub record Session : Type 0 where
  pub peer_ip : Text
  pub closed : Bool
  pub closing : Bool
  pub listed : Bool
  pub reading : Bool
  pub is_websocket : Bool
  pub ws_handshake_done : Bool
  pub authenticated : Bool
  pub client_id : Text
  pub username : Text
  pub role : Text
  pub node_id : Text
  pub subscriptions : List Text
  pub rx_acc : Accumulator ℕ
  pub outbox : List Text

-- What a handler of the session `me` reaches: the other sessions stand before and after it.
pub record Server (V : Type 0) : Type 0 where
  pub before : List Session
  pub me : Session
  pub after : List Session
  pub registry : Registry V
  pub guard : Guard
  pub memory : MemoryTracker

unfoldable pub matches_topic : List Text → Text → Bool
matches_topic [] topic = false
matches_topic (pat ∷ pats) topic = matches pat topic || matches_topic pats topic

-- `encode_frame(data, 0x02)` on a WebSocket session, and the packet itself on another.
unfoldable pub framed : Session → Text → Text
framed s packet = if s.is_websocket then encode_frame packet 0x02 else packet

-- async_write: nothing is sent on a socket that is closed.
unfoldable pub deliver : Session → Text → Session
deliver s buf = if s.closed then s else record s { outbox = s.outbox ++ (buf ∷ []) }

-- The turn of one session in the loop of broadcast.
unfoldable pub receives : Session → Text → Bool
receives s topic = s.listed && matches_topic s.subscriptions topic

unfoldable pub receive : Text → Text → Session → Session
receive topic packet s = if receives s topic then deliver s (framed s packet) else s

-- What the writes of a broadcast add to the gauge.
unfoldable pub sent_bytes : Text → Text → List Session → ℕ
sent_bytes topic packet [] = 0
sent_bytes topic packet (s ∷ ss) =
    (if receives s topic then length (framed s packet) else 0) + sent_bytes topic packet ss

module _ {V : Type 0} where
  unfoldable pub with_me : Server V → Session → Server V
  with_me s x = record s { me = x }

  -- add_mqtt_tx_bytes
  unfoldable pub count_sent : Server V → ℕ → Server V
  count_sent s n = record s { memory = add_mqtt_tx_bytes s.memory (pos n) }

  unfoldable pub send_raw : Server V → Text → Server V
  send_raw s packet =
      let buf = framed s.me packet in with_me (count_sent s (length buf)) (deliver s.me buf)

  -- The session is closed by the event of the write's end.
  unfoldable pub send_raw_and_close : Server V → Text → Server V
  send_raw_and_close s packet =
      let buf = framed s.me packet in
      with_me (count_sent s (length buf)) (record (deliver s.me buf) { closing = true })

  unfoldable pub broadcast : Server V → Text → Text → Server V
  broadcast s topic payload =
      let packet = encode_publish topic payload 0 0 in
      record (count_sent s (sent_bytes topic packet (s.before ++ (s.me ∷ s.after)))) {
        before = map (receive topic packet) s.before;
        me = receive topic packet s.me;
        after = map (receive topic packet) s.after;
      }

  unfoldable pub start_read_loop : Server V → Server V
  start_read_loop s = with_me s (record s.me { reading = true })

  -- `on_close_` takes the session out of the server's set.
  unfoldable pub on_session_closed : Server V → Server V
  on_session_closed s = with_me s (record s.me { listed = false })

module _ {V : Type 0} (J : Json V) (stoul : Text → Option ℕ) where
  -- The event callback of the server.
  unfoldable pub notify : Server V → NodeInfo V → Server V
  notify s n = broadcast s (codes "apr/" ++ n.role) (J.dump (node_to_json J stoul n))

  -- A registry's method that did something calls back.
  unfoldable pub announce : Server V → Option (Registry V × NodeInfo V) → Server V
  announce s none = s
  announce s (some (r, n)) = notify (record s { registry = r }) n

  unfoldable pub on_before_close : Server V → ℕ → Server V
  on_before_close s now =
      let freed = record s { guard = release s.guard s.me.peer_ip } in
      if empty s.me.node_id
      then freed
      else announce freed (mark_node_grace s.registry now s.me.node_id)

  unfoldable pub close_session : Server V → ℕ → Server V
  close_session s now =
      if s.me.closed then s else on_before_close (with_me s (record s.me { closed = true })) now

  -- The two calls that stand together.
  unfoldable pub end_session : Server V → ℕ → Server V
  end_session s now = on_session_closed (close_session s now)
