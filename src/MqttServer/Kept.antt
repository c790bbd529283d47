-- ===== src/MqttServer/Kept.antt =====
-- What the handlers of src/mqtt/mqtt_server.cpp leave of their session: the buffer, the address and the
-- kind of the connection; and what is not taken back, that it is authenticated or closed.
use lightapr.Prelude.{
  ℕ, ◌≡◌, refl, ◌∙◌, true, Option, none, some, [], ◌∷◌, arith, Option-cases, inl, inr,
}
use lightapr.Prelude.Text.{Text}
use lightapr.Guard.{release}
use lightapr.Json.{Json}
use lightapr.Node.{NodeInfo}
use lightapr.Packet.{
  MqttConnect, decode_connect, decode_publish, encode_connack, encode_puback, encode_pingresp,
}
use lightapr.Registry.{Registry, mark_node_grace}
use lightapr.Registry.Updates.{register_or_update_node, update_node_extra}
use lightapr.MqttServer.{
  Settings, Session, Server, with_me, framed, deliver, send_raw, send_raw_and_close, receive,
  broadcast, on_session_closed, notify, announce, on_before_close, close_session, end_session,
}
use lightapr.MqttServer.Packets.{
  decoded, authenticate, handle_connect, handle_subscribe, handle_pingreq, read_meta, read_extra,
  handle_meta, handle_extra, route_publish, handle_publish, handle_disconnect, dispatch,
  process_packet,
}
use lightapr.MqttServer.Stream.{pong, handle_frame}
use lightapr.WebSocket.{WsFrame, encode_frame}

pub record Kept (x y : Session) : Type 0 where
  pub rx_acc : y.rx_acc ≡ x.rx_acc
  pub peer_ip : y.peer_ip ≡ x.peer_ip
  pub is_websocket : y.is_websocket ≡ x.is_websocket
  pub authenticated : x.authenticated ≡ true → y.authenticated ≡ true
  pub closed : x.closed ≡ true → y.closed ≡ true

pub Kept-refl : (x : Session) → Kept x x
Kept-refl x = record {
  rx_acc = refl;
  peer_ip = refl;
  is_websocket = refl;
  authenticated = λ h. h;
  closed = λ h. h;
}

pub Kept-trans : (x y z : Session) → Kept x y → Kept y z → Kept x z
Kept-trans x y z p q = record {
  rx_acc = q.rx_acc ∙ p.rx_acc;
  peer_ip = q.peer_ip ∙ p.peer_ip;
  is_websocket = q.is_websocket ∙ p.is_websocket;
  authenticated = λ h. q.authenticated (p.authenticated h);
  closed = λ h. q.closed (p.closed h);
}

deliver-Kept : (x : Session) (buf : Text) → Kept x (deliver x buf)
unfolding deliver
deliver-Kept x buf = ground arith

receive-Kept : (topic packet : Text) (x : Session) → Kept x (receive topic packet x)
unfolding receive
receive-Kept topic packet x = ground (arith, deliver-Kept x (framed x packet), Kept-refl x)

module _ {V : Type 0} where
  send_raw-Kept : (s : Server V) (packet : Text) → Kept s.me (send_raw s packet).me
  unfolding send_raw with_me
  send_raw-Kept s packet = deliver-Kept s.me (framed s.me packet)

  send_raw_and_close-Kept :
      (s : Server V) (packet : Text) → Kept s.me (send_raw_and_close s packet).me
  unfolding send_raw_and_close with_me deliver
  send_raw_and_close-Kept s packet = ground arith

  broadcast-Kept : (s : Server V) (topic payload : Text) → Kept s.me (broadcast s topic payload).me
  unfolding broadcast
  broadcast-Kept s topic payload = receive-Kept topic _ s.me

  authenticate-Kept :
      (c : Settings) (s : Server V) (conn : MqttConnect) → Kept s.me (authenticate c s conn).me
  unfolding authenticate with_me send_raw send_raw_and_close deliver
  authenticate-Kept c s conn = ground arith

  connect-Kept :
      (c : Settings) (s : Server V) (bytes : Text) → Kept s.me (handle_connect c s bytes).me
  unfolding handle_connect
  connect-Kept c s bytes = elim (Option-cases (decoded (decode_connect bytes))) [
    | inl e ↦ rw (handle_connect, e) (send_raw_and_close-Kept s (encode_connack 0x01))
    | inr (conn, e) ↦ rw (handle_connect, e) (authenticate-Kept c s conn)
  ]

  subscribe-Kept : (s : Server V) (bytes : Text) → Kept s.me (handle_subscribe s bytes).me
  unfolding handle_subscribe send_raw with_me deliver
  subscribe-Kept s bytes = ground arith

module _ {V : Type 0} (J : Json V) (stoul : Text → Option ℕ) where
  notify-Kept : (s : Server V) (n : NodeInfo V) → Kept s.me (notify J stoul s n).me
  unfolding notify
  notify-Kept s n = broadcast-Kept s _ _

  announce-Kept :
      (s : Server V) (o : Option (Registry V × NodeInfo V)) → Kept s.me (announce J stoul s o).me
  unfolding announce
  announce-Kept s none = Kept-refl s.me
  announce-Kept s (some (r, n)) = notify-Kept (record s { registry = r }) n

  before_close-Kept : (s : Server V) (now : ℕ) → Kept s.me (on_before_close J stoul s now).me
  unfolding on_before_close
  before_close-Kept s now =
      let freed = record s { guard = release s.guard s.me.peer_ip } in
      ground
        (arith, Kept-refl s.me, announce-Kept freed (mark_node_grace s.registry now s.me.node_id))

  close-Kept : (s : Server V) (now : ℕ) → Kept s.me (close_session J stoul s now).me
  unfolding close_session with_me
  close-Kept s now =
      ground
        (arith, Kept-refl s.me, before_close-Kept (with_me s (record s.me { closed = true })) now)

  pub end-Kept : (s : Server V) (now : ℕ) → Kept s.me (end_session J stoul s now).me
  unfolding end_session on_session_closed with_me
  end-Kept s now = ground (arith, close-Kept s now)

  module _ (c : Settings) where
    pub meta-Kept :
        (s : Server V) (payload : Text) (now : ℕ)
        → Kept s.me (handle_meta J stoul c s payload now).me
    unfolding handle_meta with_me
    meta-Kept s payload now = elim (Option-cases (read_meta J stoul c s.me payload)) [
      | inl e ↦ rw (handle_meta, e) (Kept-refl s.me)
      | inr (q, e) ↦
          let t =
            register_or_update_node J.dump c.max_extra_bytes c.node_size s.registry q now now in
          let told = notify-Kept (record s { registry = t.0 }) t.1 in
          rw (handle_meta, e) (ground (arith, told))
    ]

    extra-Kept :
        (s : Server V) (payload : Text) (now : ℕ)
        → Kept s.me (handle_extra J stoul c s payload now).me
    unfolding handle_extra
    extra-Kept s payload now = elim (Option-cases (read_extra J stoul c payload)) [
      | inl e ↦ ground (arith, e, Kept-refl s.me)
      | inr ((worker, v), e) ↦ ground (
        arith,
        e,
        Kept-refl s.me,
        announce-Kept s
            (update_node_extra J.dump c.max_extra_bytes s.registry now s.me.node_id worker v),
      )
    ]

    route-Kept :
        (s : Server V) (topic payload : Text) (now : ℕ)
        → Kept s.me (route_publish J stoul c s topic payload now).me
    unfolding route_publish
    route-Kept s topic payload now = ground (
      arith,
      Kept-refl s.me,
      meta-Kept s payload now,
      extra-Kept s payload now,
      broadcast-Kept s topic payload,
    )

    publish-Kept :
        (s : Server V) (bytes : Text) (now : ℕ)
        → Kept s.me (handle_publish J stoul c s bytes now).me
    unfolding handle_publish
    publish-Kept s bytes now = elim (Option-cases (decoded (decode_publish bytes))) [
      | inl e ↦ ground (arith, e, Kept-refl s.me)
      | inr (p, e) ↦
          let acked = send_raw s (encode_puback p.packet_id) in
          ground (
            arith,
            e,
            Kept-refl s.me,
            Kept-trans s.me acked.me (route_publish J stoul c acked p.topic p.payload now).me
                (send_raw-Kept s (encode_puback p.packet_id))
                (route-Kept acked p.topic p.payload now),
            route-Kept s p.topic p.payload now,
          )
    ]

    -- A packet leaves the buffer and the kind of the connection, and a session stays authenticated,
    -- and closed.
    pub process_packet-Kept :
        (s : Server V) (bytes : Text) (now : ℕ)
        → Kept s.me (process_packet J stoul c s bytes now).me
    unfolding process_packet dispatch handle_pingreq handle_disconnect
    process_packet-Kept s [] now = Kept-refl s.me
    process_packet-Kept s (b ∷ bs) now = ground (
      arith,
      Kept-refl s.me,
      connect-Kept c s (b ∷ bs),
      publish-Kept s (b ∷ bs) now,
      subscribe-Kept s (b ∷ bs),
      send_raw-Kept s encode_pingresp,
      end-Kept s now,
    )

    pub handle_frame-Kept :
        (s : Server V) (frame : WsFrame) (now : ℕ)
        → Kept s.me (handle_frame J stoul c s frame now).me
    unfolding handle_frame pong with_me
    handle_frame-Kept s frame now = ground (
      arith,
      Kept-refl s.me,
      process_packet-Kept s frame.payload now,
      end-Kept s now,
      deliver-Kept s.me (encode_frame frame.payload 0x0a),
    )
