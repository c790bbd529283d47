-- ===== src/MqttServer/Handlers.antt =====
-- Each handler of src/mqtt/mqtt_server.cpp keeps the state safe.
use lightapr.Prelude.{
  ℕ, ◌<◌, ◌-◌, ◌^◌, ◌≡◌, refl, true, false, Option, some, [], ◌∷◌, ◌++◌, arith, map, Bool-cases,
  Option-cases, inl, inr,
}
use lightapr.Prelude.Text.{Text}
use lightapr.Guard.{Limits}
use lightapr.Json.{Json}
use lightapr.Packet.{
  MqttConnect, decode_connect, decode_publish, decode_subscribe, encode_puback, encode_pingresp,
  encode_suback,
}
use lightapr.Registry.Methods.{exec-IsValid}
use lightapr.Registry.Updates.{register_or_update_node, update_node_extra}
use lightapr.Registry.Validity.{IsValid, Holds, register, announce, exec}
use lightapr.Registry.Validity as Validity
use lightapr.MqttServer.{
  Settings, Session, Server, with_me, deliver, send_raw, start_read_loop, notify, broadcast,
  end_session, close_session,
}
use lightapr.MqttServer as MqttServer
use lightapr.MqttServer.Events.{
  Happening, bytes_read, read_failed, idle_timeout, write_done, write_failed, destroyed, read_over,
  handle,
}
use lightapr.MqttServer.Invariant.{
  open_ip, live, with_me-Calm, send_raw-Calm, send_raw_and_close-Calm, broadcast-Calm, IsSafe, calm,
  announce-IsSafe, close-IsSafe, end-IsSafe, open_ip-deliver,
}
use lightapr.MqttServer.Packets.{
  decoded, role_of, refused, authenticate, handle_connect, handle_subscribe, handle_pingreq,
  read_meta, read_extra, handle_meta, handle_extra, route_publish, handle_publish,
  handle_disconnect, dispatch, process_packet,
}
use lightapr.MqttServer.Reads.{Returns, IsStable, on_bytes_read-Returns}
use lightapr.MqttServer.Stream.{with_acc, pong, upgrade}

module _ {V : Type 0} (J : Json V) (stoul : Text → Option ℕ) (c : Settings) (l : Limits) where
  abbrev Safe : Server V → Type 0
  Safe s = IsSafe J stoul c l s

  named-IsSafe :
      (s : Server V) (x : Session) → open_ip x ≡ open_ip s.me → Safe s → Safe (with_me s x)
  named-IsSafe s x e p = calm J stoul c l s (with_me s x) (with_me-Calm s x e) p

  send-IsSafe : (s : Server V) (packet : Text) → Safe s → Safe (send_raw s packet)
  send-IsSafe s packet p = calm J stoul c l s (send_raw s packet) (send_raw-Calm s packet) p

  authenticate-IsSafe : (s : Server V) (conn : MqttConnect) → Safe s → Safe (authenticate c s conn)
  unfolding authenticate open_ip with_me
  authenticate-IsSafe s conn p =
      let named =
        with_me s (record s.me { client_id = conn.client_id; username = conn.username }) in
      let named_safe : Safe named = named-IsSafe s named.me refl p in
      let in_ =
        with_me named (record named.me { role = role_of conn.username; authenticated = true }) in
      elim (Bool-cases (refused c.access_key conn)) [
        | inl e ↦ rw e (calm J stoul c l named _ (send_raw_and_close-Calm named _) named_safe)
        | inr e ↦ rw e (send-IsSafe in_ _ (named-IsSafe named in_.me refl named_safe))
      ]

  connect-IsSafe : (s : Server V) (bytes : Text) → Safe s → Safe (handle_connect c s bytes)
  unfolding handle_connect
  connect-IsSafe s bytes p = elim (Option-cases (decoded (decode_connect bytes))) [
    | inl e ↦ rw (handle_connect, e) (calm J stoul c l s _ (send_raw_and_close-Calm s _) p)
    | inr (conn, e) ↦ rw (handle_connect, e) (authenticate-IsSafe s conn p)
  ]

  subscribe-IsSafe : (s : Server V) (bytes : Text) → Safe s → Safe (handle_subscribe s bytes)
  unfolding handle_subscribe open_ip
  subscribe-IsSafe s bytes p = elim (Option-cases (decoded (decode_subscribe bytes))) [
    | inl e ↦ ground (arith, e, p)
    | inr (sub, e) ↦
        let x = record s.me { subscriptions = s.me.subscriptions ++ sub.topics } in
        ground (
          arith,
          e,
          p,
          send-IsSafe (with_me s x) (encode_suback sub.packet_id (map (λ t. 0) sub.topics))
              (named-IsSafe s x refl p),
        )
  ]

  meta-IsSafe :
      (s : Server V) (payload : Text) (now : ℕ)
      → Safe s
      → Safe (handle_meta J stoul c s payload now)
  unfolding handle_meta exec open_ip
  meta-IsSafe s payload now p = elim (Option-cases (read_meta J stoul c s.me payload)) [
    | inl e ↦ rw (handle_meta, e) p
    | inr (q, e) ↦
        let t = register_or_update_node J.dump c.max_extra_bytes c.node_size s.registry q now now in
        let told =
          announce-IsSafe J stoul c l s (some t)
            (unfold Validity.left_by in
              exec-IsValid J.dump c.max_extra_bytes c.node_size (register q now now) s.registry
                p.valid)
            p in
        rw (handle_meta, e) (named-IsSafe _ _ refl (unfold MqttServer.announce in told))
  ]

  extra-IsSafe :
      (s : Server V) (payload : Text) (now : ℕ)
      → Safe s
      → Safe (handle_extra J stoul c s payload now)
  unfolding handle_extra exec
  extra-IsSafe s payload now p = elim (Option-cases (read_extra J stoul c payload)) [
    | inl e ↦ ground (arith, e, p)
    | inr ((worker, v), e) ↦
        let o = update_node_extra J.dump c.max_extra_bytes s.registry now s.me.node_id worker v in
        ground (
          arith,
          e,
          p,
          announce-IsSafe J stoul c l s o
              (exec-IsValid J.dump c.max_extra_bytes c.node_size
                (announce now s.me.node_id worker v) s.registry p.valid)
              p,
        )
  ]

  route-IsSafe :
      (s : Server V) (topic payload : Text) (now : ℕ)
      → Safe s
      → Safe (route_publish J stoul c s topic payload now)
  unfolding route_publish
  route-IsSafe s topic payload now p = ground (
    arith,
    p,
    meta-IsSafe s payload now p,
    extra-IsSafe s payload now p,
    calm J stoul c l s (broadcast s topic payload) (broadcast-Calm s topic payload) p,
  )

  publish-IsSafe :
      (s : Server V) (bytes : Text) (now : ℕ) → Safe s → Safe (handle_publish J stoul c s bytes now)
  unfolding handle_publish
  publish-IsSafe s bytes now p = elim (Option-cases (decoded (decode_publish bytes))) [
    | inl e ↦ ground (arith, e, p)
    | inr (q, e) ↦
        let acked = send_raw s (encode_puback q.packet_id) in
        ground (
          arith,
          e,
          p,
          route-IsSafe acked q.topic q.payload now (send-IsSafe s (encode_puback q.packet_id) p),
          route-IsSafe s q.topic q.payload now p,
        )
  ]

  process_packet-IsSafe :
      (s : Server V) (bytes : Text) (now : ℕ) → Safe s → Safe (process_packet J stoul c s bytes now)
  unfolding process_packet dispatch handle_pingreq handle_disconnect
  process_packet-IsSafe s [] now p = p
  process_packet-IsSafe s (b ∷ bs) now p = ground (
    arith,
    p,
    connect-IsSafe s (b ∷ bs) p,
    publish-IsSafe s (b ∷ bs) now p,
    subscribe-IsSafe s (b ∷ bs) p,
    send-IsSafe s encode_pingresp p,
    end-IsSafe J stoul c l s now p,
  )

  Safe-IsStable : (now : ℕ) → IsStable J stoul c now Safe
  unfolding with_acc start_read_loop pong upgrade open_ip with_me live
  Safe-IsStable now = record {
    acc = λ s a p. named-IsSafe s (record s.me { rx_acc = a }) refl p;
    reads = λ s p. named-IsSafe s (record s.me { reading = true }) refl p;
    counts = λ s m p. record { valid = p.valid; reached = p.reached };
    packet = λ s bytes p. process_packet-IsSafe s bytes now p;
    ends = λ s p. end-IsSafe J stoul c l s now p;
    pongs = λ s payload p. named-IsSafe s _ (open_ip-deliver s.me _) p;
    upgrades = λ s key k p. named-IsSafe s _ (open_ip-deliver _ _) p;
    plain = λ s p. named-IsSafe s _ refl p;
  }

  pub handle-IsSafe :
      (s : Server V) (h : Happening) (now : ℕ)
      → c.max_string < 2 ^ 64 - 14
      → Safe s
      → Returns Safe (handle J stoul c s h now)
  unfolding handle read_over open_ip
  handle-IsSafe s (bytes_read bytes) now small p =
      let over = named-IsSafe s (record s.me { reading = false }) refl p in
      ground (
        arith,
        p,
        on_bytes_read-Returns J stoul c now small Safe (Safe-IsStable now) (read_over s) bytes over,
      )
  handle-IsSafe s read_failed now small p =
      let over = named-IsSafe s (record s.me { reading = false }) refl p in
      ground (arith, p, end-IsSafe J stoul c l (read_over s) now over)
  handle-IsSafe s idle_timeout now small p = ground (arith, p, end-IsSafe J stoul c l s now p)
  handle-IsSafe s write_done now small p = ground (arith, p, end-IsSafe J stoul c l s now p)
  handle-IsSafe s write_failed now small p = end-IsSafe J stoul c l s now p
  handle-IsSafe s destroyed now small p = close-IsSafe J stoul c l s now p
