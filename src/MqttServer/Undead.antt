-- ===== src/MqttServer/Undead.antt =====
-- A registration on a session of src/mqtt/mqtt_server.cpp that is closed.
use lightapr.Prelude.{ℕ, ◌<◌, ◌≡◌, refl, true, Option, some, [], ◌++◌, arith, length}
use lightapr.Prelude.Text.{Text, codes, text_eq}
use lightapr.Prelude.Dict.{lookup}
use lightapr.Json.{Json}
use lightapr.Node.{NodeInfo, ok}
use lightapr.Packet.{encode_publish}
use lightapr.Registry.Registered.{register-IsRegistered}
use lightapr.Registry.Updates.{Registration, register_or_update_node}
use lightapr.Registry.Validity.{IsValid}
use lightapr.MqttServer.{Settings, Server, with_me, broadcast, count_sent, notify, close_session}
use lightapr.MqttServer.Delivery.{process_packet-publish}
use lightapr.MqttServer.Kept.{meta-Kept}
use lightapr.MqttServer.Packets.{read_meta, handle_meta, route_publish, process_packet}

module _ {V : Type 0} (J : Json V) (stoul : Text → Option ℕ) (c : Settings) where
  -- The registry and the node id that a registration leaves.
  meta_lem :
      (s : Server V) (payload : Text) (now : ℕ) (q : Registration V)
      → read_meta J stoul c s.me payload ≡ some q
      → let t = handle_meta J stoul c s payload now in
        let (r, n) =
          register_or_update_node J.dump c.max_extra_bytes c.node_size s.registry q now now in
        (t.registry ≡ r) × (t.me.node_id ≡ n.id)
  unfolding handle_meta notify broadcast count_sent with_me
  meta_lem s payload now q e = rw (handle_meta, e) (refl, refl)

  still_closed : (s : Server V) (now : ℕ) → s.me.closed ≡ true → close_session J stoul s now ≡ s
  unfolding close_session
  still_closed s now h = ground arith

  -- The flaw: a PUBLISH to "apr/node/meta" that is handled on a session already closed, as when it
  -- stands in the frame after a DISCONNECT in the same read, registers its node as OK, with the role
  -- and workers of its payload; and since closing the session again does nothing, no later close of
  -- it puts that node in its grace period. The session is authenticated, the registry valid, and the
  -- payload one that can be read and fits.
  pub process_packet-undead :
      (s : Server V) (payload : Text) (now : ℕ) (q : Registration V)
      → s.me.closed ≡ true
      → s.me.authenticated ≡ true
      → length payload < 2097000
      → IsValid J.dump c.max_extra_bytes c.node_size s.registry
      → read_meta J stoul c s.me payload ≡ some q
      → let t =
          process_packet J stoul c s
            (encode_publish (codes "apr/node/meta") payload 0 0 ++ [])
            now in
        (n : NodeInfo V) × (lookup t.me.node_id t.registry.nodes ≡ some n)
        × (n.status ≡ ok)
        × (n.role ≡ q.role)
        × (n.workers ≡ q.workers)
        × ((later : ℕ) → close_session J stoul t later ≡ t)
  unfolding route_publish text_eq
  process_packet-undead s payload now q closed auth small v e =
      let (r, n) =
        register_or_update_node J.dump c.max_extra_bytes c.node_size s.registry q now now in
      let in_ = register-IsRegistered J.dump c.max_extra_bytes c.node_size s.registry q now now v in
      let left = meta_lem s payload now q e in
      let t = handle_meta J stoul c s payload now in
      rw
        (process_packet-publish J stoul c s (codes "apr/node/meta") payload [] 0 0 now auth
          (omega arith) (omega arith) (omega arith) (omega arith))
        (
          n,
          rw (left.0, left.1) in_.found_at,
          in_.is_ok,
          in_.role,
          in_.workers,
          λ later. still_closed t later ((meta-Kept J stoul c s payload now).closed closed),
        )
