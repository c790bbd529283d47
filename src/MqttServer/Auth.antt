-- ===== src/MqttServer/Auth.antt =====
-- The authentication of a session in src/mqtt/mqtt_server.cpp.
use lightapr.Prelude.{
  ℕ, ◌≡◌, refl, ◌∙◌, ◌⊎◌, inl, inr, true, false, Option, some, [], ◌∷◌, ◌++◌, arith, Bool-cases,
  Option-cases,
}
use lightapr.Prelude.Text.{Text, text_eq_iff}
use lightapr.Json.{Json}
use lightapr.Packet.{MqttConnect, decode_connect}
use lightapr.Packet.Reading.{Outcome, ok, failed, overrun, out_of_fuel}
use lightapr.MqttServer.{
  Settings, Server, with_me, deliver, count_sent, send_raw, send_raw_and_close, on_session_closed,
  on_before_close, close_session, end_session,
}
use lightapr.MqttServer.Packets.{
  decoded, refused, authenticate, handle_connect, handle_subscribe, handle_pingreq, handle_publish,
  handle_disconnect, dispatch, process_packet,
}

-- A packet is a CONNECT with the password that belongs to its username.
abbrev pub Accepts : Text → Text → Type 0
Accepts access_key bytes =
    (conn : MqttConnect) × (decode_connect bytes ≡ ok conn)
    × ((access_key ≡ []) ⊎ (conn.password ≡ access_key ++ conn.username))

refused-Accepts :
    (access_key : Text) (conn : MqttConnect)
    → refused access_key conn ≡ false
    → (access_key ≡ []) ⊎ (conn.password ≡ access_key ++ conn.username)
unfolding refused
refused-Accepts [] conn h = inl refl
refused-Accepts (k ∷ ks) conn h =
    inr ((text_eq_iff conn.password ((k ∷ ks) ++ conn.username)).0 (ground arith))

decoded-ok {ℓ} : {A : Type ℓ} (o : Outcome A) (a : A) → decoded o ≡ some a → o ≡ ok a
unfolding decoded
decoded-ok (ok b) a e = cc
decoded-ok failed a e = cc
decoded-ok overrun a e = cc
decoded-ok out_of_fuel a e = cc

module _ {V : Type 0} where
  -- What a session that is not authenticated has left as it was.
  pub record Locked (s t : Server V) : Type 0 where
    pub registry : t.registry ≡ s.registry
    pub before : t.before ≡ s.before
    pub after : t.after ≡ s.after
    pub subscriptions : t.me.subscriptions ≡ s.me.subscriptions
    pub node_id : t.me.node_id ≡ s.me.node_id
    pub authenticated : t.me.authenticated ≡ s.me.authenticated

  pub Locked-refl : (s : Server V) → Locked s s
  Locked-refl s = record {
    registry = refl;
    before = refl;
    after = refl;
    subscriptions = refl;
    node_id = refl;
    authenticated = refl;
  }

  pub Locked-trans : (s t u : Server V) → Locked s t → Locked t u → Locked s u
  Locked-trans s t u p q = record {
    registry = q.registry ∙ p.registry;
    before = q.before ∙ p.before;
    after = q.after ∙ p.after;
    subscriptions = q.subscriptions ∙ p.subscriptions;
    node_id = q.node_id ∙ p.node_id;
    authenticated = q.authenticated ∙ p.authenticated;
  }

  send_raw-Locked : (s : Server V) (packet : Text) → Locked s (send_raw s packet)
  unfolding send_raw with_me count_sent deliver
  send_raw-Locked s packet = ground arith

  send_raw_and_close-Locked :
      (s : Server V) (packet : Text) → Locked s (send_raw_and_close s packet)
  unfolding send_raw_and_close with_me count_sent deliver
  send_raw_and_close-Locked s packet = ground arith

  -- The handlers leave the session locked, or it has shown the password.
  abbrev pub Gated : Text → Text → Server V → Server V → Type 0
  Gated access_key bytes s t = Locked s t ⊎ (Accepts access_key bytes × (t.me.authenticated ≡ true))

  subscribe-Locked :
      (s : Server V) (bytes : Text)
      → s.me.authenticated ≡ false
      → Locked s (handle_subscribe s bytes)
  unfolding handle_subscribe
  subscribe-Locked s bytes h =
      let e : handle_subscribe s bytes ≡ s = ground arith in rw e (Locked-refl s)

  pingreq-Locked : (s : Server V) → Locked s (handle_pingreq s)
  unfolding handle_pingreq
  pingreq-Locked s = send_raw-Locked s _

  authenticate-Gated :
      (c : Settings) (s : Server V) (bytes : Text) (conn : MqttConnect)
      → decode_connect bytes ≡ ok conn
      → Gated c.access_key bytes s (authenticate c s conn)
  unfolding authenticate send_raw send_raw_and_close with_me count_sent deliver
  authenticate-Gated c s bytes conn e = elim (Bool-cases (refused c.access_key conn)) [
    | inl wrong ↦ rw wrong (inl (ground arith))
    | inr right ↦ rw right (inr ((conn, e, refused-Accepts c.access_key conn right), ground arith))
  ]

  connect-Gated :
      (c : Settings) (s : Server V) (bytes : Text)
      → Gated c.access_key bytes s (handle_connect c s bytes)
  unfolding handle_connect
  connect-Gated c s bytes = elim (Option-cases (decoded (decode_connect bytes))) [
    | inl e ↦ rw (handle_connect, e) (inl (send_raw_and_close-Locked s _))
    | inr (conn, e) ↦
        rw (handle_connect, e)
          (authenticate-Gated c s bytes conn (decoded-ok (decode_connect bytes) conn e))
  ]

module _ {V : Type 0} (J : Json V) (stoul : Text → Option ℕ) where
  pub disconnect-Locked :
      (s : Server V) (now : ℕ) → s.me.node_id ≡ [] → Locked s (end_session J stoul s now)
  unfolding end_session on_session_closed close_session on_before_close with_me
  disconnect-Locked s now h = ground arith

  publish-Locked :
      (c : Settings) (s : Server V) (bytes : Text) (now : ℕ)
      → s.me.authenticated ≡ false
      → Locked s (handle_publish J stoul c s bytes now)
  unfolding handle_publish
  publish-Locked c s bytes now h =
      let e : handle_publish J stoul c s bytes now ≡ s = ground arith in rw e (Locked-refl s)

  -- A packet on a session that is not authenticated and has no node either leaves the registry, the
  -- other sessions, the subscriptions, the node id and the flag as they were, or it is a CONNECT
  -- whose password is the access key followed by the username (or there is no access key), and the
  -- session is authenticated.
  pub process_packet-Gated :
      (c : Settings) (s : Server V) (bytes : Text) (now : ℕ)
      → s.me.authenticated ≡ false
      → s.me.node_id ≡ []
      → Gated c.access_key bytes s (process_packet J stoul c s bytes now)
  unfolding process_packet dispatch handle_disconnect
  process_packet-Gated c s [] now h n = inl (Locked-refl s)
  process_packet-Gated c s (b ∷ bs) now h n = ground (
    arith,
    connect-Gated c s (b ∷ bs),
    publish-Locked c s (b ∷ bs) now h,
    subscribe-Locked s (b ∷ bs) h,
    pingreq-Locked s,
    disconnect-Locked s now n,
    Locked-refl s,
  )
