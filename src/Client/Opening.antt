-- ===== src/Client/Opening.antt =====
-- The first read of the server of src/mqtt/mqtt_server.cpp from a client of sdk/cpp/src/apr_client.cpp on
-- a connection that is no WebSocket.
use lightapr.Prelude.{
  ℕ, ◌<◌, ◌≤◌, ◌≡◌, refl, ap, ◌∙◌, true, false, ◌||◌, Option, [], ◌++◌, ltb, arith, length,
}
use lightapr.Prelude.Text.{Text, codes}
use lightapr.Prelude.Int.{pos}
use lightapr.Accumulator.{Accumulator, append, view, total_capacity, clear}
use lightapr.Accumulator as Accumulator
use lightapr.Http.{starts_with}
use lightapr.Json.{Json}
use lightapr.Memory.{add_mqtt_rx_bytes}
use lightapr.MqttServer.{Settings, Server, with_me, start_read_loop}
use lightapr.MqttServer.Packets.{process_packet}
use lightapr.MqttServer.Stream.{
  done, with_acc, read_on, first_packet, read_opening, read_buffered, on_bytes_read,
}
use lightapr.Client.{ClientOptions}
use lightapr.Client.Connecting.{process_packet-make_connect}
use lightapr.Client.Packets.{
  connect_packet, connect_length, make_username, make_client_id, make_connect,
}

module _ {V : Type 0} (J : Json V) (stoul : Text → Option ℕ) (c : Settings) where
  -- A CONNECT does not begin as an HTTP request does.
  not_get :
      (opts : ClientOptions) (r₁ r₂ : ℕ) (rest : Text)
      → (starts_with (codes "GET ") (make_connect opts r₁ r₂ ++ rest)
          || starts_with (codes "get ") (make_connect opts r₁ r₂ ++ rest))
        ≡ false
  unfolding make_connect connect_packet starts_with
  not_get opts r₁ r₂ rest = refl

  counted : Server V → Text → Server V
  counted s bytes = record s { memory = add_mqtt_rx_bytes s.memory (pos (length bytes)) }

  -- The buffer has the bytes of the first read.
  filled : Server V → Text → Server V
  filled s bytes = with_acc (counted s bytes) (record { buf = bytes; offset = 0 })

  -- The session as process_packet finds it.
  plain : Server V → Text → Server V
  plain s bytes =
      let t = filled s bytes in
      with_me t (record t.me { ws_handshake_done = true; is_websocket = false })

  -- What is done after the packet.
  after_packet : Server V → Server V
  after_packet s = read_on (with_acc s (clear s.me.rx_acc))

  buffered :
      (s : Server V) (bytes : Text) (now : ℕ)
      → s.me.ws_handshake_done ≡ false
      → on_bytes_read J stoul c s bytes now ≡ read_buffered J stoul c (counted s bytes) bytes now
  unfolding on_bytes_read counted
  buffered s bytes now fresh = rw (on_bytes_read, fresh) refl

  appended : (bytes : Text) → append Accumulator.new bytes ≡ record { buf = bytes; offset = 0 }
  unfolding append Accumulator.new
  appended bytes = refl

  below_cap :
      (s : Server V) (bytes : Text) (now : ℕ) (a : Accumulator ℕ)
      → append s.me.rx_acc bytes ≡ a
      → ltb c.max_buffer_bytes (total_capacity a) ≡ false
      → s.me.ws_handshake_done ≡ false
      → read_buffered J stoul c (counted s bytes) bytes now
        ≡ read_opening J stoul c (with_acc (counted s bytes) a) now
  unfolding read_buffered counted with_acc with_me
  below_cap s bytes now a e cap fresh = rw (read_buffered, e, cap, fresh) refl

  first :
      (s : Server V) (bytes : Text) (now : ℕ)
      → (starts_with (codes "GET ") bytes || starts_with (codes "get ") bytes) ≡ false
      → read_opening J stoul c (filled s bytes) now
        ≡ done (after_packet (process_packet J stoul c (plain s bytes) bytes now))
  unfolding read_opening first_packet view with_acc with_me plain after_packet filled
  first s bytes now other = rw (read_opening, other) refl

  opens :
      (s : Server V) (bytes : Text) (now : ℕ)
      → s.me.ws_handshake_done ≡ false
      → s.me.rx_acc ≡ Accumulator.new
      → length bytes ≤ c.max_buffer_bytes
      → (starts_with (codes "GET ") bytes || starts_with (codes "get ") bytes) ≡ false
      → on_bytes_read J stoul c s bytes now
        ≡ done (after_packet (process_packet J stoul c (plain s bytes) bytes now))
  unfolding total_capacity filled
  opens s bytes now fresh none_yet fits other =
      let e : append s.me.rx_acc bytes ≡ record { buf = bytes; offset = 0 } =
        ap (λ (a : Accumulator ℕ). append a bytes) none_yet ∙ appended bytes in
      buffered s bytes now fresh
      ∙ below_cap s bytes now (record { buf = bytes; offset = 0 }) e (ground arith) fresh
      ∙ first s bytes now other

  kept_of_plain :
      (s : Server V) (bytes : Text)
      → let t = plain s bytes in
        (t.me.subscriptions ≡ s.me.subscriptions)
        × (t.registry ≡ s.registry)
        × (t.before ≡ s.before)
        × (t.after ≡ s.after)
  unfolding plain filled counted with_acc with_me
  kept_of_plain s bytes = (refl, refl, refl, refl)

  kept_after :
      (s : Server V)
      → let t = after_packet s in
        (t.me.authenticated ≡ s.me.authenticated)
        × (t.me.username ≡ s.me.username)
        × (t.me.client_id ≡ s.me.client_id)
        × (t.me.subscriptions ≡ s.me.subscriptions)
        × (view t.me.rx_acc ≡ [])
        × (t.registry ≡ s.registry)
        × (t.before ≡ s.before)
        × (t.after ≡ s.after)
  unfolding after_packet with_acc with_me read_on start_read_loop clear view
  kept_after s = ground arith

  -- The server lets in a client that has its access key, under the client's id and username, if the
  -- remaining length of the client's CONNECT is below 128 and the first read, which begins with it,
  -- is not longer than the cap of the buffer. Whatever stands behind the CONNECT in that read is
  -- dropped: the buffer is empty after it, and the SUBSCRIBE and the PUBLISH that the client writes
  -- next, without waiting, are lost when they arrive with it: the session has no subscription, the
  -- registry no node, and no other session a message more than before.
  pub on_bytes_read-make_connect :
      (s : Server V) (opts : ClientOptions) (r₁ r₂ now : ℕ) (rest : Text)
      → s.me.ws_handshake_done ≡ false
      → s.me.rx_acc ≡ Accumulator.new
      → length (make_connect opts r₁ r₂ ++ rest) ≤ c.max_buffer_bytes
      → opts.access_key ≡ c.access_key
      → let username = make_username opts r₁ in
        connect_length (make_client_id opts r₂) username (opts.access_key ++ username) < 128
        → (t : Server V) × (on_bytes_read J stoul c s (make_connect opts r₁ r₂ ++ rest) now
            ≡ done t)
          × (t.me.authenticated ≡ true)
          × (t.me.username ≡ make_username opts r₁)
          × (t.me.client_id ≡ make_client_id opts r₂)
          × (t.me.subscriptions ≡ s.me.subscriptions)
          × (view t.me.rx_acc ≡ [])
          × (t.registry ≡ s.registry)
          × (t.before ≡ s.before)
          × (t.after ≡ s.after)
  on_bytes_read-make_connect s opts r₁ r₂ now rest fresh none_yet fits key short =
      let bytes = make_connect opts r₁ r₂ ++ rest in
      let p = plain s bytes in
      let k = kept_of_plain s bytes in
      let x = process_packet-make_connect J stoul c p opts r₁ r₂ now rest key short in
      let t = process_packet J stoul c p bytes now in
      let z = kept_after t in
      (
        after_packet t,
        opens s bytes now fresh none_yet fits (not_get opts r₁ r₂ rest),
        z.0 ∙ x.0,
        z.1 ∙ x.1,
        z.2 ∙ x.2,
        z.3 ∙ x.3 ∙ k.0,
        z.4,
        z.5 ∙ x.4 ∙ k.1,
        z.6 ∙ x.5 ∙ k.2,
        z.7 ∙ x.6 ∙ k.3,
      )
