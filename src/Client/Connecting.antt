-- ===== src/Client/Connecting.antt =====
-- The CONNECT of sdk/cpp/src/apr_client.cpp at the server of src/mqtt/mqtt_server.cpp.
use lightapr.Prelude.{
  ℕ, ◌+◌, ◌/◌, ◌%◌, ◌<◌, ◌≡◌, refl, ap, ◌∙◌, true, false, Option, [], ◌∷◌, ◌++◌, arith, length,
  length-append, append_assoc, drop,
}
use lightapr.Prelude.Text.{Text, codes, text_eq, text_eq_iff}
use lightapr.Json.{Json}
use lightapr.Packet.{
  MqttConnect, decode_connect, decode_header, encode_remaining_length, encode_length_loop,
  write_string, skip_will, optional_string,
}
use lightapr.Packet.Reading.{ok}
use lightapr.Packet.Reads.{
  At, At-advance, read_u8-At, read_u16-At, read_string-write_string, length-write_string,
}
use lightapr.Packet.RoundTrip.{decode_header-packet}
use lightapr.MqttServer.{Settings, Server, with_me, send_raw, count_sent, deliver}
use lightapr.MqttServer.Packets.{
  decoded, refused, authenticate, handle_connect, dispatch, process_packet,
}
use lightapr.Client.{ClientOptions}
use lightapr.Client.Packets.{
  write_str, connect_prefix, connect_packet, connect_length, make_username, make_client_id,
  make_connect,
}

-- Below 128 the remaining length is one byte.
pub one_byte : (n : ℕ) → n < 128 → encode_remaining_length n ≡ n ∷ []
unfolding encode_remaining_length encode_length_loop
one_byte n h = ground arith

-- The client writes a string as the server's codec does.
write_str-write_string : (s : Text) → write_str s ≡ write_string s
unfolding write_str write_string
write_str-write_string s =
    let hi : length s / 256 % 256 ≡ length s % 65536 / 256 % 256 = omega arith in
    let lo : length s % 256 ≡ length s % 65536 % 256 = omega arith in rw (hi, lo) refl

module _ (client_id username password rest : Text)
    (fits : connect_length client_id username password < 128) where
  strings : Text
  strings = write_string client_id ++ (write_string username ++ write_string password)

  body : Text
  body = connect_prefix ++ strings

  src : Text
  src = connect_packet client_id username password ++ rest

  lengths : 16 + (length client_id + (length username + length password)) < 128
  unfolding connect_length
  lengths = omega (arith, fits)

  length-body : length body ≡ connect_length client_id username password
  unfolding body strings connect_prefix connect_length
  length-body = omega (
    arith,
    length-append (write_string client_id) (write_string username ++ write_string password),
    length-append (write_string username) (write_string password),
    length-write_string client_id,
    length-write_string username,
    length-write_string password,
  )

  src-body : src ≡ 0x10 ∷ (encode_remaining_length (length body) ++ (body ++ rest))
  unfolding src body strings connect_packet
  src-body =
      let e : connect_length client_id username password % 256 ≡ length body =
        omega (arith, length-body, fits) in
      rw
        (
          e,
          one_byte (length body) (omega (arith, length-body, fits)),
          write_str-write_string client_id,
          write_str-write_string username,
          write_str-write_string password,
        )
        refl

  -- What stands behind the ten bytes of the prefix.
  tail : Text
  tail = write_string client_id ++ (write_string username ++ (write_string password ++ rest))

  body-tail : body ++ rest ≡ connect_prefix ++ tail
  unfolding body strings tail
  body-tail =
      append_assoc connect_prefix
        (write_string client_id ++ (write_string username ++ write_string password)) rest
      ∙ ap (λ (t : Text). connect_prefix ++ t)
          (append_assoc (write_string client_id) (write_string username ++ write_string password)
              rest
            ∙ ap (λ (t : Text). write_string client_id ++ t)
                (append_assoc (write_string username) (write_string password) rest))

  one : encode_remaining_length (length body) ≡ length body ∷ []
  one = one_byte (length body) (omega (arith, length-body, fits))

  header_eq : decode_header src ≡ ok (length body, 2)
  header_eq =
      ap decode_header src-body
      ∙ decode_header-packet 0x10 body rest (omega (arith, length-body, fits))
      ∙ ap (λ (t : Text). ok (length body, 1 + length t)) one

  src-At : At src 2 (connect_prefix ++ tail)
  src-At = ap (drop 2) (src-body ∙ ap (λ (t : Text). 0x10 ∷ (t ++ (body ++ rest))) one) ∙ body-tail

  -- The bytes from the protocol's name on, one read after the other.
  name-At : At src 2 (write_string (codes "MQTT") ++ (0x04 ∷ 0xc2 ∷ 0x00 ∷ 0x3c ∷ tail))
  unfolding connect_prefix write_string
  name-At = src-At

  level-At : At src 8 (0x04 ∷ 0xc2 ∷ 0x00 ∷ 0x3c ∷ tail)
  unfolding write_string src
  level-At = At-advance src (write_string (codes "MQTT")) _ 2 name-At

  flags-At : At src 9 (0xc2 ∷ 0x00 ∷ 0x3c ∷ tail)
  flags-At = At-advance src (0x04 ∷ []) _ 8 level-At

  keep_alive-At : At src 10 (0x00 ∷ 0x3c ∷ tail)
  keep_alive-At = At-advance src (0xc2 ∷ []) _ 9 flags-At

  id-At : At src 12 tail
  id-At = At-advance src (0x00 ∷ 0x3c ∷ []) _ 10 keep_alive-At

  user-At :
      At src (12 + 2 + length client_id) (write_string username ++ (write_string password ++ rest))
  unfolding tail
  user-At =
      let e : 12 + length (write_string client_id) ≡ 12 + 2 + length client_id =
        omega (arith, length-write_string client_id) in
      rw e at (At-advance src (write_string client_id) _ 12 id-At)

  abbrev pass_start : ℕ
  pass_start = 12 + 2 + length client_id + 2 + length username

  pass-At : At src pass_start (write_string password ++ rest)
  pass-At =
      let e : 12 + 2 + length client_id + length (write_string username) ≡ pass_start =
        omega (arith, length-write_string username) in
      rw e at (At-advance src (write_string username) _ (12 + 2 + length client_id) user-At)

  -- The server's decoder reads from the client's CONNECT the three strings, if its remaining length
  -- is below 128, whatever stands behind it.
  pub decode_connect-connect_packet :
      decode_connect (connect_packet client_id username password ++ rest)
      ≡ ok (record {
        client_id = client_id;
        username = username;
        password = password;
        keep_alive = 60;
      })
  unfolding decode_connect src skip_will optional_string text_eq tail
  decode_connect-connect_packet =
      rw
        (
          header_eq,
          read_string-write_string src (codes "MQTT") _ 2 (omega arith) name-At,
          read_u8-At src _ 8 0x04 level-At,
          read_u8-At src _ 9 0xc2 flags-At,
          read_u16-At src tail 10 60 (omega arith) keep_alive-At,
          read_string-write_string src client_id _ 12 (omega (arith, lengths)) id-At,
          read_string-write_string src username _ (12 + 2 + length client_id)
              (omega (arith, lengths)) user-At,
          read_string-write_string src password rest pass_start (omega (arith, lengths)) pass-At,
        )
        refl

refused-right :
    (key : Text) (conn : MqttConnect)
    → conn.password ≡ key ++ conn.username
    → refused key conn ≡ false
unfolding refused
refused-right key conn h = ground (arith, text_eq_iff conn.password (key ++ conn.username), h)

-- What a CONNECT that is let in changes.
authenticate_fields :
    {V : Type 0} (c : Settings) (s : Server V) (conn : MqttConnect)
    → refused c.access_key conn ≡ false
    → let t = authenticate c s conn in
      (t.me.authenticated ≡ true)
      × (t.me.username ≡ conn.username)
      × (t.me.client_id ≡ conn.client_id)
      × (t.me.subscriptions ≡ s.me.subscriptions)
      × (t.registry ≡ s.registry)
      × (t.before ≡ s.before)
      × (t.after ≡ s.after)
unfolding authenticate with_me send_raw count_sent deliver
authenticate_fields c s conn h = ground (arith, h)

module _ {V : Type 0} (J : Json V) (stoul : Text → Option ℕ) (c : Settings) where
  -- The server lets in a client that has its access key, under the client's id and username, if the
  -- remaining length of the client's CONNECT is below 128, whatever stands behind the CONNECT; the
  -- session has no subscription and the registry no node more than before.
  pub process_packet-make_connect :
      (s : Server V) (opts : ClientOptions) (r₁ r₂ now : ℕ) (rest : Text)
      → opts.access_key ≡ c.access_key
      → let username = make_username opts r₁ in
        connect_length (make_client_id opts r₂) username (opts.access_key ++ username) < 128
        → let t = process_packet J stoul c s (make_connect opts r₁ r₂ ++ rest) now in
          (t.me.authenticated ≡ true)
          × (t.me.username ≡ make_username opts r₁)
          × (t.me.client_id ≡ make_client_id opts r₂)
          × (t.me.subscriptions ≡ s.me.subscriptions)
          × (t.registry ≡ s.registry)
          × (t.before ≡ s.before)
          × (t.after ≡ s.after)
  process_packet-make_connect s opts r₁ r₂ now rest key fits =
      let username = make_username opts r₁ in
      let client_id = make_client_id opts r₂ in
      let conn : MqttConnect = record {
        client_id = client_id;
        username = username;
        password = opts.access_key ++ username;
        keep_alive = 60;
      } in
      let bytes = make_connect opts r₁ r₂ ++ rest in
      let d : decode_connect bytes ≡ ok conn =
        unfold make_connect in
        decode_connect-connect_packet client_id username (opts.access_key ++ username) rest fits in
      let e : process_packet J stoul c s bytes now ≡ authenticate c s conn =
        unfold make_connect connect_packet process_packet dispatch handle_connect decoded in
        rw (handle_connect, d) refl in
      rw e (
        authenticate_fields c s conn
          (refused-right c.access_key conn (ap (λ (k : Text). k ++ username) key)))
