-- ===== src/MqttServer/Delivery.antt =====
-- What src/mqtt/mqtt_server.cpp relays from one session to the others.
use lightapr.Prelude.{
  ℕ, ◌+◌, ◌*◌, ◌%◌, ◌<◌, ◌≤◌, ◌^◌, ◌≡◌, refl, ◌∙◌, Bool, true, false, Option, List, [], ◌∷◌, ◌++◌,
  arith, map, length, if◌then◌else◌, ltb, ◌==◌, inl, inr, ◌⊎◌, Bool-cases, append-nil,
}
use Prim.Native.Nat.{bit_and}
use lightapr.Prelude.Bits.{high_four}
use lightapr.Prelude.Text.{Text, text_eq, text_eq_iff, codes}
use lightapr.Http.{starts_with}
use lightapr.Json.{Json}
use lightapr.Packet.{MqttPublish, encode_publish, decode_publish, encode_puback}
use lightapr.Packet.Reading.{ok}
use lightapr.Packet.RoundTrip.{decode_publish-encode_publish}
use lightapr.WebSocket.{consumed, decode_frame, encode_frame}
use lightapr.WebSocket.Frames.{decode_frame-encode_frame}
use lightapr.MqttServer.{
  Settings, Session, Server, with_me, framed, deliver, count_sent, receives, receive, send_raw,
  broadcast,
}
use lightapr.MqttServer.Packets.{decoded, route_publish, handle_publish, dispatch, process_packet}

-- The message that a relayed packet carries.
abbrev pub message : Text → Text → MqttPublish
message topic payload = record {
  topic = topic;
  payload = payload;
  packet_id = 0;
  qos = 0;
  retain = false;
}

-- A packet on the wire of a session, in one binary frame if the session is a WebSocket's.
abbrev pub Carries : ℕ → Session → Text → Text → Type 0
Carries max_size x wire packet =
    if x.is_websocket
    then decode_frame max_size wire
      ≡ consumed (length wire) (record { opcode = 2; fin = true; payload = packet })
    else wire ≡ packet

-- A session has one write more, of one packet, which is decoded to the message.
abbrev pub Sent : ℕ → Text → Text → Session → Session → Type 0
Sent max_size topic payload x y =
    (wire : Text) × (packet : Text) × (y.outbox ≡ x.outbox ++ (wire ∷ []))
    × Carries max_size x wire packet
    × (decode_publish packet ≡ ok (message topic payload))

-- A session that the message is not for, or that is closed, is as it was, and another has it sent.
abbrev pub Relayed : ℕ → Text → Text → Session → Session → Type 0
Relayed max_size topic payload x y =
    ((receives x topic ≡ false) × (y ≡ x))
    ⊎ (((x.closed ≡ true) × (y ≡ x))
        ⊎ ((receives x topic ≡ true) × (x.closed ≡ false) × Sent max_size topic payload x y))

-- One session after another.
abbrev pub AllRelayed : ℕ → Text → Text → List Session → List Session → Type 0
AllRelayed max_size topic payload [] [] = Unit {0}
AllRelayed max_size topic payload [] (y ∷ ys) = ⊥
AllRelayed max_size topic payload (x ∷ xs) [] = ⊥
AllRelayed max_size topic payload (x ∷ xs) (y ∷ ys) =
    Relayed max_size topic payload x y × AllRelayed max_size topic payload xs ys

-- The bounds on a message under which its packet can be decoded, and fits a string.
pub record Fits (max_size : ℕ) (topic payload : Text) : Type 0 where
  pub topic_fits : length topic < 65536
  pub body_fits : length topic + length payload + 4 < 2097152
  pub packet_fits : length (encode_publish topic payload 0 0) ≤ max_size
  pub frame_fits : length (encode_frame (encode_publish topic payload 0 0) 2) < 2 ^ 64

framed-Carries :
    (max_size : ℕ) (topic payload : Text) (x : Session)
    → Fits max_size topic payload
    → Carries max_size x
        (framed x (encode_publish topic payload 0 0))
        (encode_publish topic payload 0 0)
unfolding framed
framed-Carries max_size topic payload x f = go x.is_websocket
  where
    packet : Text
    packet = encode_publish topic payload 0 0

    go :
        (ws : Bool)
        → (if ws
            then decode_frame max_size (if ws then encode_frame packet 2 else packet)
              ≡ consumed
                  (length (if ws then encode_frame packet 2 else packet))
                  (record { opcode = 2; fin = true; payload = packet })
            else (if ws then encode_frame packet 2 else packet) ≡ packet)
    go true = rw (append-nil (encode_frame packet 2)) at (
        decode_frame-encode_frame max_size packet [] 2 (omega arith) f.packet_fits
          (rw (append-nil (encode_frame packet 2)) f.frame_fits))
    go false = refl

receive-Relayed :
    (max_size : ℕ) (topic payload : Text) (x : Session)
    → Fits max_size topic payload
    → Relayed max_size topic payload x (receive topic (encode_publish topic payload 0 0) x)
unfolding receive deliver
receive-Relayed max_size topic payload x f =
    let packet = encode_publish topic payload 0 0 in
    elim (Bool-cases (receives x topic)) [
      | inr h ↦ inl (h, ground (arith, h))
      | inl h ↦ elim (Bool-cases x.closed) [
        | inl shut ↦ inr (inl (shut, ground (arith, h, shut)))
        | inr open_ ↦ inr (
            inr (
              h,
              open_,
              (
                framed x packet,
                packet,
                ground (arith, h, open_),
                framed-Carries max_size topic payload x f,
                rw (append-nil packet) at (
                    decode_publish-encode_publish topic payload [] 0 0 (omega arith) (omega arith)
                      f.topic_fits f.body_fits),
              ),
            ))
      ]
    ]

map-AllRelayed :
    (max_size : ℕ) (topic payload : Text) (xs : List Session)
    → Fits max_size topic payload
    → AllRelayed max_size topic payload xs
        (map (receive topic (encode_publish topic payload 0 0)) xs)
map-AllRelayed max_size topic payload [] f = tt
map-AllRelayed max_size topic payload (x ∷ xs) f =
    (receive-Relayed max_size topic payload x f, map-AllRelayed max_size topic payload xs f)

-- The type of a PUBLISH.
publish_type : (qos : ℕ) → qos < 4 → bit_and (48 + qos % 4 * 2) 0xf0 ≡ 0x30
publish_type qos h = high_four (48 + qos % 4 * 2) (omega arith) ∙ omega arith

-- A topic outside the reserved ones is none of the two that the registry takes.
not_reserved :
    (topic name : Text)
    → starts_with (codes "apr/") topic ≡ false
    → starts_with (codes "apr/") name ≡ true
    → text_eq topic name ≡ false
not_reserved topic name h k = ground (arith, text_eq_iff topic name)

-- The PUBACK that a PUBLISH of QoS 1 is answered with first.
abbrev pub acknowledged : {V : Type 0} → Server V → ℕ → ℕ → Server V
acknowledged s qos id =
    if qos == 1 then send_raw s (encode_puback (if ltb 0 qos then id else 0)) else s

module _ {V : Type 0} (J : Json V) (stoul : Text → Option ℕ) (c : Settings) where
  route-broadcast :
      (s : Server V) (topic payload : Text) (now : ℕ)
      → starts_with (codes "apr/") topic ≡ false
      → route_publish J stoul c s topic payload now ≡ broadcast s topic payload
  unfolding route_publish starts_with
  route-broadcast s topic payload now h =
      rw
        (
          not_reserved topic (codes "apr/node/meta") h refl,
          not_reserved topic (codes "apr/node/extra") h refl,
          h,
        )
        refl

  -- A PUBLISH on an authenticated session comes to its route, after the acknowledgement.
  pub process_packet-publish :
      (s : Server V) (topic payload rest : Text) (qos id now : ℕ)
      → s.me.authenticated ≡ true
      → qos < 4
      → id < 65536
      → length topic < 65536
      → length topic + length payload + 4 < 2097152
      → process_packet J stoul c s (encode_publish topic payload qos id ++ rest) now
        ≡ route_publish J stoul c (acknowledged s qos id) topic payload now
  process_packet-publish s topic payload rest qos id now h q i t fits =
      let bytes = encode_publish topic payload qos id ++ rest in
      let e : process_packet J stoul c s bytes now ≡ handle_publish J stoul c s bytes now =
        unfold process_packet dispatch encode_publish in rw (publish_type qos q) refl in
      let d = decode_publish-encode_publish topic payload rest qos id q i t fits in
      e ∙ (unfold handle_publish decoded in simp h (rw (handle_publish, d) refl))

  -- The message of a PUBLISH on an authenticated session whose topic does not begin with "apr/"
  -- comes to every session that is subscribed to it and open, the publisher's own among them after
  -- its acknowledgement, in one write that is decoded to the same topic and payload; every other
  -- session is as it was; and the registry stays as it was. The QoS
  -- and the packet id fit their fields, and the message its packet and frame; what stands behind
  -- the packet in the buffer makes no difference.
  pub process_packet-relays :
      (s : Server V) (topic payload rest : Text) (qos id now : ℕ)
      → s.me.authenticated ≡ true
      → starts_with (codes "apr/") topic ≡ false
      → qos < 4
      → id < 65536
      → Fits c.max_string topic payload
      → let t = process_packet J stoul c s (encode_publish topic payload qos id ++ rest) now in
        AllRelayed c.max_string topic payload s.before t.before
        × Relayed c.max_string topic payload (acknowledged s qos id).me t.me
        × AllRelayed c.max_string topic payload s.after t.after
        × (t.registry ≡ s.registry)
  unfolding broadcast send_raw with_me count_sent
  process_packet-relays s topic payload rest qos id now h k q i f =
      let acked = acknowledged s qos id in
      let same : (acked.before ≡ s.before)
          × (acked.after ≡ s.after)
          × (acked.registry ≡ s.registry) =
        ground arith in
      rw
        (
          process_packet-publish s topic payload rest qos id now h q i f.topic_fits f.body_fits,
          route-broadcast acked topic payload now k,
        )
        (rw (same.0, same.1, same.2)
          (
            map-AllRelayed c.max_string topic payload s.before f,
            receive-Relayed c.max_string topic payload acked.me f,
            map-AllRelayed c.max_string topic payload s.after f,
            refl,
          ))
