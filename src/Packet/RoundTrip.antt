-- ===== src/Packet/RoundTrip.antt =====
-- What the server writes with `encode_publish` is what `decode_publish` reads.
use lightapr.Prelude.{
  ℕ, suc, ◌+◌, ◌-◌, ◌*◌, ◌/◌, ◌%◌, ◌≤◌, ◌<◌, ◌≡◌, refl, ap, ◌∙◌, [], ◌∷◌, ◌++◌, length,
  length-append, drop-append, arith, Bool, true, false, ltb, if◌then◌else◌, append_assoc,
}
use lightapr.Prelude.Text.{Text}
use lightapr.Packet.{
  encode_publish, decode_publish, decode_header, publish_body, optional_u16, u16_bytes,
  write_string, encode_remaining_length, peek, slice,
}
use lightapr.Packet.Reading.{ok}
use lightapr.Packet.Length.{decode-encode, length-encode_pos}
use lightapr.Packet.Reads.{
  At, At-advance, slice-At, read_u16-At, read_string-write_string, length-write_string,
}

-- A packet of one header byte, its remaining length and a body: the decoders find the body.
pub decode_header-packet :
    (b : ℕ) (body rest : Text)
    → length body < 2097152
    → decode_header (b ∷ (encode_remaining_length (length body) ++ (body ++ rest)))
      ≡ ok (length body, 1 + length (encode_remaining_length (length body)))
unfolding decode_header
decode_header-packet b body rest h =
    let e = decode-encode (length body) (body ++ rest) h in
    ground (
      arith,
      e,
      length-encode_pos (length body),
      length-append (encode_remaining_length (length body)) (body ++ rest),
      length-append body rest,
    )

pub body-At :
    (b : ℕ) (body rest : Text)
    → At
        (b ∷ (encode_remaining_length (length body) ++ (body ++ rest)))
        (1 + length (encode_remaining_length (length body)))
        (body ++ rest)
body-At b body rest =
    let len = encode_remaining_length (length body) in
    let e : 1 + length len ≡ suc (length len) = omega arith in rw e (drop-append len (body ++ rest))

length-optional :
    (b : Bool) (id : ℕ) → length (if b then u16_bytes id else []) ≡ (if b then 2 else 0)
length-optional true id = refl
length-optional false id = refl

length-publish_body :
    (topic payload : Text) (qos id : ℕ)
    → length (publish_body topic payload qos id)
      ≡ 2 + length topic + ((if ltb 0 qos then 2 else 0) + length payload)
unfolding publish_body
length-publish_body topic payload qos id =
    let id_bytes : Text = if ltb 0 qos then u16_bytes id else [] in
    rw (
      length-append (write_string topic) (id_bytes ++ payload),
      length-write_string topic,
      length-append id_bytes payload,
      length-optional (ltb 0 qos) id,
    )

optional_u16-At :
    (src rest : Text) (offset : ℕ) (b : Bool) (id : ℕ)
    → id < 65536
    → At src offset ((if b then u16_bytes id else []) ++ rest)
    → optional_u16 b src offset ≡ ok (if b then id else 0, offset + (if b then 2 else 0))
unfolding optional_u16
optional_u16-At src rest offset false id lt h =
    let e : offset + 0 ≡ offset = omega arith in rw e refl
optional_u16-At src rest offset true id lt h = read_u16-At src rest offset id lt h

module _ (topic payload rest : Text) (qos id : ℕ) (q : qos < 4) (i : id < 65536)
    (t : length topic < 65536) (fits : length (publish_body topic payload qos id) < 2097152) where
  body : Text
  body = publish_body topic payload qos id

  src : Text
  src = (48 + qos % 4 * 2) ∷ (encode_remaining_length (length body) ++ (body ++ rest))

  start : ℕ
  start = 1 + length (encode_remaining_length (length body))

  id_bytes : Text
  id_bytes = if ltb 0 qos then u16_bytes id else []

  body_split : body ++ rest ≡ write_string topic ++ (id_bytes ++ (payload ++ rest))
  unfolding body id_bytes publish_body
  body_split =
      append_assoc (write_string topic) ((if ltb 0 qos then u16_bytes id else []) ++ payload) rest
      ∙ ap (λ (t : Text). write_string topic ++ t)
          (append_assoc (if ltb 0 qos then u16_bytes id else []) payload rest)

  topic-At : At src start (write_string topic ++ (id_bytes ++ (payload ++ rest)))
  unfolding src start
  topic-At = body-At (48 + qos % 4 * 2) body rest ∙ body_split

  id-At : At src (start + 2 + length topic) (id_bytes ++ (payload ++ rest))
  id-At =
      let e : start + length (write_string topic) ≡ start + 2 + length topic =
        omega (arith, length-write_string topic) in
      rw e at (At-advance src (write_string topic) (id_bytes ++ (payload ++ rest)) start topic-At)

  abbrev payload_start : ℕ
  payload_start = start + 2 + length topic + (if ltb 0 qos then 2 else 0)

  payload-At : At src payload_start (payload ++ rest)
  unfolding id_bytes
  payload-At =
      rw (length-optional (ltb 0 qos) id) at
        (At-advance src id_bytes (payload ++ rest) (start + 2 + length topic) id-At)

  length-src : start + length body ≤ length src
  unfolding src start
  length-src = omega (
    arith,
    length-append (encode_remaining_length (length body)) (body ++ rest),
    length-append body rest,
  )

  end-start : start + length body ≡ payload_start + length payload
  unfolding body
  end-start = omega (arith, length-publish_body topic payload qos id)

  header_eq : decode_header src ≡ ok (length body, start)
  unfolding src start body
  header_eq = decode_header-packet (48 + qos % 4 * 2) body rest fits

  first_eq : peek src 0 ≡ ok (48 + qos % 4 * 2)
  unfolding src peek
  first_eq = refl

  decode_src :
      decode_publish src
      ≡ ok (record {
        topic = topic;
        payload = payload;
        packet_id = if ltb 0 qos then id else 0;
        qos = qos;
        retain = false;
      })
  unfolding decode_publish id_bytes
  decode_src =
      rw
        (
          header_eq,
          first_eq,
          read_string-write_string src topic _ start t topic-At,
          qos_eq,
          optional_u16-At src (payload ++ rest) (start + 2 + length topic) (ltb 0 qos) id i id-At,
          guard_eq,
          end_eq,
          slice_eq,
          retain_eq,
        )
        refl
    where
      qos_eq : (48 + qos % 4 * 2) / 2 % 4 ≡ qos
      qos_eq = omega arith

      retain_eq : (48 + qos % 4 * 2) % 2 ≡ 0
      retain_eq = omega arith

      guard_eq : ltb (start + length body) payload_start ≡ false
      guard_eq = ground (arith, end-start)

      end_eq : start + length body - payload_start ≡ length payload
      end_eq = omega (arith, end-start)

      slice_eq : slice src payload_start (length payload) ≡ ok payload
      slice_eq =
          slice-At src payload rest payload_start payload-At (omega (arith, length-src, end-start))

-- A PUBLISH that `encode_publish` wrote, with any bytes behind it, is decoded to its topic, payload,
-- QoS and packet id, if the topic fits its 16-bit length, the packet id 16 bits, the QoS two bits
-- and the body the three length bytes that the decoder takes. What follows the packet is ignored.
pub decode_publish-encode_publish :
    (topic payload rest : Text) (qos id : ℕ)
    → qos < 4
    → id < 65536
    → length topic < 65536
    → length topic + length payload + 4 < 2097152
    → decode_publish (encode_publish topic payload qos id ++ rest)
      ≡ ok (record {
        topic = topic;
        payload = payload;
        packet_id = if ltb 0 qos then id else 0;
        qos = qos;
        retain = false;
      })
unfolding encode_publish
decode_publish-encode_publish topic payload rest qos id q i t fits =
    rw (append_assoc (encode_remaining_length (length packet_body)) packet_body rest)
      (unfold src body in decode_src topic payload rest qos id q i t small)
  where
    packet_body : Text
    packet_body = publish_body topic payload qos id

    small : length packet_body < 2097152
    small = ground (arith, length-publish_body topic payload qos id)
