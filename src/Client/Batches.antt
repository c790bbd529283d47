-- ===== src/Client/Batches.antt =====
-- Short packets at a client of sdk/cpp/src/apr_client.cpp, one behind the other in one buffer.
use lightapr.Prelude.{
  ℕ, zero, suc, ◌+◌, ◌-◌, ◌*◌, ◌/◌, ◌%◌, ◌<◌, ◌≡◌, refl, sym, ap, ◌∙◌, true, false, Option, List,
  [], ◌∷◌, ◌++◌, arith, length, length-append, append_assoc, ltb, leb, drop, drop-append,
}
use lightapr.Prelude.Text.{Text}
use lightapr.Json.{Json}
use lightapr.Packet.{encode_publish, publish_body, encode_remaining_length, write_string, peek}
use lightapr.Packet.Reading.{ok}
use lightapr.Packet.Reads.{At-advance, slice-At}
use lightapr.Client.{Client}
use lightapr.Client.Connecting.{one_byte}
use lightapr.Client.Receiving.{length-body}
use lightapr.Client.Session.{handle_publish}
use lightapr.Client.Stream.{take_publish, take_packet, mqtt_loop, process_mqtt_buffer}

-- The packets of messages, each a topic and a payload.
unfoldable pub packets : List (Text × Text) → Text
packets [] = []
packets ((topic, payload) ∷ ms) = encode_publish topic payload 0 0 ++ packets ms

-- The remaining length of each packet is one byte.
abbrev pub AllShort : List (Text × Text) → Type 0
AllShort [] = Unit {0}
AllShort ((topic, payload) ∷ ms) = (length topic + length payload < 126) × AllShort ms

-- A short packet, with what follows it.
abbrev short_packet : Text → Text → Text → Text
short_packet topic payload rest =
    48 ∷ (2 + length topic + length payload) ∷ 0 ∷ length topic ∷ (topic ++ (payload ++ rest))

encode_publish-short :
    (topic payload rest : Text)
    → length topic + length payload < 126
    → encode_publish topic payload 0 0 ++ rest ≡ short_packet topic payload rest
unfolding encode_publish
encode_publish-short topic payload rest short =
    let n = 2 + length topic + length payload in
    let body = publish_body topic payload 0 0 in
    let e : encode_remaining_length (length body) ≡ n ∷ [] =
      ap encode_remaining_length (length-body topic payload) ∙ one_byte n (omega arith) in
    let f : body ++ rest ≡ 0 ∷ length topic ∷ (topic ++ (payload ++ rest)) =
      body_lem topic payload rest (omega arith) in
    rw (e, f) refl
  where
    body_lem :
        (t p r : Text) → length t < 126 → publish_body t p 0 0 ++ r ≡ 0 ∷ length t ∷ (t ++ (p ++ r))
    body_lem t p r h =
        let hi : length t % 65536 / 256 % 256 ≡ 0 = omega arith in
        let lo : length t % 65536 % 256 ≡ length t = omega arith in
        unfold publish_body write_string in rw (hi, lo, append_assoc t p r) refl

module _ {V : Type 0} {C : Type 0} (J : Json V) (stoul : Text → Option ℕ) where
  -- The messages handled one after the other.
  unfoldable pub handle_all : Client V C → List (Text × Text) → Client V C
  handle_all c [] = c
  handle_all c ((topic, payload) ∷ ms) = handle_all (handle_publish J stoul c topic payload) ms

  take_publish-short :
      (c : Client V C) (topic payload rest : Text)
      → take_publish J stoul c
          (short_packet topic payload rest)
          (2 + (2 + length topic + length payload))
        ≡ ok (handle_publish J stoul c topic payload)
  unfolding take_publish peek
  take_publish-short c topic payload rest =
      let src = short_packet topic payload rest in
      let sizes : length src ≡ 4 + (length topic + (length payload + length rest)) =
        omega (arith, length-append topic (payload ++ rest), length-append payload rest) in
      let rest_len : 2 + (2 + length topic + length payload) - (4 + length topic) ≡ length payload =
        omega arith in
      let one_byte_length : 0 * 256 + length topic ≡ length topic = omega arith in
      let enough : leb (4 + length topic) (2 + (2 + length topic + length payload)) ≡ true =
        ground arith in
      rw
        (
          one_byte_length,
          slice-At src topic (payload ++ rest) 4 refl (omega (arith, sizes)),
          enough,
          rest_len,
          slice-At src payload rest (4 + length topic)
              (At-advance src topic (payload ++ rest) 4 refl) (omega (arith, sizes)),
        )
        refl

  mqtt_loop-short :
      (c : Client V C) (topic payload rest : Text) (fuel offset : ℕ)
      → mqtt_loop J stoul (suc fuel) c (short_packet topic payload rest) offset
        ≡ mqtt_loop J stoul fuel
            (handle_publish J stoul c topic payload)
            rest
            (offset + (2 + (2 + length topic + length payload)))
  unfolding mqtt_loop take_packet
  mqtt_loop-short c topic payload rest fuel offset =
      let tail = 0 ∷ length topic ∷ (topic ++ (payload ++ rest)) in
      let whole : ltb (length tail) (2 + length topic + length payload) ≡ false =
        ground (arith, length-append topic (payload ++ rest), length-append payload rest) in
      let front = 0 ∷ length topic ∷ (topic ++ payload) in
      let size : 2 + length topic + length payload ≡ length front =
        omega (arith, length-append topic payload) in
      let split : tail ≡ front ++ rest =
        ap (λ (t : Text). 0 ∷ length topic ∷ t) (sym (append_assoc topic payload rest)) in
      let left : drop (2 + length topic + length payload) tail ≡ rest =
        rw (size, split) (drop-append front rest) in
      rw (whole, take_publish-short c topic payload rest, left) refl

  mqtt_loop-packets :
      (ms : List (Text × Text)) (c : Client V C) (fuel offset : ℕ)
      → AllShort ms
      → length (packets ms) < fuel
      → mqtt_loop J stoul fuel c (packets ms) offset
        ≡ ok (handle_all c ms, offset + length (packets ms))
  unfolding packets handle_all mqtt_loop
  mqtt_loop-packets ms c zero offset h lt = absurd (omega arith)
  mqtt_loop-packets [] c (suc fuel) offset h lt = ap (λ (k : ℕ). ok (c, k)) (omega arith)
  mqtt_loop-packets ((topic, payload) ∷ ms) c (suc fuel) offset h lt =
      let p = packets ms in
      let e = encode_publish-short topic payload p h.0 in
      let size : length (encode_publish topic payload 0 0 ++ p)
          ≡ 4 + length topic + (length payload + length p) =
        ap length e ∙ omega (arith, length-append topic (payload ++ p), length-append payload p) in
      let k = offset + (2 + (2 + length topic + length payload)) in
      let total : k + length p ≡ offset + length (encode_publish topic payload 0 0 ++ p) =
        omega (arith, size) in
      ap (λ (t : Text). mqtt_loop J stoul (suc fuel) c t offset) e
      ∙ mqtt_loop-short c topic payload p fuel offset
      ∙ mqtt_loop-packets ms (handle_publish J stoul c topic payload) fuel k h.1
          (omega (arith, size, lt))
      ∙ ap (λ (j : ℕ). ok (handle_all (handle_publish J stoul c topic payload) ms, j)) total

  -- The packets of the server's codec, each with less than 128 bytes behind its remaining length and
  -- any number of them in one buffer, are all handled in their order, and all their bytes are used.
  pub process_mqtt_buffer-packets :
      (ms : List (Text × Text)) (c : Client V C)
      → AllShort ms
      → process_mqtt_buffer J stoul c (packets ms) ≡ ok (handle_all c ms, length (packets ms))
  unfolding process_mqtt_buffer
  process_mqtt_buffer-packets ms c h =
      mqtt_loop-packets ms c (length (packets ms) + 1) 0 h (omega arith)
      ∙ ap (λ (k : ℕ). ok (handle_all c ms, k)) (omega arith)
