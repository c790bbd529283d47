-- ===== src/Client/Receiving.antt =====
-- The server's PUBLISH at a client of sdk/cpp/src/apr_client.cpp.
use lightapr.Prelude.{
  ℕ, zero, suc, ◌+◌, ◌/◌, ◌%◌, ◌<◌, ◌≤◌, ◌≡◌, ◌⊎◌, inl, inr, refl, false, Option, some, [], ◌∷◌,
  ◌++◌, arith, length, length-append, ltb, get_elem?, get_elem?_lt, Bool-cases,
}
use lightapr.Prelude.Bits.{set_top_bit}
use lightapr.Prelude.Text.{Text}
use lightapr.Json.{Json}
use lightapr.Packet.{
  encode_publish, publish_body, encode_remaining_length, encode_length_loop, write_string, peek,
  slice,
}
use lightapr.Packet.Reads.{length-write_string}
use lightapr.Packet.Reading.{failed, overrun}
use lightapr.Client.{Client}
use lightapr.Client.Stream.{take_publish, take_packet, mqtt_loop, process_mqtt_buffer}

-- From 128 on the remaining length has two bytes at least, and the second is not 0.
two_bytes :
    (n : ℕ)
    → 128 ≤ n
    → n < 2097152
    → (b : ℕ) × (more : Text) × (encode_remaining_length n ≡ (n % 128 + 128) ∷ b ∷ more) × (1 ≤ b)
unfolding encode_remaining_length encode_length_loop
two_bytes n lo hi = elim (Bool-cases (ltb 0 (n / 128 / 128))) [
  | inl e ↦ (
    n / 128 % 128 + 128,
    encode_length_loop 8 (n / 128 / 128),
    ground
        (arith, e, set_top_bit (n % 128) (omega arith), set_top_bit (n / 128 % 128) (omega arith)),
    omega arith,
  )
  | inr e ↦
      (n / 128 % 128, [], ground (arith, e, set_top_bit (n % 128) (omega arith)), ground (arith, e))
]

pub length-body :
    (topic payload : Text)
    → length (publish_body topic payload 0 0) ≡ 2 + length topic + length payload
unfolding publish_body
length-body topic payload =
    omega (arith, length-append (write_string topic) payload, length-write_string topic)

module _ {V : Type 0} {C : Type 0} (J : Json V) (stoul : Text → Option ℕ) where
  -- A topic that seems longer than the packet is not read.
  take_publish-fails :
      (c : Client V C) (rest : Text) (pkt_len b : ℕ)
      → get_elem? rest 2 ≡ some b
      → 1 ≤ b
      → 4 ≤ length rest
      → pkt_len < 260
      → (take_publish J stoul c rest pkt_len ≡ failed)
        ⊎ (take_publish J stoul c rest pkt_len ≡ overrun)
  unfolding take_publish peek slice
  take_publish-fails c rest pkt_len b e one four small =
      let (lo, f) = get_elem?_lt rest 3 (omega arith) in ground (arith, e, f)

  loop-fails :
      (c : Client V C) (fuel n b : ℕ) (tail : Text)
      → 0 < fuel
      → 1 ≤ b
      → 128 ≤ n
      → n ≤ length (b ∷ tail)
      → let out = mqtt_loop J stoul fuel c (48 ∷ (n % 128 + 128) ∷ b ∷ tail) 0 in
        (out ≡ failed) ⊎ (out ≡ overrun)
  unfolding mqtt_loop take_packet
  loop-fails c zero n b tail p one lo hi = absurd (omega arith)
  loop-fails c (suc fuel) n b tail p one lo hi =
      let bytes = 48 ∷ (n % 128 + 128) ∷ b ∷ tail in
      let whole : ltb (length (b ∷ tail)) (n % 128 + 128) ≡ false = ground arith in
      elim (take_publish-fails c bytes (2 + (n % 128 + 128)) b refl one (omega arith)
        (omega arith)) [ inl e ↦ inl (rw (whole, e) refl) | inr e ↦ inr (rw (whole, e) refl) ]

  -- The flaw: a PUBLISH that the server's codec wrote with 128 bytes or more behind its remaining
  -- length, as every topology event has, is not delivered. The client takes one byte for the
  -- remaining length and the second byte of it for a part of the topic's length, and either reads
  -- outside its buffer or throws std::length_error, which ends the process.
  pub process_mqtt_buffer-fails :
      (c : Client V C) (topic payload rest : Text)
      → 126 ≤ length topic + length payload
      → length topic + length payload + 4 < 2097152
      → let out = process_mqtt_buffer J stoul c (encode_publish topic payload 0 0 ++ rest) in
        (out ≡ failed) ⊎ (out ≡ overrun)
  unfolding encode_publish process_mqtt_buffer
  process_mqtt_buffer-fails c topic payload rest lo hi =
      let body = publish_body topic payload 0 0 in
      let n = length body in
      let size = length-body topic payload in
      let (b, more, e, one) = two_bytes n (omega (arith, size)) (omega (arith, size)) in
      rw e (
        loop-fails c _ n b (more ++ body ++ rest) (omega arith) one (omega (arith, size))
          (omega (arith, length-append (more ++ body) rest, length-append more body)))
