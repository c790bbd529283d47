-- ===== src/Packet.antt =====
-- src/mqtt/mqtt_packet.hpp and mqtt_packet.cpp: the MQTT packets that the server writes and reads.
-- A buffer is the list of its bytes, and `len` is its length. Values stay far below 2 ^ 64, so
-- size_t does not wrap; uint8_t and uint16_t casts are written out. `|` of disjoint bits is `+`.
pub mod Reading
pub mod Length
pub mod Reads
pub mod Safety
pub mod RoundTrip
mod Tests
use Prim.Native.Nat.{bit_and, bit_or}
use lightapr.Prelude.{
  ℕ, zero, suc, ◌+◌, ◌-◌, ◌*◌, ◌/◌, ◌%◌, Bool, true, false, not, ◌||◌, List, [], ◌∷◌, ◌++◌, ltb,
  leb, ◌==◌, if◌then◌else◌, length, get_elem?, take, drop,
}
use lightapr.Prelude.Text.{Text, codes, text_eq}
use Reading.{Outcome, ok, failed, out_of_fuel, overrun, ◌>>=◌, ◌>>◌, require, in_buffer}

pub data MqttType : Type 0 where
  connect connack publish puback subscribe suback pingreq pingresp disconnect : MqttType

abbrev pub type_byte : MqttType → ℕ
type_byte connect = 0x10
type_byte connack = 0x20
type_byte publish = 0x30
type_byte puback = 0x40
type_byte subscribe = 0x82
type_byte suback = 0x90
type_byte pingreq = 0xc0
type_byte pingresp = 0xd0
type_byte disconnect = 0xe0

pub record MqttConnect : Type 0 where
  pub client_id : Text
  pub username : Text
  pub password : Text
  pub keep_alive : ℕ

pub record MqttPublish : Type 0 where
  pub topic : Text
  pub payload : Text
  pub packet_id : ℕ
  pub qos : ℕ
  pub retain : Bool

pub record MqttSubscribe : Type 0 where
  pub packet_id : ℕ
  pub topics : List Text

-- The do loop: ten rounds are enough for every size_t.
unfoldable pub encode_length_loop : ℕ → ℕ → Text
encode_length_loop zero n = []
encode_length_loop (suc fuel) n =
    let rest = encode_length_loop fuel (n / 128) in
    let d = n % 128 in if ltb 0 (n / 128) then bit_or d 128 ∷ rest else d ∷ []

unfoldable pub encode_remaining_length : ℕ → Text
encode_remaining_length n = encode_length_loop 10 n

-- The list is what the loop has not read; its end is `bytes_read >= max_len`.
unfoldable pub decode_length_loop : Text → ℕ → ℕ → ℕ → Outcome (ℕ × ℕ)
decode_length_loop [] multiplier value bytes_read = failed
decode_length_loop (b ∷ bs) multiplier value bytes_read =
    let value' = value + bit_and b 127 * multiplier in
    let multiplier' = multiplier * 128 in
    let rest = decode_length_loop bs multiplier' value' (bytes_read + 1) in
    if ltb (128 * 128 * 128) multiplier'
    then failed
    else if bit_and b 128 == 0
    then ok (value', bytes_read + 1)
    else rest

-- The value, and the number of bytes read.
unfoldable pub decode_remaining_length : Text → Outcome (ℕ × ℕ)
decode_remaining_length src = decode_length_loop src 1 0 0

-- `data[offset]`
unfoldable pub peek : Text → ℕ → Outcome ℕ
peek src offset = in_buffer (get_elem? src offset)

-- The bytes from `offset` on, `n` of them.
unfoldable pub slice : Text → ℕ → ℕ → Outcome Text
slice src offset n =
    if ltb (length src) (offset + n) then overrun else ok (take n (drop offset src))

unfoldable pub read_u8 : Text → ℕ → Outcome (ℕ × ℕ)
read_u8 src offset = do
  require (leb (offset + 1) (length src))
  b ← peek src offset
  ok (b, offset + 1)

unfoldable pub read_u16 : Text → ℕ → Outcome (ℕ × ℕ)
read_u16 src offset = do
  require (leb (offset + 2) (length src))
  hi ← peek src offset
  lo ← peek src (offset + 1)
  ok (hi * 256 + lo, offset + 2)

unfoldable pub read_string : Text → ℕ → Outcome (Text × ℕ)
read_string src offset = do
  require (leb (offset + 2) (length src))
  hi ← peek src offset
  lo ← peek src (offset + 1)
  let n = hi * 256 + lo
  require (leb (offset + 2 + n) (length src))
  str ← slice src (offset + 2) n
  ok (str, offset + 2 + n)

-- The two bytes of a uint16_t, high byte first.
abbrev pub u16_bytes : ℕ → Text
u16_bytes n = (n / 256 % 256) ∷ (n % 256) ∷ []

-- The length prefix is cut to 16 bits; the bytes of the string are not.
unfoldable pub write_string : Text → Text
write_string str = u16_bytes (length str % 65536) ++ str

unfoldable pub encode_connack : ℕ → Text
encode_connack return_code = type_byte connack ∷ 0x02 ∷ 0x00 ∷ return_code ∷ []

unfoldable pub encode_puback : ℕ → Text
encode_puback packet_id = type_byte puback ∷ 0x02 ∷ u16_bytes packet_id

unfoldable pub encode_suback : ℕ → List ℕ → Text
encode_suback packet_id return_codes =
    let payload = u16_bytes packet_id ++ return_codes in
    type_byte suback ∷ (encode_remaining_length (length payload) ++ payload)

unfoldable pub encode_pingresp : Text
encode_pingresp = type_byte pingresp ∷ 0x00 ∷ []

unfoldable pub publish_body : Text → Text → ℕ → ℕ → Text
publish_body topic payload qos packet_id =
    write_string topic ++ ((if ltb 0 qos then u16_bytes packet_id else []) ++ payload)

unfoldable pub encode_publish : Text → Text → ℕ → ℕ → Text
encode_publish topic payload qos packet_id =
    let body = publish_body topic payload qos packet_id in
    (type_byte publish + qos % 4 * 2) ∷ (encode_remaining_length (length body) ++ body)

-- What the three decoders begin with: the remaining length and the offset behind it, once the
-- buffer is seen to hold that much.
unfoldable pub decode_header : Text → Outcome (ℕ × ℕ)
decode_header src = do
  require (leb 2 (length src))
  (rem_len, bytes_read) ← decode_remaining_length (drop 1 src)
  require (not (ltb (length src) (1 + bytes_read + rem_len)))
  ok (rem_len, 1 + bytes_read)

-- The Will topic and message are read and dropped.
unfoldable pub skip_will : Bool → Text → ℕ → Outcome ℕ
skip_will false src offset = ok offset
skip_will true src offset = do
  (_, offset') ← read_string src offset
  (_, offset'') ← read_string src offset'
  ok offset''

unfoldable pub optional_string : Bool → Text → ℕ → Outcome (Text × ℕ)
optional_string false src offset = ok ([], offset)
optional_string true src offset = read_string src offset

unfoldable pub decode_connect : Text → Outcome MqttConnect
decode_connect src = do
  (_, offset) ← decode_header src
  (proto_name, offset) ← read_string src offset
  require (text_eq proto_name (codes "MQTT") || text_eq proto_name (codes "MQIsdp"))
  (_, offset) ← read_u8 src offset
  (conn_flags, offset) ← read_u8 src offset
  (keep_alive, offset) ← read_u16 src offset
  (client_id, offset) ← read_string src offset
  offset ← skip_will (not (bit_and conn_flags 0x04 == 0)) src offset
  (username, offset) ← optional_string (not (bit_and conn_flags 0x80 == 0)) src offset
  (password, offset) ← optional_string (not (bit_and conn_flags 0x40 == 0)) src offset
  ok (record {
    client_id = client_id;
    username = username;
    password = password;
    keep_alive = keep_alive;
  })

-- The packet id of a PUBLISH: there is one if qos > 0.
unfoldable pub optional_u16 : Bool → Text → ℕ → Outcome (ℕ × ℕ)
optional_u16 false src offset = ok (0, offset)
optional_u16 true src offset = read_u16 src offset

unfoldable pub decode_publish : Text → Outcome MqttPublish
decode_publish src = do
  (rem_len, start) ← decode_header src
  header ← peek src 0
  let qos = header / 2 % 4
  (topic, offset) ← read_string src start
  (packet_id, offset) ← optional_u16 (ltb 0 qos) src offset
  let end_offset = start + rem_len
  require (not (ltb end_offset offset))
  payload ← slice src offset (end_offset - offset)
  ok (record {
    topic = topic;
    payload = payload;
    packet_id = packet_id;
    qos = qos;
    retain = header % 2 == 1;
  })

-- `while (offset < end_offset)`: each round takes at least three bytes of the buffer.
unfoldable pub subscribe_loop : ℕ → Text → ℕ → ℕ → List Text → Outcome (List Text)
subscribe_loop zero src offset end_offset topics = out_of_fuel
subscribe_loop (suc fuel) src offset end_offset topics =
    let round = (do
      (topic, offset) ← read_string src offset
      (_, offset) ← read_u8 src offset
      subscribe_loop fuel src offset end_offset (topics ++ (topic ∷ []))) in
    if ltb offset end_offset then round else ok topics

unfoldable pub decode_subscribe : Text → Outcome MqttSubscribe
decode_subscribe src = do
  (rem_len, start) ← decode_header src
  (packet_id, offset) ← read_u16 src start
  topics ← subscribe_loop (length src + 1) src offset (start + rem_len) []
  ok (record { packet_id = packet_id; topics = topics })
