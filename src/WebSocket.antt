-- ===== src/WebSocket.antt =====
-- src/mqtt/websocket_codec.hpp and websocket_codec.cpp: WebSocket frames. The handshake, SHA-1 and
-- base64 are in the children. A buffer is the list of its bytes; payload_len is a uint64_t, and
-- size_t is 64 bits, so the sum with header_len wraps, which is written out.
mod Tests
pub mod Digest
pub mod Base64
pub mod Handshake
pub mod Frames
pub mod Overflow
pub mod Masking
pub mod Fragments
use Prim.Native.Nat.{bit_and, bit_or, bit_xor}
use lightapr.Prelude.{
  ℕ, zero, suc, ◌+◌, ◌-◌, ◌*◌, ◌/◌, ◌%◌, ◌^◌, Bool, true, false, not, List, [], ◌∷◌, ◌++◌, ltb, leb,
  ◌==◌, if◌then◌else◌, length, take, drop, get_or,
}
use lightapr.Prelude.Text.{Text}

pub record WsFrame : Type 0 where
  pub opcode : ℕ
  pub fin : Bool
  pub payload : Text

-- What decode_frame does: it returns 0, or the number of bytes consumed with the frame;
-- `payload.resize(payload_len)` throws std::length_error above std::string::max_size(); and
-- `overrun` is a read outside the buffer.
pub data Decoded : Type 0 where
  incomplete : Decoded
  consumed : ℕ → WsFrame → Decoded
  length_error : Decoded
  overrun : Decoded

-- `v = (v << 8) | data[i]` over the bytes of a length field, high byte first, in a uint64_t.
unfoldable pub big_endian : ℕ → Text → ℕ
big_endian acc [] = acc
big_endian acc (b ∷ bs) = big_endian ((acc * 256 + b) % 2 ^ 64) bs

-- `payload_src[i] ^ mask[i % 4]`, from index `i` on.
unfoldable pub unmask : Text → ℕ → Text → Text
unmask mask i [] = []
unmask mask i (b ∷ bs) = bit_xor b (get_or mask (i % 4) 0) ∷ unmask mask (i + 1) bs

-- A read of the bytes before `end`, of which there may be fewer.
abbrev pub within : Text → ℕ → Decoded → Decoded
within src end d = if ltb (length src) end then overrun else d

module _ (max_size : ℕ) where
  -- The last part of decode_frame: the header is read, and ends at `header_len`.
  unfoldable pub decode_payload : Text → ℕ → Bool → ℕ → ℕ → Decoded
  decode_payload src b0 masked payload_len header_len =
      let mask = take 4 (drop (header_len - 4) src) in
      let body = take payload_len (drop header_len src) in
      if ltb (length src) ((header_len + payload_len) % 2 ^ 64)
      then incomplete
      else if ltb max_size payload_len
      then length_error
      else within src (header_len + payload_len) (
          consumed (header_len + payload_len) (record {
            opcode = bit_and b0 0x0f;
            fin = not (bit_and b0 0x80 == 0);
            payload = if masked then unmask mask 0 body else body;
          }))

  -- The mask takes four more bytes.
  unfoldable pub decode_mask : Text → ℕ → Bool → ℕ → ℕ → Decoded
  decode_mask src b0 false payload_len header_len =
      decode_payload src b0 false payload_len header_len
  decode_mask src b0 true payload_len header_len =
      if ltb (length src) (header_len + 4)
      then incomplete
      else within src (header_len + 4) (decode_payload src b0 true payload_len (header_len + 4))

  -- The length is 7 bits, or 126 and 16 bits, or 127 and 64 bits.
  unfoldable pub decode_length : Text → ℕ → Bool → ℕ → Decoded
  decode_length src b0 masked len7 =
      if len7 == 126
      then if ltb (length src) 4
        then incomplete
        else within src 4 (decode_mask src b0 masked (big_endian 0 (take 2 (drop 2 src))) 4)
      else if len7 == 127
      then if ltb (length src) 10
        then incomplete
        else within src 10 (decode_mask src b0 masked (big_endian 0 (take 8 (drop 2 src))) 10)
      else decode_mask src b0 masked len7 2

  unfoldable pub decode_frame : Text → Decoded
  decode_frame src =
      if ltb (length src) 2
      then incomplete
      else within src 2 (
          decode_length src (get_or src 0 0) (not (bit_and (get_or src 1 0) 0x80 == 0))
            (bit_and (get_or src 1 0) 0x7f))

-- `(len >> (i * 8)) & 0xFF` for i from `n - 1` down to 0.
unfoldable pub length_bytes : ℕ → ℕ → Text
length_bytes zero len = []
length_bytes (suc i) len = (len / 2 ^ (i * 8) % 256) ∷ length_bytes i len

unfoldable pub frame_length : ℕ → Text
frame_length len =
    if leb len 125
    then len ∷ []
    else if leb len 65535
    then 126 ∷ length_bytes 2 len
    else 127 ∷ length_bytes 8 len

unfoldable pub encode_frame : Text → ℕ → Text
encode_frame payload opcode =
    bit_or 0x80 (bit_and opcode 0x0f) ∷ (frame_length (length payload) ++ payload)
