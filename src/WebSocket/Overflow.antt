-- ===== src/WebSocket/Overflow.antt =====
-- What decode_frame of src/mqtt/websocket_codec.cpp does with the length that a frame announces.
use Prim.Native.Nat.{bit_and}
use lightapr.Prelude.{
  ℕ, ◌+◌, ◌-◌, ◌^◌, ◌≤◌, ◌<◌, ◌≡◌, Bool, true, false, not, ◌∷◌, ◌++◌, length, take, drop, get_or,
  arith, ◌==◌,
}
use lightapr.Prelude.Text.{Text}
use lightapr.WebSocket.{
  Decoded, incomplete, consumed, length_error, overrun, big_endian, decode_payload, decode_mask,
  decode_length, decode_frame, length_bytes,
}
use lightapr.WebSocket.Frames.{big_endian-length_bytes_eight}

-- A decoder that stays within its buffer.
abbrev pub InBuffer : Text → Decoded → Type 0
InBuffer src incomplete = Unit {0}
InBuffer src (consumed n frame) = (2 ≤ n) × (n ≤ length src)
InBuffer src length_error = Unit {0}
InBuffer src overrun = ⊥

module _ (max_size : ℕ) (small : max_size < 2 ^ 64 - 14) where
  decode-payload_in :
      (src : Text) (b0 : ℕ) (masked : Bool) (payload_len header_len : ℕ)
      → 2 ≤ header_len
      → header_len ≤ 14
      → InBuffer src (decode_payload max_size src b0 masked payload_len header_len)
  unfolding decode_payload
  decode-payload_in src b0 masked payload_len header_len lo hi = ground arith

  decode-mask_in :
      (src : Text) (b0 : ℕ) (masked : Bool) (payload_len header_len : ℕ)
      → 2 ≤ header_len
      → header_len ≤ 10
      → InBuffer src (decode_mask max_size src b0 masked payload_len header_len)
  unfolding decode_mask
  decode-mask_in src b0 false payload_len header_len lo hi =
      decode-payload_in src b0 false payload_len header_len lo (omega arith)
  decode-mask_in src b0 true payload_len header_len lo hi =
      ground (arith, decode-payload_in src b0 true payload_len (header_len + 4))

  -- Whatever the bytes are, decode_frame reads none outside the buffer, and a frame that it returns
  -- takes two bytes at least, and no more than there are. A string's max_size() below 2 ^ 64 - 14
  -- is what keeps a wrapped length from being copied.
  pub decode_frame-InBuffer : (src : Text) → InBuffer src (decode_frame max_size src)
  unfolding decode_frame decode_length
  decode_frame-InBuffer src = ground (
    arith,
    decode-mask_in src (get_or src 0 0) (not (bit_and (get_or src 1 0) 0x80 == 0))
        (big_endian 0 (take 2 (drop 2 src))) 4,
    decode-mask_in src (get_or src 0 0) (not (bit_and (get_or src 1 0) 0x80 == 0))
        (big_endian 0 (take 8 (drop 2 src))) 10,
    decode-mask_in src (get_or src 0 0) (not (bit_and (get_or src 1 0) 0x80 == 0))
        (bit_and (get_or src 1 0) 0x7f) 2,
  )

  -- The flaw: ten bytes of a frame with no mask that announce a length of 2 ^ 64 - 10 or more make
  -- the sum with the header's length wrap, so the frame counts as complete, whatever follows; the
  -- call throws std::length_error where it should wait for more bytes.
  decode_frame-length_error :
      (b0 n : ℕ) (rest : Text)
      → 2 ^ 64 - 10 ≤ n
      → n < 2 ^ 64
      → decode_frame max_size (b0 ∷ 127 ∷ (length_bytes 8 n ++ rest)) ≡ length_error
  unfolding decode_frame decode_length decode_mask decode_payload length_bytes
  decode_frame-length_error b0 n rest lo hi = ground (arith, big_endian-length_bytes_eight n hi)
