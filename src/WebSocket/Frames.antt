-- ===== src/WebSocket/Frames.antt =====
-- encode_frame against decode_frame of src/mqtt/websocket_codec.cpp.
use Prim.Native.Nat.{bit_and, bit_or}
use lightapr.Prelude.{
  ℕ, suc, ◌+◌, ◌-◌, ◌%◌, ◌^◌, ◌≤◌, ◌<◌, ◌≡◌, refl, ap, Bool, true, false, not, [], ◌∷◌, ◌++◌, ltb,
  leb, ◌==◌, if◌then◌else◌, length, take, drop, arith, length-append, take-append, drop-append,
  append_assoc,
}
use native.Mathlib.Decide.{dec_lt}
use lightapr.Prelude.Text.{Text}
use lightapr.Prelude.Bits.{low_seven, top_bit, same_below, same_below→eq}
use lightapr.WebSocket.{
  consumed, big_endian, unmask, decode_payload, decode_mask, decode_length, decode_frame,
  length_bytes, frame_length, encode_frame,
}

-- The two length fields read back what was written.
big_endian-length_bytes_two : (n : ℕ) → n < 65536 → big_endian 0 (length_bytes 2 n) ≡ n
unfolding big_endian length_bytes
big_endian-length_bytes_two n h = omega arith

pub big_endian-length_bytes_eight : (n : ℕ) → n < 2 ^ 64 → big_endian 0 (length_bytes 8 n) ≡ n
unfolding big_endian length_bytes
big_endian-length_bytes_eight n h = omega arith

-- The mask bit on the first byte of a length.
unfoldable pub flagged : Bool → Text → Text
flagged f [] = []
flagged f (b ∷ bs) = (if f then b + 128 else b) ∷ bs

flagged-false : (xs : Text) → flagged false xs ≡ xs
unfolding flagged
flagged-false [] = refl
flagged-false (x ∷ xs) = refl

pub length-flagged : (f : Bool) (xs : Text) → length (flagged f xs) ≡ length xs
unfolding flagged
length-flagged f [] = refl
length-flagged f (x ∷ xs) = refl

flag_bits :
    (f : Bool) (n : ℕ)
    → n < 128
    → (bit_and (if f then n + 128 else n) 0x7f ≡ n)
      × (not (bit_and (if f then n + 128 else n) 0x80 == 0) ≡ f)
flag_bits true n h =
    ground (arith, low_seven (n + 128) (omega arith), top_bit (n + 128) (omega arith))
flag_bits false n h = ground (arith, low_seven n (omega arith), top_bit n (omega arith))

module _ (max_size : ℕ) where
  -- The length field of a frame is read, and the mask or the payload comes next.
  pub decode-frame_length :
      (b0 n : ℕ) (f : Bool) (tail : Text)
      → n < 2 ^ 64
      → let src = b0 ∷ (flagged f (frame_length n) ++ tail) in
        decode_frame max_size src ≡ decode_mask max_size src b0 f n (1 + length (frame_length n))
  unfolding decode_frame decode_length flagged frame_length length_bytes
  decode-frame_length b0 n f tail h = elim (dec_lt n 126) [
    | yes p ↦
        let e : leb n 125 ≡ true = ground arith in
        rw (e, (flag_bits f n (omega arith)).0, (flag_bits f n (omega arith)).1) (ground arith)
    | no p ↦
        let e : leb n 125 ≡ false = ground arith in
        elim (dec_lt n 65536) [
          | yes q ↦
              let e' : leb n 65535 ≡ true = ground arith in
              rw (e, e', (flag_bits f 126 (omega arith)).0, (flag_bits f 126 (omega arith)).1)
                (ground (arith, big_endian-length_bytes_two n q))
          | no q ↦
              let e' : leb n 65535 ≡ false = ground arith in
              rw (e, e', (flag_bits f 127 (omega arith)).0, (flag_bits f 127 (omega arith)).1)
                (ground (arith, big_endian-length_bytes_eight n h))
        ]
  ]

  -- The payload of a frame whose bytes are all there.
  pub decode-payload_all :
      (src : Text) (b0 : ℕ) (masked : Bool) (header_len : ℕ) (body rest : Text)
      → drop header_len src ≡ body ++ rest
      → header_len + length body ≤ length src
      → length src < 2 ^ 64
      → length body ≤ max_size
      → decode_payload max_size src b0 masked (length body) header_len
        ≡ consumed (header_len + length body) (record {
          opcode = bit_and b0 0x0f;
          fin = not (bit_and b0 0x80 == 0);
          payload = if masked then unmask (take 4 (drop (header_len - 4) src)) 0 body else body;
        })
  unfolding decode_payload
  decode-payload_all src b0 masked header_len body rest h le fits small =
      let e : (header_len + length body) % 2 ^ 64 ≡ header_len + length body = omega arith in
      let e₁ : ltb (length src) (header_len + length body) ≡ false = ground arith in
      let e₂ : ltb max_size (length body) ≡ false = ground arith in
      rw (e, e₁, e₂, h, take-append body rest) refl

pub first_byte :
    (opcode : ℕ)
    → opcode < 256
    → (bit_and (bit_or 0x80 (bit_and opcode 0x0f)) 0x0f ≡ opcode % 16)
      × (not (bit_and (bit_or 0x80 (bit_and opcode 0x0f)) 0x80 == 0) ≡ true)
unfolding same_below
first_byte opcode h =
    let top : bit_and (bit_or 0x80 (bit_and opcode 0x0f)) 0x80 ≡ 128 =
      same_below→eq (λ x. bit_and (bit_or 0x80 (bit_and x 0x0f)) 0x80) (λ x. 128) 256 refl opcode
        h in
    (
      same_below→eq (λ x. bit_and (bit_or 0x80 (bit_and x 0x0f)) 0x0f) (λ x. x % 16) 256 refl opcode
          h,
      rw top,
    )

pub drop-frame_length :
    (b0 : ℕ) (front tail : Text) → drop (1 + length front) (b0 ∷ (front ++ tail)) ≡ tail
drop-frame_length b0 front tail =
    let e : 1 + length front ≡ suc (length front) = omega arith in rw e (drop-append front tail)

-- A frame that `encode_frame` wrote, with any bytes behind it, is decoded to its payload and the
-- low four bits of its opcode, as a final frame, and exactly its bytes are consumed. The whole
-- input is below 2 ^ 64 bytes, and the payload not longer than a string can be.
pub decode_frame-encode_frame :
    (max_size : ℕ) (payload rest : Text) (opcode : ℕ)
    → opcode < 256
    → length payload ≤ max_size
    → length (encode_frame payload opcode ++ rest) < 2 ^ 64
    → decode_frame max_size (encode_frame payload opcode ++ rest)
      ≡ consumed
          (length (encode_frame payload opcode))
          (record { opcode = opcode % 16; fin = true; payload = payload })
unfolding encode_frame decode_mask
decode_frame-encode_frame max_size payload rest opcode h small fits =
    rw
      (
        append_assoc (frame_length n) payload rest,
        header,
        decode-payload_all max_size src b0 false (1 + length (frame_length n)) payload rest
            (drop-frame_length b0 (frame_length n) (payload ++ rest)) (omega (arith, sizes))
            (omega (arith, sizes, fits')) small,
        (first_byte opcode h).0,
        (first_byte opcode h).1,
      )
      (ap (λ (k : ℕ). consumed k (record { opcode = opcode % 16; fin = true; payload = payload }))
        (omega (arith, length-append (frame_length n) payload)))
  where
    n : ℕ
    n = length payload

    b0 : ℕ
    b0 = bit_or 0x80 (bit_and opcode 0x0f)

    src : Text
    src = b0 ∷ (frame_length n ++ (payload ++ rest))

    sizes : length src ≡ 1 + length (frame_length n) + length payload + length rest
    sizes =
        omega (arith, length-append (frame_length n) (payload ++ rest), length-append payload rest)

    fits' : length src < 2 ^ 64
    fits' = rw (append_assoc (frame_length n) payload rest) at fits

    header :
        decode_frame max_size src
        ≡ decode_mask max_size src b0 false n (1 + length (frame_length n))
    header =
        rw (flagged-false (frame_length n)) at
          (decode-frame_length max_size b0 n false (payload ++ rest) (omega (arith, sizes, fits')))
