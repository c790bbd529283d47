-- ===== src/WebSocket/Masking.antt =====
-- Masked frames, which clients send, against decode_frame of src/mqtt/websocket_codec.cpp.
use Prim.Native.Nat.{bit_and, bit_or}
use lightapr.Prelude.{
  ℕ, zero, suc, ◌+◌, ◌-◌, ◌%◌, ◌^◌, ◌≤◌, ◌<◌, ◌≡◌, refl, sym, ap, ◌∙◌, true, false, not, [], ◌∷◌,
  ◌++◌, length, take, drop, get_or, arith, All, ltb, ◌==◌, length-append, take-append, drop-append,
  append_assoc, drop-drop,
}
use lightapr.Prelude.Text.{Text, IsByte}
use lightapr.Prelude.Bits.{xor-xor}
use lightapr.WebSocket.{consumed, unmask, decode_payload, decode_mask, decode_frame, frame_length}
use lightapr.WebSocket.Frames.{
  flagged, length-flagged, decode-frame_length, decode-payload_all, first_byte, drop-frame_length,
}

get_or-IsByte : (key : Text) (i : ℕ) → All IsByte key → get_or key i 0 < 256
get_or-IsByte [] i h = omega arith
get_or-IsByte (k ∷ key) zero h = h.0
get_or-IsByte (k ∷ key) (suc i) h = get_or-IsByte key i h.1

pub length-unmask : (key : Text) (i : ℕ) (xs : Text) → length (unmask key i xs) ≡ length xs
unfolding unmask
length-unmask key i [] = refl
length-unmask key i (x ∷ xs) = ap suc (length-unmask key (i + 1) xs)

-- Masking twice by one key gives the bytes back.
pub unmask-unmask :
    (key : Text) (i : ℕ) (xs : Text)
    → All IsByte key
    → All IsByte xs
    → unmask key i (unmask key i xs) ≡ xs
unfolding unmask
unmask-unmask key i [] hk hx = refl
unmask-unmask key i (x ∷ xs) hk hx = rw (
  xor-xor x (get_or key (i % 4) 0) hx.0 (get_or-IsByte key (i % 4) hk),
  unmask-unmask key (i + 1) xs hk hx.1,
)

-- The frame that a client sends by RFC 6455: the mask bit is set, and the four bytes of the key
-- stand before the masked payload.
unfoldable pub client_frame : Text → Text → ℕ → Text
client_frame key payload opcode =
    bit_or 0x80 (bit_and opcode 0x0f)
    ∷ (flagged true (frame_length (length payload)) ++ (key ++ unmask key 0 payload))

-- The whole frame is there, with any bytes behind it.
pub decode_frame-client_frame :
    (max_size : ℕ) (key payload rest : Text) (opcode : ℕ)
    → opcode < 256
    → length key ≡ 4
    → All IsByte key
    → All IsByte payload
    → length payload ≤ max_size
    → length (client_frame key payload opcode ++ rest) < 2 ^ 64
    → decode_frame max_size (client_frame key payload opcode ++ rest)
      ≡ consumed
          (length (client_frame key payload opcode))
          (record { opcode = opcode % 16; fin = true; payload = payload })
unfolding client_frame decode_mask
decode_frame-client_frame max_size key payload rest opcode h four hk hp small fits =
    rw
      (
        append_assoc len (key ++ body) rest,
        append_assoc key body rest,
        decode-frame_length max_size b0 n true tail (omega (arith, sizes, fits', length_body)),
        enough,
        inner,
        mask-at,
        unmask-unmask key 0 payload hk hp,
        (first_byte opcode h).0,
        (first_byte opcode h).1,
      )
      (ap (λ (k : ℕ). consumed k (record { opcode = opcode % 16; fin = true; payload = payload }))
        (omega (
          arith,
          four,
          length_body,
          length-append len (key ++ body),
          length-append key body,
          length-flagged true (frame_length n),
        )))
  where
    n : ℕ
    n = length payload

    b0 : ℕ
    b0 = bit_or 0x80 (bit_and opcode 0x0f)

    len : Text
    len = flagged true (frame_length n)

    body : Text
    body = unmask key 0 payload

    tail : Text
    tail = key ++ (body ++ rest)

    src : Text
    src = b0 ∷ (len ++ tail)

    start : ℕ
    start = 1 + length (frame_length n)

    length_body : length body ≡ n
    length_body = length-unmask key 0 payload

    sizes : length src ≡ start + 4 + n + length rest
    sizes = omega (
      arith,
      length_body,
      four,
      length-append len tail,
      length-append key (body ++ rest),
      length-append body rest,
      length-flagged true (frame_length n),
    )

    fits' : length src < 2 ^ 64
    fits' = rw (append_assoc len (key ++ body) rest, append_assoc key body rest) at fits

    enough : ltb (length src) (start + 4) ≡ false
    enough = ground (arith, sizes)

    tail-at : drop start src ≡ tail
    tail-at = rw (length-flagged true (frame_length n)) at (drop-frame_length b0 len tail)

    body-at : drop (start + 4) src ≡ body ++ rest
    body-at =
        sym (drop-drop start 4 src)
        ∙ ap (drop 4) tail-at
        ∙ rw (sym four) (drop-append key (body ++ rest))

    mask-at : take 4 (drop (start + 4 - 4) src) ≡ key
    mask-at =
        let e : start + 4 - 4 ≡ start = omega arith in
        rw (e, tail-at, sym four) (take-append key (body ++ rest))

    inner :
        decode_payload max_size src b0 true n (start + 4)
        ≡ consumed (start + 4 + n) (record {
          opcode = bit_and b0 0x0f;
          fin = not (bit_and b0 0x80 == 0);
          payload = unmask (take 4 (drop (start + 4 - 4) src)) 0 body;
        })
    inner = rw length_body at (
        decode-payload_all max_size src b0 true (start + 4) body rest body-at
          (omega (arith, sizes, length_body)) (omega (arith, sizes, fits'))
          (omega (arith, length_body)))
