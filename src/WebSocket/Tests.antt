-- ===== src/WebSocket/Tests.antt =====
-- Runs of the frames of src/mqtt/websocket_codec.cpp.
use lightapr.Prelude.{◌≡◌, refl, arith, [], ◌∷◌, true, length, take, ◌++◌, ℕ}
use lightapr.Prelude.Text.{codes}
use lightapr.WebSocket.{
  decode_frame, encode_frame, frame_length, unmask, incomplete, consumed, length_bytes,
}
use lightapr.WebSocket.Digest.{
  sha1, padded, zeros, chunks, load, word_of, extend, left_rotate, rounds, round, round_f, round_k,
  complement, reversed, add_state, initial_state, digest, base64_encode, b64_char,
}
use lightapr.WebSocket.Handshake.{compute_accept_key}
use lightapr.WebSocket.Base64.{base64_decode, base64_decode-base64_encode}
use lightapr.WebSocket.Frames.{flagged, decode_frame-encode_frame}
use lightapr.WebSocket.Masking.{client_frame}
use lightapr.WebSocket.Fragments.{decode_frame-take}
use lightapr.WebSocket.Overflow.{InBuffer, decode_frame-InBuffer}

-- A size that a std::string can have.
abbrev max_string : ℕ
max_string = 4611686018427387903

decode_frame-encode_frame_example :
    decode_frame max_string (encode_frame (codes "hello") 2 ++ (0x89 ∷ []))
    ≡ consumed
        (length (encode_frame (codes "hello") 2))
        (record { opcode = 2; fin = true; payload = codes "hello" })
unfolding encode_frame frame_length
decode_frame-encode_frame_example =
    decode_frame-encode_frame max_string (codes "hello") (0x89 ∷ []) 2 (omega arith) (omega arith)
      (omega arith)

-- The frame of "hello" takes eleven bytes, of which eight have come.
decode_frame-take_example :
    decode_frame max_string
      (take 8 (client_frame (1 ∷ 2 ∷ 3 ∷ 4 ∷ []) (codes "hello") 2 ++ (0x89 ∷ [])))
    ≡ incomplete
unfolding client_frame frame_length unmask flagged
decode_frame-take_example =
    decode_frame-take max_string (1 ∷ 2 ∷ 3 ∷ 4 ∷ []) (codes "hello") (0x89 ∷ []) 2 8 (omega arith)
      (omega arith) refl (omega arith, (omega arith, (omega arith, (omega arith, tt))))
      (omega arith, (omega arith, (omega arith, (omega arith, (omega arith, tt))))) (omega arith)
      (omega arith)

decode_frame-InBuffer_example :
    InBuffer (0x82 ∷ 0x85 ∷ 1 ∷ []) (decode_frame max_string (0x82 ∷ 0x85 ∷ 1 ∷ []))
decode_frame-InBuffer_example =
    decode_frame-InBuffer max_string (omega arith) (0x82 ∷ 0x85 ∷ 1 ∷ [])

-- The example of RFC 6455.
accept_key_of_rfc :
    compute_accept_key (codes "dGhlIHNhbXBsZSBub25jZQ==") ≡ codes "s3pPLMBiTxaQ9kYGzzhZRbK+xOo="
unfolding compute_accept_key sha1 padded zeros length_bytes chunks load word_of extend left_rotate
    rounds round round_f round_k complement reversed add_state initial_state digest base64_encode
    b64_char
accept_key_of_rfc = refl

base64_decode-base64_encode_example : base64_decode (base64_encode (codes "ab")) ≡ codes "ab"
base64_decode-base64_encode_example =
    base64_decode-base64_encode (codes "ab") (omega arith, (omega arith, tt))
