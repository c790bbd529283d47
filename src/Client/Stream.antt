-- ===== src/Client/Stream.antt =====
-- The received bytes of sdk/cpp/src/apr_client.cpp: process_stream and process_mqtt_buffer.
use lightapr.Prelude.{
  ℕ, zero, suc, ◌+◌, ◌-◌, ◌*◌, Option, [], ◌∷◌, ◌++◌, ltb, leb, ◌==◌, ◌||◌, if◌then◌else◌, length,
  drop,
}
use Prim.Native.Nat.{bit_and}
use lightapr.Prelude.Text.{Text}
use lightapr.Json.{Json}
use lightapr.Packet.{peek, slice}
use lightapr.Packet.Reading.{Outcome, ok, failed, overrun, out_of_fuel, ◌>>=◌, ◌>>◌, require}
use lightapr.WebSocket.{WsFrame, Decoded, incomplete, consumed, length_error, decode_frame}
use lightapr.WebSocket as WebSocket
use lightapr.Client.{Client}
use lightapr.Client.Session.{handle_publish}

module _ {V : Type 0} {C : Type 0} (J : Json V) (stoul : Text → Option ℕ) where
  -- A PUBLISH of `pkt_len` bytes, at the start of the bytes that are left. `failed` is the exception
  -- of a string whose length `pkt_len - (4 + topic_len)` has wrapped.
  unfoldable pub take_publish : Client V C → Text → ℕ → Outcome (Client V C)
  take_publish c rest pkt_len = do
    hi ← peek rest 2
    lo ← peek rest 3
    let topic_len = hi * 256 + lo
    topic ← slice rest 4 topic_len
    require (leb (4 + topic_len) pkt_len)
    payload ← slice rest (4 + topic_len) (pkt_len - (4 + topic_len))
    ok (handle_publish J stoul c topic payload)

  -- One packet. The remaining length is read from one byte.
  unfoldable pub take_packet : Client V C → Text → ℕ → ℕ → Outcome (Client V C)
  take_packet c rest first pkt_len =
      if bit_and first 0xf0 == 0x30 then take_publish c rest pkt_len else ok c

  -- The loop, over the bytes from `offset` on. Every packet takes at least two bytes.
  unfoldable pub mqtt_loop : ℕ → Client V C → Text → ℕ → Outcome (Client V C × ℕ)
  mqtt_loop zero c rest offset = out_of_fuel
  mqtt_loop (suc fuel) c [] offset = ok (c, offset)
  mqtt_loop (suc fuel) c (b ∷ []) offset = ok (c, offset)
  mqtt_loop (suc fuel) c (b ∷ rem_len ∷ tail) offset =
      let round = (do
        c' ← take_packet c (b ∷ rem_len ∷ tail) b (2 + rem_len)
        mqtt_loop fuel c' (drop rem_len tail) (offset + (2 + rem_len))) in
      if ltb (length tail) rem_len then ok (c, offset) else round

  unfoldable pub process_mqtt_buffer : Client V C → Text → Outcome (Client V C × ℕ)
  process_mqtt_buffer c bytes = mqtt_loop (length bytes + 1) c bytes 0

  -- A frame whose bytes are already dropped from the buffer.
  unfoldable pub client_frame : Client V C → WsFrame → Outcome (Client V C)
  client_frame c frame =
      if frame.opcode == 0x01 || frame.opcode == 0x02
      then process_mqtt_buffer c frame.payload >>= (λ out. ok out.0)
      else ok c

  unfoldable pub ws_loop : ℕ → ℕ → Client V C → Outcome (Client V C)
  ws_loop max_string zero c = out_of_fuel
  ws_loop max_string (suc fuel) c =
      if length c.stream_buf == 0 then ok c else elim (decode_frame max_string c.stream_buf) [
        | incomplete ↦ ok c
        | consumed n frame ↦ do
          c' ← client_frame (record c { stream_buf = drop n c.stream_buf }) frame
          ws_loop max_string fuel c'
        | length_error ↦ failed
        | WebSocket.overrun ↦ overrun
      ]

  unfoldable pub process_stream : ℕ → Client V C → Outcome (Client V C)
  process_stream max_string c =
      if c.is_websocket then ws_loop max_string (length c.stream_buf + 1) c else do
        (c', offset) ← process_mqtt_buffer c c.stream_buf
        ok (record c' { stream_buf = drop offset c'.stream_buf })

  -- What do_read does with the bytes of a read.
  unfoldable pub on_read : ℕ → Client V C → Text → Outcome (Client V C)
  on_read max_string c bytes =
      process_stream max_string (record c { stream_buf = c.stream_buf ++ bytes })
