-- ===== src/MqttServer/Stream.antt =====
-- on_bytes_read of mqtt_session in src/mqtt/mqtt_server.cpp: the handshake, the frames of a WebSocket,
-- and the packets of a plain connection.
use lightapr.Prelude.{
  ℕ, zero, suc, ◌+◌, true, false, not, ◌||◌, Option, none, some, ltb, ◌==◌, if◌then◌else◌, length,
}
use lightapr.Prelude.Text.{Text, codes}
use lightapr.Prelude.Int.{pos}
use lightapr.Accumulator.{
  Accumulator, append, view, consume, compact_if_needed, total_capacity, clear, default_threshold,
}
use lightapr.Http.{starts_with, find, header_end_mark}
use lightapr.Json.{Json}
use lightapr.Memory.{add_mqtt_rx_bytes}
use lightapr.MqttServer.{Settings, Server, with_me, deliver, start_read_loop, end_session}
use lightapr.MqttServer.Packets.{process_packet}
use lightapr.WebSocket.{WsFrame, incomplete, consumed, decode_frame, encode_frame}
use lightapr.WebSocket.Handshake.{
  parse_handshake_request, compute_accept_key, generate_handshake_response,
}

-- How the loop over the frames ends: at its end, by the `return` on a close frame, or by an exception
-- of decode_frame (or its read outside the buffer), with the state that is left. Running out of fuel does not occur.
pub data Ended (V : Type 0) : Type 0 where
  done : Server V → Ended V
  returned : Server V → Ended V
  thrown : Server V → Ended V
  out_of_fuel : Ended V

module _ {V : Type 0} where
  unfoldable pub with_acc : Server V → Accumulator ℕ → Server V
  with_acc s a = with_me s (record s.me { rx_acc = a })

  -- `if (!closing_) start_read_loop();`
  unfoldable pub read_on : Server V → Server V
  read_on s = if s.me.closing then s else start_read_loop s

  -- The write of a pong is not counted.
  unfoldable pub pong : Server V → Text → Server V
  pong s payload = with_me s (deliver s.me (encode_frame payload 0x0a))

  -- A handshake that is accepted; its response is not counted either.
  unfoldable pub upgrade : Server V → Text → ℕ → Server V
  upgrade s key header_end =
      let accepted = record s.me {
        is_websocket = true;
        ws_handshake_done = true;
        rx_acc = compact_if_needed default_threshold (consume s.me.rx_acc (header_end + 4));
      } in
      with_me s
        (deliver accepted (generate_handshake_response (compute_accept_key key) (codes "mqtt")))

module _ {V : Type 0} where
  -- The statements behind the loop over the frames.
  unfoldable pub settle : Ended V → Ended V
  settle (done s) = done (read_on (with_acc s (compact_if_needed default_threshold s.me.rx_acc)))
  settle (returned s) = returned s
  settle (thrown s) = thrown s
  settle out_of_fuel = out_of_fuel

-- The key of a request that is accepted.
unfoldable pub handshake_key : Text → Option Text
handshake_key request = elim (parse_handshake_request request) [
  | none ↦ none
  | some (found, h) ↦ if found then some h.out_key else none
]

module _ {V : Type 0} (J : Json V) (stoul : Text → Option ℕ) (c : Settings) where
  -- One frame, after its bytes are consumed.
  unfoldable pub handle_frame : Server V → WsFrame → ℕ → Server V
  handle_frame s frame now =
      if frame.opcode == 0x01 || frame.opcode == 0x02
      then process_packet J stoul c s frame.payload now
      else if frame.opcode == 0x08
      then end_session J stoul s now
      else if frame.opcode == 0x09
      then pong s frame.payload
      else s

  unfoldable pub frame_loop : ℕ → Server V → ℕ → Ended V
  frame_loop zero s now = out_of_fuel
  frame_loop (suc fuel) s now =
      if s.me.closing || length (view s.me.rx_acc) == 0
      then done s
      else elim (decode_frame c.max_string (view s.me.rx_acc)) [
        | incomplete ↦ done s
        | consumed n frame ↦
            let s' = handle_frame (with_acc s (consume s.me.rx_acc n)) frame now in
            elim (frame.opcode == 0x08) [ true ↦ returned s' | false ↦ frame_loop fuel s' now ]
        | _ ↦ thrown s
      ]

  -- The loop, and the statements behind it. Each frame takes at least two bytes.
  unfoldable pub read_frames : Server V → ℕ → Ended V
  read_frames s now = settle (frame_loop (length (view s.me.rx_acc) + 1) s now)

  -- The first bytes of a plain connection.
  unfoldable pub first_packet : Server V → ℕ → Server V
  first_packet s now =
      let plain = with_me s (record s.me { ws_handshake_done = true; is_websocket = false }) in
      let s' = process_packet J stoul c plain (view plain.me.rx_acc) now in
      read_on (with_acc s' (clear s'.me.rx_acc))

  unfoldable pub handshake : Server V → ℕ → Ended V
  handshake s now = elim (find header_end_mark (view s.me.rx_acc)) [
    | none ↦ done (start_read_loop s)
    | some header_end ↦ elim (handshake_key (view s.me.rx_acc)) [
      | none ↦ returned (end_session J stoul s now)
      | some key ↦ read_frames (upgrade s key header_end) now
    ]
  ]

  -- Bytes before it is known what the connection is.
  unfoldable pub read_opening : Server V → ℕ → Ended V
  read_opening s now =
      let request = view s.me.rx_acc in
      if starts_with (codes "GET ") request || starts_with (codes "get ") request
      then handshake s now
      else done (first_packet s now)

  -- The bytes are put behind those that wait, and the cap is tested.
  unfoldable pub read_buffered : Server V → Text → ℕ → Ended V
  read_buffered s bytes now =
      let s' = with_acc s (append s.me.rx_acc bytes) in
      if ltb c.max_buffer_bytes (total_capacity s'.me.rx_acc)
      then returned (end_session J stoul s' now)
      else if s.me.ws_handshake_done
      then read_frames s' now
      else read_opening s' now

  unfoldable pub on_bytes_read : Server V → Text → ℕ → Ended V
  on_bytes_read s bytes now =
      let counted = record s { memory = add_mqtt_rx_bytes s.memory (pos (length bytes)) } in
      if not s.me.ws_handshake_done
      then read_buffered counted bytes now
      else if s.me.is_websocket
      then if length bytes == 0 then read_frames counted now else read_buffered counted bytes now
      else done (read_on (process_packet J stoul c counted bytes now))
