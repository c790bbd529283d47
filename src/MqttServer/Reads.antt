-- ===== src/MqttServer/Reads.antt =====
-- on_bytes_read of src/mqtt/mqtt_server.cpp step by step: what each of its steps keeps, the whole call
-- keeps, and the call ends.
use lightapr.Prelude.{
  ℕ, zero, suc, ◌+◌, ◌-◌, ◌≤◌, ◌<◌, ◌^◌, ◌≡◌, refl, sym, ap, ◌∙◌, true, false, Option, arith,
  Bool-cases, Option-cases, ◌==◌, ◌||◌, inl, inr, length, length-drop, drop-drop, drop, ltb,
}
use lightapr.Prelude.Text.{Text, codes}
use lightapr.Accumulator.{Accumulator, view, consume, append, total_capacity}
use lightapr.Http.{find, header_end_mark, starts_with}
use lightapr.Json.{Json}
use lightapr.Memory.{MemoryTracker, add_mqtt_rx_bytes}
use lightapr.Prelude.Int.{pos}
use lightapr.MqttServer.{Settings, Server, with_me, start_read_loop, end_session}
use lightapr.MqttServer.Packets.{process_packet}
use lightapr.MqttServer.Stream.{
  Ended, done, returned, thrown, out_of_fuel, with_acc, read_on, pong, upgrade, handshake_key,
  handle_frame, frame_loop, settle, read_frames, first_packet, handshake, read_opening,
  read_buffered, on_bytes_read,
}
use lightapr.MqttServer.Kept.{handle_frame-Kept}
use lightapr.WebSocket.{WsFrame, Decoded, incomplete, consumed, length_error, overrun, decode_frame}
use lightapr.WebSocket.Overflow.{InBuffer, decode_frame-InBuffer}

-- A call that ends with the property, returning or throwing.
abbrev pub Returns : {V : Type 0} → (Server V → Type 0) → Ended V → Type 0
Returns P (done s) = P s
Returns P (returned s) = P s
Returns P (thrown s) = P s
Returns P out_of_fuel = ⊥

length-view-consume :
    (a : Accumulator ℕ) (n : ℕ) → length (view (consume a n)) ≡ length (view a) - n
unfolding view consume
length-view-consume a n =
    ap length (sym (drop-drop a.offset n a.buf)) ∙ length-drop n (drop a.offset a.buf)

-- What decode_frame has answered, with the bounds on the bytes consumed.
data IsDecoded (src : Text) (d : Decoded) : Type 0 where
  waits : d ≡ incomplete → IsDecoded src d
  takes :
      (n : ℕ) (frame : WsFrame) → d ≡ consumed n frame → 2 ≤ n → n ≤ length src → IsDecoded src d
  throws : d ≡ length_error → IsDecoded src d

Decoded-cases : (src : Text) (d : Decoded) → InBuffer src d → IsDecoded src d
Decoded-cases src incomplete h = waits refl
Decoded-cases src (consumed n frame) h = takes n frame refl h.0 h.1
Decoded-cases src length_error h = throws refl
Decoded-cases src overrun h = elim h [ ]

module _ {V : Type 0} (J : Json V) (stoul : Text → Option ℕ) (c : Settings) (now : ℕ) where
  -- What every step of the call keeps.
  pub record IsStable (P : Server V → Type 0) : Type 0 where
    pub acc : (s : Server V) (a : Accumulator ℕ) → P s → P (with_acc s a)
    pub reads : (s : Server V) → P s → P (start_read_loop s)
    pub counts : (s : Server V) (m : MemoryTracker) → P s → P (record s { memory = m })
    pub packet : (s : Server V) (bytes : Text) → P s → P (process_packet J stoul c s bytes now)
    pub ends : (s : Server V) → P s → P (end_session J stoul s now)
    pub pongs : (s : Server V) (payload : Text) → P s → P (pong s payload)
    pub upgrades : (s : Server V) (key : Text) (n : ℕ) → P s → P (upgrade s key n)
    pub plain :
        (s : Server V)
        → P s
        → P (with_me s (record s.me { ws_handshake_done = true; is_websocket = false }))

  module _ (small : c.max_string < 2 ^ 64 - 14) (P : Server V → Type 0) (stable : IsStable P) where
    frame-stable : (s : Server V) (frame : WsFrame) → P s → P (handle_frame J stoul c s frame now)
    unfolding handle_frame
    frame-stable s frame p =
        ground
          (arith, stable.packet s frame.payload p, stable.ends s p, stable.pongs s frame.payload p)

    read_on-stable : (s : Server V) → P s → P (read_on s)
    unfolding read_on
    read_on-stable s p = ground (arith, stable.reads s p)

    -- The bytes that the next turn of the loop has.
    shorter :
        (s : Server V) (n : ℕ) (frame : WsFrame) (fuel : ℕ)
        → length (view s.me.rx_acc) < suc fuel
        → 2 ≤ n
        → n ≤ length (view s.me.rx_acc)
        → let t = handle_frame J stoul c (with_acc s (consume s.me.rx_acc n)) frame now in
          length (view t.me.rx_acc) < fuel
    unfolding with_acc with_me
    shorter s n frame fuel lt two fits =
        let t = with_acc s (consume s.me.rx_acc n) in
        rw ((handle_frame-Kept J stoul c t frame now).rx_acc)
          (omega (arith, length-view-consume s.me.rx_acc n))

    frame_loop-Returns :
        (fuel : ℕ) (s : Server V)
        → length (view s.me.rx_acc) < fuel
        → P s
        → Returns P (frame_loop J stoul c fuel s now)
    unfolding frame_loop
    frame_loop-Returns zero s lt p = absurd (omega arith)
    frame_loop-Returns (suc fuel) s lt p =
        let src = view s.me.rx_acc in
        elim (Bool-cases (s.me.closing || length src == 0)) [
          | inl over ↦ rw (frame_loop, over) p
          | inr more ↦
              elim (Decoded-cases src (decode_frame c.max_string src)
                (decode_frame-InBuffer c.max_string small src)) [
                  | waits e ↦ rw (frame_loop, more, e) p
                  | throws e ↦ rw (frame_loop, more, e) p
                  | takes n frame e two fits ↦
                      let t = with_acc s (consume s.me.rx_acc n) in
                      let after : P (handle_frame J stoul c t frame now) =
                        frame-stable t frame (stable.acc s (consume s.me.rx_acc n) p) in
                      elim (Bool-cases (frame.opcode == 0x08)) [
                        | inl closes ↦ rw (frame_loop, more, e, closes) after
                        | inr on ↦
                            rw (frame_loop, more, e, on)
                              (frame_loop-Returns fuel (handle_frame J stoul c t frame now)
                                (shorter s n frame fuel lt two fits) after)
                      ]
                ]
        ]

    -- The statements behind the loop.
    after_loop : (e : Ended V) → Returns P e → Returns P (settle e)
    unfolding settle
    after_loop (done s) p = read_on-stable _ (stable.acc s _ p)
    after_loop (returned s) p = p
    after_loop (thrown s) p = p
    after_loop out_of_fuel p = elim p [ ]

    read_frames-Returns : (s : Server V) → P s → Returns P (read_frames J stoul c s now)
    unfolding read_frames
    read_frames-Returns s p =
        after_loop _ (frame_loop-Returns (length (view s.me.rx_acc) + 1) s (omega arith) p)

    handshake-Returns : (s : Server V) → P s → Returns P (handshake J stoul c s now)
    unfolding handshake
    handshake-Returns s p = elim (Option-cases (find header_end_mark (view s.me.rx_acc))) [
      | inl e ↦ rw (handshake, e) (stable.reads s p)
      | inr (n, e) ↦ elim (Option-cases (handshake_key (view s.me.rx_acc))) [
        | inl f ↦ rw (handshake, e, f) (stable.ends s p)
        | inr (key, f) ↦
            rw (handshake, e, f) (read_frames-Returns (upgrade s key n) (stable.upgrades s key n p))
      ]
    ]

    first-stable : (s : Server V) → P s → P (first_packet J stoul c s now)
    unfolding first_packet
    first-stable s p = read_on-stable _ (stable.acc _ _ (stable.packet _ _ (stable.plain s p)))

    opening-Returns : (s : Server V) → P s → Returns P (read_opening J stoul c s now)
    unfolding read_opening
    opening-Returns s p =
        elim (Bool-cases (
          starts_with (codes "GET ") (view s.me.rx_acc)
          || starts_with (codes "get ") (view s.me.rx_acc))) [
            | inl e ↦ rw e (handshake-Returns s p)
            | inr e ↦ rw e (first-stable s p)
          ]

    buffered-Returns :
        (s : Server V) (bytes : Text) → P s → Returns P (read_buffered J stoul c s bytes now)
    unfolding read_buffered
    buffered-Returns s bytes p =
        let t = with_acc s (append s.me.rx_acc bytes) in
        let q : P t = stable.acc s (append s.me.rx_acc bytes) p in
        elim (Bool-cases (ltb c.max_buffer_bytes (total_capacity t.me.rx_acc))) [
          | inl e ↦ rw e (stable.ends t q)
          | inr e ↦ elim (Bool-cases s.me.ws_handshake_done) [
            | inl f ↦ simp (e, f) (read_frames-Returns t q)
            | inr f ↦ simp (e, f) (opening-Returns t q)
          ]
        ]

    -- What each step of on_bytes_read keeps, the call keeps, and the call ends.
    pub on_bytes_read-Returns :
        (s : Server V) (bytes : Text) → P s → Returns P (on_bytes_read J stoul c s bytes now)
    unfolding on_bytes_read
    on_bytes_read-Returns s bytes p =
        let t = record s { memory = add_mqtt_rx_bytes s.memory (pos (length bytes)) } in
        let q : P t = stable.counts s (add_mqtt_rx_bytes s.memory (pos (length bytes))) p in
        elim (Bool-cases s.me.ws_handshake_done) [
          | inr e ↦ simp e (buffered-Returns t bytes q)
          | inl e ↦ elim (Bool-cases s.me.is_websocket) [
            | inr f ↦ simp (e, f) (read_on-stable _ (stable.packet t bytes q))
            | inl f ↦ elim (Bool-cases (length bytes == 0)) [
              | inl g ↦ simp (e, f, g) (read_frames-Returns t q)
              | inr g ↦ simp (e, f, g) (buffered-Returns t bytes q)
            ]
          ]
        ]
