-- ===== src/WebSocket/Fragments.antt =====
-- Frames that come in parts: decode_frame of src/mqtt/websocket_codec.cpp on the bytes that are there.
use Prim.Native.Nat.{bit_and}
use lightapr.Prelude.{
  ℕ, zero, suc, ◌+◌, ◌-◌, ◌^◌, ◌≤◌, ◌<◌, ◌≡◌, ◌%◌, refl, sym, ◌∙◌, Bool, true, false, not, [], ◌∷◌,
  ◌++◌, length, take, drop, get_or, arith, ◌==◌, ltb, if◌then◌else◌, length-append, length-take,
  take-append_ge, take-append-drop, take-drop-append, All, inl, inr, Bool-cases,
}
use lightapr.Prelude.Text.{Text, IsByte}
use lightapr.WebSocket.{
  WsFrame, Decoded, incomplete, consumed, length_error, overrun, big_endian, decode_payload,
  decode_mask, decode_length, decode_frame,
}
use lightapr.WebSocket.Masking.{client_frame, decode_frame-client_frame}
use lightapr.WebSocket.Overflow.{InBuffer, decode_frame-InBuffer}

-- The second answer is the first one, unless that was to wait.
abbrev Stays : Decoded → Decoded → Type 0
Stays incomplete e = Unit {0}
Stays (consumed n frame) e = e ≡ consumed n frame
Stays length_error e = e ≡ length_error
Stays overrun e = Unit {0}

get_or-append : (s t : Text) (i : ℕ) → i < length s → get_or (s ++ t) i 0 ≡ get_or s i 0
get_or-append [] t i h = absurd (omega arith)
get_or-append (x ∷ s) t zero h = refl
get_or-append (x ∷ s) t (suc i) h = get_or-append s t i (omega arith)

module _ (max_size : ℕ) where
  decode_payload-Stays :
      (src more : Text) (b0 : ℕ) (masked : Bool) (payload_len header_len : ℕ)
      → (if masked then 4 else 0) ≤ header_len
      → header_len ≤ length src
      → Stays
          (decode_payload max_size src b0 masked payload_len header_len)
          (decode_payload max_size (src ++ more) b0 masked payload_len header_len)
  unfolding decode_payload
  decode_payload-Stays src more b0 true payload_len header_len lo hi = ground (
    arith,
    length-append src more,
    take-drop-append 4 (header_len - 4) src more,
    take-drop-append payload_len header_len src more,
  )
  decode_payload-Stays src more b0 false payload_len header_len lo hi =
      ground (arith, length-append src more, take-drop-append payload_len header_len src more)

  decode_mask-Stays :
      (src more : Text) (b0 : ℕ) (masked : Bool) (payload_len header_len : ℕ)
      → header_len ≤ length src
      → Stays
          (decode_mask max_size src b0 masked payload_len header_len)
          (decode_mask max_size (src ++ more) b0 masked payload_len header_len)
  unfolding decode_mask
  decode_mask-Stays src more b0 false payload_len header_len hi =
      decode_payload-Stays src more b0 false payload_len header_len (omega arith) hi
  decode_mask-Stays src more b0 true payload_len header_len hi =
      elim (Bool-cases (ltb (length src) (header_len + 4))) [
        | inl e ↦ rw e tt
        | inr e ↦
            let grown : ltb (length (src ++ more)) (header_len + 4) ≡ false =
              ground (arith, e, length-append src more) in
            rw (e, grown)
              (decode_payload-Stays src more b0 true payload_len (header_len + 4) (omega arith)
                (ground (arith, e)))
      ]

  decode_length-Stays :
      (src more : Text) (b0 : ℕ) (masked : Bool) (len7 : ℕ)
      → 2 ≤ length src
      → Stays
          (decode_length max_size src b0 masked len7)
          (decode_length max_size (src ++ more) b0 masked len7)
  unfolding decode_length
  decode_length-Stays src more b0 masked len7 two = ground (
    arith,
    length-append src more,
    take-drop-append 2 2 src more,
    take-drop-append 8 2 src more,
    decode_mask-Stays src more b0 masked (big_endian 0 (take 2 (drop 2 src))) 4,
    decode_mask-Stays src more b0 masked (big_endian 0 (take 8 (drop 2 src))) 10,
    decode_mask-Stays src more b0 masked len7 2,
  )

  decode_frame-Stays :
      (src more : Text) → Stays (decode_frame max_size src) (decode_frame max_size (src ++ more))
  unfolding decode_frame
  decode_frame-Stays src more = elim (Bool-cases (ltb (length src) 2)) [
    | inl e ↦ rw e tt
    | inr e ↦
        let grown : ltb (length (src ++ more)) 2 ≡ false =
          ground (arith, e, length-append src more) in
        let two : 2 ≤ length src = ground (arith, e) in
        rw (e, grown, get_or-append src more 0 (omega (arith, two)), get_or-append src more 1 two)
          (decode_length-Stays src more (get_or src 0 0) (not (bit_and (get_or src 1 0) 0x80 == 0))
            (bit_and (get_or src 1 0) 0x7f) two)
  ]

  -- With less than the frame takes, and the frame behind them, the bytes are waited on.
  short-waits :
      (src : Text) (d e : Decoded) (n : ℕ) (frame : WsFrame)
      → InBuffer src d
      → length src < n
      → e ≡ consumed n frame
      → Stays d e
      → d ≡ incomplete
  short-waits src incomplete e n frame h lt h' stays = refl
  short-waits src (consumed m g) e n frame h lt h' stays =
      let same : consumed m g ≡ consumed n frame = sym stays ∙ h' in
      let eq : m ≡ n = cc in absurd (omega (arith, eq, h.1, lt))
  short-waits src length_error e n frame h lt h' stays = cc
  short-waits src overrun e n frame h lt h' stays = elim h [ ]

  -- However much of a masked frame, and of what follows it, has come: with less than the frame,
  -- decode_frame waits, and from then on it takes the frame and exactly its bytes. The key is four
  -- bytes, the whole input is below 2 ^ 64 bytes, and the payload is bytes, not more than a string
  -- can hold; a string's max_size() is below 2 ^ 64 - 14.
  pub decode_frame-take :
      (key payload rest : Text) (opcode k : ℕ)
      → max_size < 2 ^ 64 - 14
      → opcode < 256
      → length key ≡ 4
      → All IsByte key
      → All IsByte payload
      → length payload ≤ max_size
      → length (client_frame key payload opcode ++ rest) < 2 ^ 64
      → decode_frame max_size (take k (client_frame key payload opcode ++ rest)) ≡ (
          if ltb k (length (client_frame key payload opcode))
          then incomplete
          else consumed
              (length (client_frame key payload opcode))
              (record { opcode = opcode % 16; fin = true; payload = payload }))
  decode_frame-take key payload rest opcode k bound h four hk hp small fits =
      let sent = client_frame key payload opcode in
      let some_of = take k (sent ++ rest) in
      elim (Bool-cases (ltb k (length sent))) [
        | inl e ↦
            let lt : k < length sent = ground (arith, e) in
            let whole : some_of ++ drop k (sent ++ rest) ≡ sent ++ rest =
              take-append-drop k (sent ++ rest) in
            rw e (
              short-waits some_of (decode_frame max_size some_of)
                (decode_frame max_size (some_of ++ drop k (sent ++ rest))) (length sent)
                (record { opcode = opcode % 16; fin = true; payload = payload })
                (decode_frame-InBuffer max_size bound some_of)
                (omega (arith, lt, length-take k (sent ++ rest)))
                (rw whole (
                  decode_frame-client_frame max_size key payload rest opcode h four hk hp small
                    fits))
                (decode_frame-Stays some_of (drop k (sent ++ rest))))
        | inr e ↦
            let ge : length sent ≤ k = ground (arith, e) in
            let here = take (k - length sent) rest in
            rw (e, take-append_ge k sent rest ge)
              (decode_frame-client_frame max_size key payload here opcode h four hk hp small (
                omega (
                  arith,
                  fits,
                  length-append sent rest,
                  length-append sent here,
                  length-take (k - length sent) rest,
                )))
      ]
