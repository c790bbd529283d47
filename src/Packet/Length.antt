-- ===== src/Packet/Length.antt =====
-- encode_remaining_length and decode_remaining_length of src/mqtt/mqtt_packet.cpp.
use Prim.Native.Nat.{bit_and, bit_or}
use lightapr.Prelude.{
  ℕ, suc, ◌+◌, ◌*◌, ◌/◌, ◌%◌, ◌≤◌, ◌<◌, ◌≡◌, [], ◌∷◌, ◌++◌, length, arith, ltb, ltb→lt, Bool-cases,
  inl, inr, if◌then◌else◌,
}
use mathlib.Core.Path.{ap₂, ap}
use native.Mathlib.Nat.{div-add-mod}
use native.Mathlib.Decide.{dec_lt}
use lightapr.Prelude.Text.{Text}
use lightapr.Prelude.Bits.{low_seven, top_bit, set_top_bit}
use lightapr.Packet.{
  encode_length_loop, encode_remaining_length, decode_length_loop, decode_remaining_length,
}
use lightapr.Packet.Reading.{ok, failed}

-- One round of the decoder on a last byte, and on one with the continuation bit over `d`.
last_round :
    (d m v r : ℕ) (rest : Text)
    → d < 128
    → m ≤ 16384
    → decode_length_loop (d ∷ rest) m v r ≡ ok (v + d * m, r + 1)
unfolding decode_length_loop
last_round d m v r rest h hm = ground (arith, low_seven d, top_bit d)

low_of_more : (d : ℕ) → d < 128 → bit_and (d + 128) 127 ≡ d
low_of_more d h = omega (arith, low_seven (d + 128) (omega arith))

top_of_more : (d : ℕ) → d < 128 → bit_and (d + 128) 128 ≡ 128
top_of_more d h = omega (arith, top_bit (d + 128) (omega arith))

more_round :
    (d m v r : ℕ) (rest : Text)
    → d < 128
    → m ≤ 16384
    → decode_length_loop (bit_or d 128 ∷ rest) m v r
      ≡ decode_length_loop rest (m * 128) (v + d * m) (r + 1)
unfolding decode_length_loop
more_round d m v r rest h hm = rw (set_top_bit d h, low_of_more d h, top_of_more d h) (ground arith)

-- The encoder's first byte, by the size of what is left.
encode_small : (f n : ℕ) → n < 128 → encode_length_loop (suc f) n ≡ n ∷ []
unfolding encode_length_loop
encode_small f n h = ground arith

encode_large :
    (f n : ℕ)
    → 128 ≤ n
    → encode_length_loop (suc f) n ≡ bit_or (n % 128) 128 ∷ encode_length_loop f (n / 128)
unfolding encode_length_loop
encode_large f n h = ground arith

split_groups : (n m : ℕ) → n * m ≡ n % 128 * m + n / 128 * (m * 128)
split_groups n m = omega (arith, ap (λ (t : ℕ). t * m) (div-add-mod n 128))

-- `k` more bytes may follow: two, one or none.
abbrev Decodes : ℕ → ℕ → ℕ → ℕ → ℕ → Text → Type 0
Decodes f n m v r rest =
    decode_length_loop (encode_length_loop f n ++ rest) m v r
    ≡ ok (v + n * m, r + length (encode_length_loop f n))

decode_small : (f n m v r : ℕ) (rest : Text) → n < 128 → m ≤ 16384 → Decodes (suc f) n m v r rest
decode_small f n m v r rest h hm = rw (encode_small f n h) (last_round n m v r rest h hm)

decode_large :
    (f n m v r : ℕ) (rest : Text)
    → 128 ≤ n
    → m ≤ 16384
    → Decodes f (n / 128) (m * 128) (v + n % 128 * m) (r + 1) rest
    → Decodes (suc f) n m v r rest
decode_large f n m v r rest h hm ih =
    rw (encode_large f n h, more_round (n % 128) m v r _ (omega arith) hm, ih)
      (ap₂ (λ (a b : ℕ). ok (a, b)) (omega (arith, split_groups n m)) (omega arith))

-- A remaining length below 2 ^ 21 is read back from what was written, with the bytes that it took.
pub decode-encode :
    (n : ℕ) (rest : Text)
    → n < 2097152
    → decode_remaining_length (encode_remaining_length n ++ rest)
      ≡ ok (n, length (encode_remaining_length n))
unfolding encode_remaining_length decode_remaining_length
decode-encode n rest h = rw whole (ap₂ (λ (a b : ℕ). ok (a, b)) (omega arith) (omega arith))
  where
    third :
        16384 ≤ n
        → Decodes 8
            (n / 128 / 128)
            (1 * 128 * 128)
            (0 + n % 128 * 1 + n / 128 % 128 * (1 * 128))
            (0 + 1 + 1)
            rest
    third b = decode_small 7 _ _ _ _ rest (omega arith) (omega arith)

    second : 128 ≤ n → Decodes 9 (n / 128) (1 * 128) (0 + n % 128 * 1) (0 + 1) rest
    second a = elim (dec_lt n 16384) [
      | yes p ↦ decode_small 8 _ _ _ _ rest (omega arith) (omega arith)
      | no p ↦ decode_large 8 (n / 128) _ _ _ rest (omega arith) (omega arith) (third (omega arith))
    ]

    whole : Decodes 10 n 1 0 0 rest
    whole = elim (dec_lt n 128) [
      | yes p ↦ decode_small 9 n 1 0 0 rest p (omega arith)
      | no p ↦ decode_large 9 n 1 0 0 rest (omega arith) (omega arith) (second (omega arith))
    ]

fourth_round : (d v r : ℕ) (rest : Text) → decode_length_loop (d ∷ rest) 2097152 v r ≡ failed
unfolding decode_length_loop
fourth_round d v r rest = ground arith

fourth_byte :
    (f n v r : ℕ) (rest : Text)
    → decode_length_loop (encode_length_loop (suc f) n ++ rest) 2097152 v r ≡ failed
fourth_byte f n v r rest = elim (dec_lt n 128) [
  | yes p ↦ rw (encode_small f n p) (fourth_round n v r rest)
  | no p ↦ rw (encode_large f n (omega arith)) (fourth_round _ v r _)
]

-- The limit of the decoder: a remaining length of 2 ^ 21 or more takes a fourth byte, and the
-- decoder refuses it, although the encoder writes it.
decode-encode_four_bytes :
    (n : ℕ) (rest : Text)
    → 2097152 ≤ n
    → decode_remaining_length (encode_remaining_length n ++ rest) ≡ failed
unfolding encode_remaining_length decode_remaining_length
decode-encode_four_bytes n rest h =
    rw
      (
        encode_large 9 n (omega arith),
        more_round (n % 128) 1 0 0 _ (omega arith) (omega arith),
        encode_large 8 (n / 128) (omega arith),
        more_round (n / 128 % 128) (1 * 128) (0 + n % 128 * 1) (0 + 1) _ (omega arith)
            (omega arith),
        encode_large 7 (n / 128 / 128) (omega arith),
        more_round (n / 128 / 128 % 128) (1 * 128 * 128)
            (0 + n % 128 * 1 + n / 128 % 128 * (1 * 128)) (0 + 1 + 1) _ (omega arith) (omega arith),
      )
      (fourth_byte 6 (n / 128 / 128 / 128) _ _ rest)

-- The encoder writes 1 to 10 bytes.
pub length-encode_pos : (n : ℕ) → 0 < length (encode_remaining_length n)
unfolding encode_remaining_length
length-encode_pos n = elim (dec_lt n 128) [
  | yes p ↦ rw (encode_small 9 n p) (omega arith)
  | no p ↦ rw (encode_large 9 n (omega arith)) (omega arith)
]

-- Every length that the encoder writes comes back from the decoder with the bytes that it took if it
-- is below 2 ^ 21, whatever follows; one of 2 ^ 21 or more, which takes a fourth byte, is refused.
pub decode-encode_limit :
    (n : ℕ) (rest : Text)
    → decode_remaining_length (encode_remaining_length n ++ rest)
      ≡ (if ltb n 2097152 then ok (n, length (encode_remaining_length n)) else failed)
decode-encode_limit n rest = elim (Bool-cases (ltb n 2097152)) [
  | inl e ↦ rw e (decode-encode n rest (ltb→lt n 2097152 e))
  | inr e ↦ rw e (decode-encode_four_bytes n rest (ground (arith, e)))
]
