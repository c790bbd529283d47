-- ===== src/WebSocket/Digest.antt =====
-- sha1 and base64_encode of src/mqtt/websocket_codec.cpp. A uint32_t wraps at 2 ^ 32. The array
-- `w` of a chunk is kept from its last entry to its first.
use Prim.Native.Nat.{bit_and, bit_or, bit_xor}
use lightapr.Prelude.{
  ℕ, zero, suc, ◌+◌, ◌-◌, ◌*◌, ◌/◌, ◌%◌, ◌^◌, List, [], ◌∷◌, ◌++◌, ltb, if◌then◌else◌, length, take,
  drop, get_or, replicate,
}
use lightapr.Prelude.Text.{Text, codes}
use lightapr.WebSocket.{length_bytes}

unfoldable pub left_rotate : ℕ → ℕ → ℕ
left_rotate value count = bit_or (value * 2 ^ count % 2 ^ 32) (value / 2 ^ (32 - count))

-- `~x`
unfoldable pub complement : ℕ → ℕ
complement x = 2 ^ 32 - 1 - x

-- The zeros pushed until the size is 56 modulo 64.
unfoldable pub zeros : ℕ → ℕ
zeros size = if ltb 56 (size % 64) then 120 - size % 64 else 56 - size % 64

-- The message with its padding and its length in bits.
unfoldable pub padded : Text → Text
padded input =
    input
    ++ (0x80
        ∷ (replicate (zeros (length input + 1)) 0 ++ length_bytes 8 (length input * 8 % 2 ^ 64)))

unfoldable pub word_of : Text → ℕ
word_of bytes =
    get_or bytes 0 0 * 2 ^ 24
    + get_or bytes 1 0 * 2 ^ 16
    + get_or bytes 2 0 * 2 ^ 8
    + get_or bytes 3 0

-- The first words of a chunk.
unfoldable pub load : ℕ → Text → List ℕ → List ℕ
load zero chunk w = w
load (suc n) chunk w = load n (drop 4 chunk) (word_of chunk ∷ w)

-- The words that are made of the earlier ones.
unfoldable pub extend : ℕ → List ℕ → List ℕ
extend zero w = w
extend (suc n) w = extend n (
    left_rotate
      (bit_xor (bit_xor (bit_xor (get_or w 2 0) (get_or w 7 0)) (get_or w 13 0)) (get_or w 15 0)) 1
    ∷ w)

pub record Sha1State : Type 0 where
  pub a : ℕ
  pub b : ℕ
  pub c : ℕ
  pub d : ℕ
  pub e : ℕ

-- `f` and `k` of a round.
unfoldable pub round_f : ℕ → Sha1State → ℕ
round_f i s =
    if ltb i 20
    then bit_or (bit_and s.b s.c) (bit_and (complement s.b) s.d)
    else if ltb i 40
    then bit_xor (bit_xor s.b s.c) s.d
    else if ltb i 60
    then bit_or (bit_or (bit_and s.b s.c) (bit_and s.b s.d)) (bit_and s.c s.d)
    else bit_xor (bit_xor s.b s.c) s.d

unfoldable pub round_k : ℕ → ℕ
round_k i =
    if ltb i 20
    then 0x5A827999
    else if ltb i 40
    then 0x6ED9EBA1
    else if ltb i 60
    then 0x8F1BBCDC
    else 0xCA62C1D6

unfoldable pub round : ℕ → ℕ → Sha1State → Sha1State
round i w s = record {
  a = (left_rotate s.a 5 + round_f i s + s.e + round_k i + w) % 2 ^ 32;
  b = s.a;
  c = left_rotate s.b 30;
  d = s.c;
  e = s.d;
}

-- The rounds from `i` on, over the words that are left.
unfoldable pub rounds : ℕ → List ℕ → Sha1State → Sha1State
rounds i [] s = s
rounds i (w ∷ ws) s = rounds (i + 1) ws (round i w s)

unfoldable pub reversed : List ℕ → List ℕ → List ℕ
reversed [] acc = acc
reversed (x ∷ xs) acc = reversed xs (x ∷ acc)

unfoldable pub add_state : Sha1State → Sha1State → Sha1State
add_state h s = record {
  a = (h.a + s.a) % 2 ^ 32;
  b = (h.b + s.b) % 2 ^ 32;
  c = (h.c + s.c) % 2 ^ 32;
  d = (h.d + s.d) % 2 ^ 32;
  e = (h.e + s.e) % 2 ^ 32;
}

-- The loop over a number of chunks.
unfoldable pub chunks : ℕ → Text → Sha1State → Sha1State
chunks zero msg h = h
chunks (suc n) msg h =
    chunks n (drop 64 msg)
      (add_state h (rounds 0 (reversed (extend 64 (load 16 (take 64 msg) [])) []) h))

unfoldable pub initial_state : Sha1State
initial_state = record {
  a = 0x67452301;
  b = 0xEFCDAB89;
  c = 0x98BADCFE;
  d = 0x10325476;
  e = 0xC3D2E1F0;
}

unfoldable pub digest : Sha1State → Text
digest s =
    length_bytes 4 s.a
    ++ (length_bytes 4 s.b ++ (length_bytes 4 s.c ++ (length_bytes 4 s.d ++ length_bytes 4 s.e)))

unfoldable pub sha1 : Text → Text
sha1 input = digest (chunks (length (padded input) / 64) (padded input) initial_state)

abbrev pub b64_chars : Text
b64_chars = codes "ABCDEFGHIJKLMNOPQRSTUVWXYZabcdefghijklmnopqrstuvwxyz0123456789+/"

unfoldable pub b64_char : ℕ → ℕ
b64_char i = get_or b64_chars i 0

-- Three bytes at a time; one or two that are left are padded.
unfoldable pub base64_encode : Text → Text
base64_encode [] = []
base64_encode (x ∷ []) = b64_char (x / 4) ∷ b64_char (x % 4 * 16) ∷ b'=' ∷ b'=' ∷ []
base64_encode (x ∷ y ∷ []) =
    b64_char (x / 4) ∷ b64_char (x % 4 * 16 + y / 16) ∷ b64_char (y % 16 * 4) ∷ b'=' ∷ []
base64_encode (x ∷ y ∷ z ∷ data_left) =
    b64_char (x / 4)
    ∷ b64_char (x % 4 * 16 + y / 16)
    ∷ b64_char (y % 16 * 4 + z / 64)
    ∷ b64_char (z % 64)
    ∷ base64_encode data_left
