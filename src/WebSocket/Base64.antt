-- ===== src/WebSocket/Base64.antt =====
-- The padding of sha1 and the decoding of base64_encode of src/mqtt/websocket_codec.cpp.
use lightapr.Prelude.{
  ℕ, zero, suc, ◌+◌, ◌-◌, ◌&&◌, leb, ◌*◌, ◌/◌, ◌%◌, ◌^◌, ◌<◌, ◌≡◌, refl, ap, false, [], ◌∷◌, ◌++◌,
  ◌==◌, if◌then◌else◌, length, replicate, arith, length-append, All,
}
use lightapr.Prelude.Text.{Text, IsByte}
use lightapr.Prelude.Bits.{same_below, same_below→eq}
use lightapr.WebSocket.{length_bytes}
use lightapr.WebSocket.Digest.{zeros, padded, b64_char, base64_encode}

length-replicate : (n a : ℕ) → length (replicate n a) ≡ n
length-replicate zero a = refl
length-replicate (suc n) a = ap suc (length-replicate n a)

-- The padded message is whole chunks of 64 bytes.
pub length-padded : (input : Text) → length (padded input) % 64 ≡ 0
unfolding padded zeros length_bytes
length-padded input =
    let z = zeros (length input + 1) in
    let tail = replicate z 0 ++ length_bytes 8 (length input * 8 % 2 ^ 64) in
    let size : length (input ++ (0x80 ∷ tail)) ≡ length input + (1 + (z + 8)) = omega (
      arith,
      length-append input (0x80 ∷ tail),
      length-append (replicate z 0) (length_bytes 8 (length input * 8 % 2 ^ 64)),
      length-replicate z 0,
    ) in
    ground (arith, size)

-- The value of a character by the table of RFC 4648: A to Z, a to z, 0 to 9, '+' and '/'.
unfoldable pub b64_value : ℕ → ℕ
b64_value c =
    if leb b'A' c && leb c b'Z'
    then c - 65
    else if leb b'a' c && leb c b'z'
    then c - 71
    else if leb b'0' c && leb c b'9'
    then c + 4
    else if c == b'+'
    then 62
    else if c == b'/'
    then 63
    else 64

-- A decoder by RFC 4648, of well-formed texts.
unfoldable pub base64_decode : Text → Text
base64_decode (p ∷ q ∷ r ∷ s ∷ rest) =
    let more = base64_decode rest in
    let x = b64_value p * 4 + b64_value q / 16 in
    let y = b64_value q % 16 * 16 + b64_value r / 4 in
    let z = b64_value r % 4 * 64 + b64_value s in
    if r == b'=' then x ∷ [] else if s == b'=' then x ∷ y ∷ [] else x ∷ y ∷ z ∷ more
base64_decode [] = []
base64_decode (p ∷ []) = []
base64_decode (p ∷ q ∷ []) = []
base64_decode (p ∷ q ∷ r ∷ []) = []

b64_value-b64_char : (i : ℕ) → i < 64 → b64_value (b64_char i) ≡ i
unfolding same_below b64_value b64_char
b64_value-b64_char = same_below→eq _ _ 64 refl

pad_flag : ℕ → ℕ
pad_flag i = if b64_char i == b'=' then 1 else 0

no_padding : (i : ℕ) → i < 64 → pad_flag i ≡ 0
unfolding same_below b64_char pad_flag
no_padding = same_below→eq _ (λ i. 0) 64 refl

b64_char_pad : (i : ℕ) → i < 64 → (b64_char i == b'=') ≡ false
unfolding pad_flag
b64_char_pad i h = ground (arith, no_padding i h)

-- The two sixes of bits that hold a byte.
first_byte :
    (x u : ℕ)
    → x < 256
    → u < 64
    → u / 16 ≡ x % 4
    → b64_value (b64_char (x / 4)) * 4 + b64_value (b64_char u) / 16 ≡ x
first_byte x u h k e =
    rw (b64_value-b64_char (x / 4) (omega arith), b64_value-b64_char u k) (omega arith)

second_byte :
    (u x v : ℕ)
    → u < 64
    → u % 16 ≡ x / 16
    → v < 64
    → v / 4 ≡ x % 16
    → b64_value (b64_char u) % 16 * 16 + b64_value (b64_char v) / 4 ≡ x
second_byte u x v h e k d = rw (b64_value-b64_char u h, b64_value-b64_char v k) (omega arith)

third_byte :
    (u x : ℕ)
    → u < 64
    → u % 4 ≡ x / 64
    → b64_value (b64_char u) % 4 * 64 + b64_value (b64_char (x % 64)) ≡ x
third_byte u x h e =
    rw (b64_value-b64_char u h, b64_value-b64_char (x % 64) (omega arith)) (omega arith)

-- What base64_encode writes of any bytes, a decoder with the table of RFC 4648 reads back, padding
-- included.
pub base64_decode-base64_encode :
    (bytes : Text) → All IsByte bytes → base64_decode (base64_encode bytes) ≡ bytes
unfolding base64_decode base64_encode
base64_decode-base64_encode [] h = refl
base64_decode-base64_encode (x ∷ []) h =
    rw (first_byte x (x % 4 * 16) h.0 (omega arith) (omega arith)) refl
base64_decode-base64_encode (x ∷ y ∷ []) h =
    rw
      (
        b64_char_pad (y % 16 * 4) (omega arith),
        first_byte x (x % 4 * 16 + y / 16) h.0 (omega (arith, h.1.0)) (omega (arith, h.1.0)),
        second_byte (x % 4 * 16 + y / 16) y (y % 16 * 4) (omega (arith, h.1.0))
            (omega (arith, h.1.0)) (omega arith) (omega arith),
      )
      refl
base64_decode-base64_encode (x ∷ y ∷ z ∷ bytes) h =
    rw
      (
        b64_char_pad (y % 16 * 4 + z / 64) (omega (arith, h.1.1.0)),
        b64_char_pad (z % 64) (omega arith),
        first_byte x (x % 4 * 16 + y / 16) h.0 (omega (arith, h.1.0)) (omega (arith, h.1.0)),
        second_byte (x % 4 * 16 + y / 16) y (y % 16 * 4 + z / 64) (omega (arith, h.1.0))
            (omega (arith, h.1.0)) (omega (arith, h.1.1.0)) (omega (arith, h.1.1.0)),
        third_byte (y % 16 * 4 + z / 64) z (omega (arith, h.1.1.0)) (omega (arith, h.1.1.0)),
        base64_decode-base64_encode bytes h.1.1.1,
      )
      refl
