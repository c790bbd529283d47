-- ===== src/Packet/Reads.antt =====
-- The reads of src/mqtt/mqtt_packet.cpp at a position whose bytes are known.
use lightapr.Prelude.{
  ℕ, ◌+◌, ◌*◌, ◌/◌, ◌%◌, ◌≤◌, ◌<◌, ◌≡◌, refl, sym, ap, ◌∙◌, ◌∷◌, ◌++◌, length, length-append,
  length-drop, drop, get_elem?, get_elem?-drop, drop-drop, drop-append, take-append, arith, some,
}
use lightapr.Prelude.Text.{Text}
use lightapr.Packet.{peek, slice, read_u8, read_u16, read_string, write_string, u16_bytes}
use lightapr.Packet.Reading.{ok}

-- The buffer from `offset` on is `rest`.
abbrev pub At : Text → ℕ → Text → Type 0
At src offset rest = drop offset src ≡ rest

-- A position with a byte lies within the buffer, with everything behind it.
pub At-length :
    (src rest : Text) (offset : ℕ)
    → At src offset rest
    → 0 < length rest
    → offset + length rest ≡ length src
At-length src rest offset h p = omega (arith, ap length h, length-drop offset src)

pub At-advance :
    (src front rest : Text) (offset : ℕ)
    → At src offset (front ++ rest)
    → At src (offset + length front) rest
At-advance src front rest offset h =
    sym (drop-drop offset (length front) src) ∙ ap (drop (length front)) h ∙ drop-append front rest

peek-At :
    (src rest : Text) (offset j b : ℕ)
    → At src offset rest
    → get_elem? rest j ≡ some b
    → peek src (offset + j) ≡ ok b
unfolding peek
peek-At src rest offset j b h e = rw (sym (get_elem?-drop src offset j), h, e)

pub peek_first :
    (src rest : Text) (offset b : ℕ) → At src offset (b ∷ rest) → peek src offset ≡ ok b
peek_first src rest offset b h =
    let e : offset + 0 ≡ offset = omega arith in rw e at (peek-At src (b ∷ rest) offset 0 b h refl)

pub slice-At :
    (src front rest : Text) (offset : ℕ)
    → At src offset (front ++ rest)
    → offset + length front ≤ length src
    → slice src offset (length front) ≡ ok front
unfolding slice
slice-At src front rest offset h le = rw (h, take-append front rest) (ground arith)

pub read_u8-At :
    (src rest : Text) (offset b : ℕ)
    → At src offset (b ∷ rest)
    → read_u8 src offset ≡ ok (b, offset + 1)
unfolding read_u8
read_u8-At src rest offset b h =
    ground (arith, At-length src (b ∷ rest) offset h, peek_first src rest offset b h)

-- The two bytes of a number below 2 ^ 16 are its quotient and remainder.
u16-bytes_lem : (n : ℕ) → n < 65536 → n / 256 % 256 * 256 + n % 256 ≡ n
u16-bytes_lem n h = omega arith

pub read_u16-At :
    (src rest : Text) (offset n : ℕ)
    → n < 65536
    → At src offset (u16_bytes n ++ rest)
    → read_u16 src offset ≡ ok (n, offset + 2)
unfolding read_u16
read_u16-At src rest offset n lt h = ground (
  arith,
  At-length src (u16_bytes n ++ rest) offset h,
  peek_first src _ offset (n / 256 % 256) h,
  peek-At src _ offset 1 (n % 256) h refl,
  u16-bytes_lem n lt,
)

-- What `write_string` wrote is read back, if its length fits 16 bits.
pub read_string-write_string :
    (src s rest : Text) (offset : ℕ)
    → length s < 65536
    → At src offset (write_string s ++ rest)
    → read_string src offset ≡ ok (s, offset + 2 + length s)
unfolding read_string write_string
read_string-write_string src s rest offset lt h = ground (
  arith,
  At-length src _ offset h,
  length-append s rest,
  peek_first src _ offset (length s % 65536 / 256 % 256) h,
  peek-At src _ offset 1 (length s % 65536 % 256) h refl,
  value,
  slice-At src s rest (offset + 2)
      (At-advance src (u16_bytes (length s % 65536)) (s ++ rest) offset h),
)
  where
    value : length s % 65536 / 256 % 256 * 256 + length s % 65536 % 256 ≡ length s
    value = omega arith

pub length-write_string : (s : Text) → length (write_string s) ≡ 2 + length s
unfolding write_string
length-write_string s = omega arith
