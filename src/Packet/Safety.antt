-- ===== src/Packet/Safety.antt =====
-- No decoder of src/mqtt/mqtt_packet.cpp reads outside its buffer, whatever the bytes are.
use lightapr.Prelude.{
  ℕ, zero, suc, ◌+◌, ◌-◌, ◌≤◌, ◌<◌, ◌≡◌, refl, List, [], ◌∷◌, ◌++◌, length, arith, Bool, true,
  false, not, if◌then◌else◌, leb, ltb, ◌||◌, get_elem?_lt, drop,
}
use lightapr.Prelude.Text.{Text, codes, text_eq}
use lightapr.Packet.{
  decode_length_loop, decode_remaining_length, peek, slice, read_u8, read_u16, read_string,
  decode_header, skip_will, optional_string, optional_u16, subscribe_loop, decode_connect,
  decode_publish, decode_subscribe,
}
use lightapr.Packet.Reading.{Outcome, ok, IsSound, value, failure, >>=-IsSound, require, ◌>>◌}

leb→le : (a b : ℕ) → leb a b ≡ true → a ≤ b
leb→le a b h = ground arith

not-ltb→le : (a b : ℕ) → not (ltb a b) ≡ true → b ≤ a
not-ltb→le a b h = ground arith

if-IsSound {ℓ} :
    {A : Type ℓ} (b : Bool) {x y : Outcome A} → IsSound x → IsSound y → IsSound (if b then x else y)
if-IsSound true h k = h
if-IsSound false h k = k

length_loop-IsSound : (src : Text) (m v r : ℕ) → IsSound (decode_length_loop src m v r)
unfolding decode_length_loop
length_loop-IsSound [] m v r = failure
length_loop-IsSound (b ∷ bs) m v r =
    if-IsSound _ failure (if-IsSound _ (value _) (length_loop-IsSound bs _ _ _))

peek-IsSound : (src : Text) (i : ℕ) → i < length src → IsSound (peek src i)
unfolding peek
peek-IsSound src i h = let (b, e) = get_elem?_lt src i h in rw e (value b)

slice-IsSound : (src : Text) (i n : ℕ) → i + n ≤ length src → IsSound (slice src i n)
unfolding slice
slice-IsSound src i n h = let e : ltb (length src) (i + n) ≡ false = ground arith in rw e (value _)

required {ℓ} :
    {A : Type ℓ} (b : Bool) (k : Outcome A) → (b ≡ true → IsSound k) → IsSound (require b >> k)
required true k h = h refl
required false k h = failure

-- A guarded read of `n` bytes or more.
guarded {ℓ} :
    {A : Type ℓ} (a b : ℕ) (k : Outcome A) → (a ≤ b → IsSound k) → IsSound (require (leb a b) >> k)
guarded a b k h = required _ _ (λ e. h (leb→le a b e))

read_u8-IsSound : (src : Text) (offset : ℕ) → IsSound (read_u8 src offset)
unfolding read_u8
read_u8-IsSound src offset =
    guarded (offset + 1) (length src) _
      λ h. >>=-IsSound _ _ (peek-IsSound src offset (omega arith)) (λ b e. value _)

read_u16-IsSound : (src : Text) (offset : ℕ) → IsSound (read_u16 src offset)
unfolding read_u16
read_u16-IsSound src offset = guarded (offset + 2) (length src) _ λ h.
    >>=-IsSound _ _ (peek-IsSound src offset (omega arith))
      λ hi e. >>=-IsSound _ _ (peek-IsSound src (offset + 1) (omega arith)) (λ lo e'. value _)

read_string-IsSound : (src : Text) (offset : ℕ) → IsSound (read_string src offset)
unfolding read_string
read_string-IsSound src offset = guarded (offset + 2) (length src) _ λ h.
    >>=-IsSound _ _ (peek-IsSound src offset (omega arith)) λ hi e.
      >>=-IsSound _ _ (peek-IsSound src (offset + 1) (omega arith))
        λ lo e'. guarded _ _ _ λ le. >>=-IsSound _ _ (slice-IsSound src _ _ le) (λ s e''. value _)

-- A string that was read ends within the buffer, two bytes at least behind its start.
read_string_bounds :
    (src s : Text) (offset next : ℕ)
    → read_string src offset ≡ ok (s, next)
    → (offset + 2 ≤ next) × (next ≤ length src)
unfolding read_string peek slice
read_string_bounds src s offset next h = ground arith

read_u8_bounds :
    (src : Text) (offset next b : ℕ)
    → read_u8 src offset ≡ ok (b, next)
    → (next ≡ offset + 1) × (next ≤ length src)
unfolding read_u8 peek
read_u8_bounds src offset next b h = ground arith

remaining_length-IsSound : (src : Text) → IsSound (decode_remaining_length src)
unfolding decode_remaining_length
remaining_length-IsSound src = length_loop-IsSound src 1 0 0

decode_header-IsSound : (src : Text) → IsSound (decode_header src)
unfolding decode_header
decode_header-IsSound src = guarded 2 (length src) _ λ h.
    >>=-IsSound _ _ (remaining_length-IsSound (drop 1 src))
      λ r e. required (not (ltb (length src) (1 + r.1 + r.0))) (ok (r.0, 1 + r.1)) (λ g. value _)

-- The packet that a header announces ends within the buffer.
decode_header_bounds :
    (src : Text) (rem_len start : ℕ)
    → decode_header src ≡ ok (rem_len, start)
    → (start + rem_len ≤ length src) × (2 ≤ length src)
unfolding decode_header
decode_header_bounds src rem_len start h = ground arith

skip_will-IsSound : (b : Bool) (src : Text) (offset : ℕ) → IsSound (skip_will b src offset)
unfolding skip_will
skip_will-IsSound false src offset = value _
skip_will-IsSound true src offset =
    >>=-IsSound _ _ (read_string-IsSound src offset)
      λ a e. >>=-IsSound _ _ (read_string-IsSound src a.1) (λ b e'. value _)

optional_string-IsSound :
    (b : Bool) (src : Text) (offset : ℕ) → IsSound (optional_string b src offset)
unfolding optional_string
optional_string-IsSound false src offset = value _
optional_string-IsSound true src offset = read_string-IsSound src offset

optional_u16-IsSound : (b : Bool) (src : Text) (offset : ℕ) → IsSound (optional_u16 b src offset)
unfolding optional_u16
optional_u16-IsSound false src offset = value _
optional_u16-IsSound true src offset = read_u16-IsSound src offset

connect-IsSound : (src : Text) → IsSound (decode_connect src)
unfolding decode_connect
connect-IsSound src = >>=-IsSound _ _ (decode_header-IsSound src) λ h e.
    >>=-IsSound _ _ (read_string-IsSound src h.1) λ p e.
      required (text_eq p.0 (codes "MQTT") || text_eq p.0 (codes "MQIsdp")) _ λ g.
        >>=-IsSound _ _ (read_u8-IsSound src p.1) λ l e.
          >>=-IsSound _ _ (read_u8-IsSound src l.1) λ f e.
            >>=-IsSound _ _ (read_u16-IsSound src f.1) λ k e.
              >>=-IsSound _ _ (read_string-IsSound src k.1) λ c e.
                >>=-IsSound _ _ (skip_will-IsSound _ src c.1) λ w e.
                  >>=-IsSound _ _ (optional_string-IsSound _ src w)
                    λ n e. >>=-IsSound _ _ (optional_string-IsSound _ src n.1) (λ q e. value _)

publish-IsSound : (src : Text) → IsSound (decode_publish src)
unfolding decode_publish
publish-IsSound src = >>=-IsSound _ _ (decode_header-IsSound src) λ h eh.
    >>=-IsSound _ _ (peek-IsSound src 0 (omega (arith, decode_header_bounds src h.0 h.1 eh)))
      λ b e'. >>=-IsSound _ _ (read_string-IsSound src h.1) λ t e.
        >>=-IsSound _ _ (optional_u16-IsSound _ src t.1) λ i e.
          required (not (ltb (h.1 + h.0) i.1)) _ λ g.
            >>=-IsSound _ _
              (slice-IsSound src i.1 (h.1 + h.0 - i.1)
                (omega (arith, decode_header_bounds src h.0 h.1 eh, not-ltb→le _ _ g)))
              (λ p e. value _)

-- With fuel above the bytes left, the loop of `decode_subscribe` is not cut off.
subscribe_loop-IsSound :
    (fuel : ℕ) (src : Text) (offset end_offset : ℕ) (topics : List Text)
    → offset ≤ length src
    → length src < fuel + offset
    → IsSound (subscribe_loop fuel src offset end_offset topics)
unfolding subscribe_loop
subscribe_loop-IsSound zero src offset end_offset topics le lt = absurd (omega arith)
subscribe_loop-IsSound (suc fuel) src offset end_offset topics le lt =
    if-IsSound _
      (>>=-IsSound _ _ (read_string-IsSound src offset) λ t e.
        >>=-IsSound _ _ (read_u8-IsSound src t.1) λ q e'.
          subscribe_loop-IsSound fuel src q.1 end_offset (topics ++ (t.0 ∷ []))
            (omega (arith, read_u8_bounds src t.1 q.1 q.0 e'))
            (omega
              (arith, read_string_bounds src t.0 offset t.1 e, read_u8_bounds src t.1 q.1 q.0 e')))
      (value topics)

read_u16_bounds :
    (src : Text) (offset next v : ℕ) → read_u16 src offset ≡ ok (v, next) → next ≤ length src
unfolding read_u16 peek
read_u16_bounds src offset next v h = ground arith

subscribe-IsSound : (src : Text) → IsSound (decode_subscribe src)
unfolding decode_subscribe
subscribe-IsSound src = >>=-IsSound _ _ (decode_header-IsSound src) λ h e.
    >>=-IsSound _ _ (read_u16-IsSound src h.1) λ i e'.
      >>=-IsSound _ _
        (subscribe_loop-IsSound (length src + 1) src i.1 (h.1 + h.0) []
          (read_u16_bounds src h.1 i.1 i.0 e') (omega arith))
        (λ t e. value _)

-- Whatever the bytes of the buffer are, each of the three decoders returns a packet or false: it
-- reads no byte outside the buffer, and its loops end.
pub decoders-IsSound :
    (src : Text)
    → IsSound (decode_connect src) × IsSound (decode_publish src) × IsSound (decode_subscribe src)
decoders-IsSound src = (connect-IsSound src, publish-IsSound src, subscribe-IsSound src)
