-- ===== src/Prelude/Bits.antt =====
-- Masks and shifts on one byte as arithmetic; each is a table, checked by evaluation.
use Prim.Native.Nat.{ℕ, zero, suc, ◌+◌, ◌*◌, ◌/◌, ◌%◌, ◌<◌, bit_and, bit_or, bit_xor}
use mathlib.Core.Path.{◌≡◌, refl}
use mathlib.Core.Bool.{Bool, true, false}
use mathlib.Core.Logic.{inl, inr}
use native.Mathlib.Omega.{arith}
use lightapr.Prelude.Tests.{◌==◌, ==_iff, if◌then◌else◌, Bool-cases}

-- Whether two functions give the same at every argument under a bound.
unfoldable pub same_below : (ℕ → ℕ) → (ℕ → ℕ) → ℕ → Bool
same_below f g zero = true
same_below f g (suc k) = if f k == g k then same_below f g k else false

-- What the table shows, for one argument.
pub same_below→eq :
    (f g : ℕ → ℕ) (bound : ℕ) → same_below f g bound ≡ true → (i : ℕ) → i < bound → f i ≡ g i
unfolding same_below
same_below→eq f g zero table i under = absurd (omega arith)
same_below→eq f g (suc k) table i under =
    let last : (f k ≡ g k) × (same_below f g k ≡ true) = ground (arith, ==_iff (f k) (g k)) in
    elim (Bool-cases (i == k)) [
      | inl here ↦ let e : i ≡ k = (==_iff i k).0 here in rw e last.0
      | inr earlier ↦ same_below→eq f g k last.1 i (ground arith)
    ]

pub low_seven : (b : ℕ) → b < 256 → bit_and b 127 ≡ b % 128
unfolding same_below
low_seven = same_below→eq _ _ 256 refl

pub low_four : (b : ℕ) → b < 256 → bit_and b 0x0f ≡ b % 16
unfolding same_below
low_four = same_below→eq _ _ 256 refl

pub high_four : (b : ℕ) → b < 256 → bit_and b 0xf0 ≡ b / 16 * 16
unfolding same_below
high_four = same_below→eq _ _ 256 refl

pub top_bit : (b : ℕ) → b < 256 → bit_and b 128 ≡ b / 128 * 128
unfolding same_below
top_bit = same_below→eq _ _ 256 refl

pub set_top_bit : (b : ℕ) → b < 128 → bit_or b 128 ≡ b + 128
unfolding same_below
set_top_bit = same_below→eq _ _ 128 refl

-- The table of all pairs of bytes.
xor_pairs :
    same_below (λ z. bit_xor (bit_xor (z / 256) (z % 256)) (z % 256)) (λ z. z / 256) 65536 ≡ true
unfolding same_below
xor_pairs = refl

pub xor-xor : (x m : ℕ) → x < 256 → m < 256 → bit_xor (bit_xor x m) m ≡ x
xor-xor x m hx hm =
    let q : (x * 256 + m) / 256 ≡ x = omega arith in
    let r : (x * 256 + m) % 256 ≡ m = omega arith in
    rw (q, r) at (same_below→eq _ _ 65536 xor_pairs (x * 256 + m) (omega arith))
