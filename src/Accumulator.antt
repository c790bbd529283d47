-- ===== src/Accumulator.antt =====
-- include/apr/stream_accumulator.hpp: bytes that arrive in pieces, read as one buffer. The container
-- is a list of any type; its sizes stay far below 2 ^ 64.
mod Tests
pub mod Refinement
use lightapr.Prelude.{
  ℕ, ◌+◌, ◌-◌, Bool, List, [], ◌++◌, leb, ◌==◌, if◌then◌else◌, length, drop, take,
}

pub record Accumulator {ℓ} (A : Type ℓ) : Type ℓ where
  pub buf : List A
  pub offset : ℕ

module _ {ℓ} {A : Type ℓ} where
  unfoldable pub new : Accumulator A
  new = record { buf = []; offset = 0 }

  unfoldable pub append : Accumulator A → List A → Accumulator A
  append a bytes = record a { buf = a.buf ++ bytes }

  -- `data()` and `size()` together: the bytes that a consumer sees.
  unfoldable pub view : Accumulator A → List A
  view a = drop a.offset a.buf

  unfoldable pub size : Accumulator A → ℕ
  size a = length a.buf - a.offset

  unfoldable pub is_empty : Accumulator A → Bool
  unfolding size
  is_empty a = size a == 0

  unfoldable pub consume : Accumulator A → ℕ → Accumulator A
  consume a n = record a { offset = a.offset + n }

  unfoldable pub compact_if_needed : ℕ → Accumulator A → Accumulator A
  compact_if_needed threshold a =
      if a.offset == 0
      then a
      else if a.offset == length a.buf
      then record { buf = []; offset = 0 }
      else if leb threshold a.offset
      then record { buf = drop a.offset a.buf; offset = 0 }
      else a

  unfoldable pub total_capacity : Accumulator A → ℕ
  total_capacity a = length a.buf

  unfoldable pub clear : Accumulator A → Accumulator A
  clear a = record { buf = []; offset = 0 }

-- The default argument of compact_if_needed.
abbrev pub default_threshold : ℕ
default_threshold = 4096
