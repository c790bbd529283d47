-- ===== src/Accumulator/Refinement.antt =====
-- The accumulator against what it stands for, the list of the bytes not yet consumed.
use lightapr.Prelude.{
  ℕ, zero, suc, ◌+◌, ◌≤◌, ◌<◌, ◌≡◌, refl, sym, List, [], ◌∷◌, ◌++◌, length, drop, length-drop,
  length-append, drop-drop, arith,
}
use lightapr.Accumulator.{
  Accumulator, append, view, size, consume, compact_if_needed, total_capacity, clear,
}

-- What a session does with its accumulator.
pub data Op {ℓ} (A : Type ℓ) : Type ℓ where
  appends : List A → Op A
  consumes : ℕ → Op A
  compacts : ℕ → Op A
  clears : Op A

module _ {ℓ} {A : Type ℓ} where
  -- What is consumed is within what was appended.
  unfoldable pub IsValid : Accumulator A → Type 0
  IsValid a = a.offset ≤ length a.buf

  drop-append_le : (n : ℕ) (xs ys : List A) → n ≤ length xs → drop n (xs ++ ys) ≡ drop n xs ++ ys
  drop-append_le zero xs ys h = refl
  drop-append_le (suc n) [] ys h = absurd (omega arith)
  drop-append_le (suc n) (x ∷ xs) ys h = drop-append_le n xs ys (omega arith)

  drop-length : (n : ℕ) (xs : List A) → n ≡ length xs → drop n xs ≡ []
  drop-length zero [] h = refl
  drop-length zero (x ∷ xs) h = absurd (omega arith)
  drop-length (suc n) [] h = refl
  drop-length (suc n) (x ∷ xs) h = drop-length n xs (omega arith)

  view-append : (a : Accumulator A) (xs : List A) → IsValid a → view (append a xs) ≡ view a ++ xs
  unfolding view append IsValid
  view-append a xs h = drop-append_le a.offset a.buf xs h

  pub view-consume : (a : Accumulator A) (n : ℕ) → view (consume a n) ≡ drop n (view a)
  unfolding view consume
  view-consume a n = sym (drop-drop a.offset n a.buf)

  pub view-compact : (t : ℕ) (a : Accumulator A) → view (compact_if_needed t a) ≡ view a
  unfolding view compact_if_needed
  view-compact t a = ground (arith, drop-length a.offset a.buf)

  view-clear : (a : Accumulator A) → view (clear a) ≡ []
  unfolding view clear
  view-clear a = refl

  length-view : (a : Accumulator A) → length (view a) ≡ size a
  unfolding view size
  length-view a = length-drop a.offset a.buf

  -- After a compaction less than the threshold is kept of what was consumed, so the buffer is not
  -- longer than what is unread and the threshold.
  pub compact_bound :
      (t : ℕ) (a : Accumulator A)
      → IsValid a
      → 0 < t
      → total_capacity (compact_if_needed t a) < size (compact_if_needed t a) + t
  unfolding compact_if_needed total_capacity size IsValid
  compact_bound t a h p = ground (arith, length-drop a.offset a.buf)

  pub apply : Accumulator A → Op A → Accumulator A
  apply a (appends xs) = append a xs
  apply a (consumes n) = consume a n
  apply a (compacts t) = compact_if_needed t a
  apply a clears = clear a

  pub run : Accumulator A → List (Op A) → Accumulator A
  run a [] = a
  run a (o ∷ os) = run (apply a o) os

  -- The same on the list of unread bytes, where compaction does nothing.
  unfoldable pub model : List A → Op A → List A
  model xs (appends ys) = xs ++ ys
  model xs (consumes n) = drop n xs
  model xs (compacts t) = xs
  model xs clears = []

  pub run_model : List A → List (Op A) → List A
  run_model xs [] = xs
  run_model xs (o ∷ os) = run_model (model xs o) os

  -- A consumer takes no more than it sees.
  abbrev pub InView : List A → List (Op A) → Type 0
  InView xs [] = Unit {0}
  InView xs (appends ys ∷ os) = InView (model xs (appends ys)) os
  InView xs (consumes n ∷ os) = (n ≤ length xs) × InView (model xs (consumes n)) os
  InView xs (compacts t ∷ os) = InView (model xs (compacts t)) os
  InView xs (clears ∷ os) = InView (model xs clears) os

  append-IsValid : (a : Accumulator A) (xs : List A) → IsValid a → IsValid (append a xs)
  unfolding append IsValid
  append-IsValid a xs h = omega (arith, length-append a.buf xs)

  consume-IsValid :
      (a : Accumulator A) (n : ℕ) → IsValid a → n ≤ length (view a) → IsValid (consume a n)
  unfolding consume IsValid view
  consume-IsValid a n h le = omega (arith, length-drop a.offset a.buf)

  compact-IsValid : (t : ℕ) (a : Accumulator A) → IsValid a → IsValid (compact_if_needed t a)
  unfolding compact_if_needed IsValid
  compact-IsValid t a h = ground arith

  clear-IsValid : (a : Accumulator A) → IsValid (clear a)
  unfolding clear IsValid
  clear-IsValid a = omega arith

  -- Whatever a consumer appends, consumes within its view, compacts or clears, in any order, it sees
  -- the list of the bytes that were appended and not yet consumed, and the offset stays within the
  -- buffer.
  pub view-run :
      (a : Accumulator A) (os : List (Op A))
      → IsValid a
      → InView (view a) os
      → (view (run a os) ≡ run_model (view a) os) × IsValid (run a os)
  unfolding run run_model apply model
  view-run a [] h v = (refl, h)
  view-run a (appends xs ∷ os) h v =
      let e = view-append a xs h in
      rw e at (view-run (append a xs) os (append-IsValid a xs h) (rw e v))
  view-run a (consumes n ∷ os) h v =
      let e = view-consume a n in
      rw e at (view-run (consume a n) os (consume-IsValid a n h v.0) (rw e v.1))
  view-run a (compacts t ∷ os) h v =
      let e = view-compact t a in
      rw e at (view-run (compact_if_needed t a) os (compact-IsValid t a h) (rw e v))
  view-run a (clears ∷ os) h v =
      let e = view-clear a in rw e at (view-run (clear a) os (clear-IsValid a) (rw e v))
