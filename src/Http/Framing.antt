-- ===== src/Http/Framing.antt =====
-- The framing of requests by src/http/http_parsing.cpp.
use lightapr.Prelude.{
  ℕ, zero, suc, ◌+◌, ◌-◌, ◌%◌, ◌^◌, ◌≤◌, ◌<◌, ◌≡◌, refl, sym, ap, ◌∙◌, true, Option, none, some, [],
  ◌∷◌, ◌++◌, ltb, length, take, drop, inl, inr, Bool-cases, Option-cases, length-take,
  take-append_le, take-append_ge, take-append-drop, take-append, length-append, append_assoc, arith,
  if◌then◌else◌,
}
use native.Mathlib.Nat.{mod-eq_of_lt}
use lightapr.Prelude.Text.{Text}
use lightapr.Http.{
  pieces, starts_with, find, content_length_of, header_end_mark, find_request_boundary,
}

starts_with-append : (p s t : Text) → length p ≤ length s → starts_with p (s ++ t) ≡ starts_with p s
unfolding starts_with
starts_with-append [] s t h = refl
starts_with-append (x ∷ p) [] t h = absurd (omega arith)
starts_with-append (x ∷ p) (y ∷ s) t h = rw (starts_with-append p s t (omega arith)) refl

starts_with-length : (p s : Text) → starts_with p s ≡ true → length p ≤ length s
unfolding starts_with
starts_with-length [] s h = omega arith
starts_with-length (x ∷ p) [] h = cc
starts_with-length (x ∷ p) (y ∷ s) h = ground (arith, starts_with-length p s)

find-InText : (p s : Text) (i : ℕ) → find p s ≡ some i → i + length p ≤ length s
unfolding find
find-InText p [] i h = ground (arith, starts_with-length p [])
find-InText p (x ∷ s) zero h = ground (arith, starts_with-length p (x ∷ s))
find-InText p (x ∷ s) (suc i) h = ground (arith, find-InText p s i)

-- What is found stays where it is when more bytes come.
find-append : (p s t : Text) (i : ℕ) → find p s ≡ some i → find p (s ++ t) ≡ some i
unfolding find starts_with
find-append [] [] [] i h = h
find-append [] [] (y ∷ t) i h = h
find-append [] (x ∷ s) t i h = h
find-append (x ∷ p) [] t i h = cc
find-append (z ∷ p) (x ∷ s) t zero h =
    ground (arith, find-InText (z ∷ p) (x ∷ s) zero h, starts_with-append p s t)
find-append (z ∷ p) (x ∷ s) t (suc i) h = ground (
  arith,
  find-InText (z ∷ p) (x ∷ s) (suc i) h,
  starts_with-append p s t,
  find-append (z ∷ p) s t i,
)

-- The answer for a header block, where it ends, and the bytes that there are.
abbrev framed : ℕ → Text → ℕ → Option ℕ
framed header_end header_block size =
    let total = (header_end + 4 + content_length_of (pieces 10 header_block) 0) % 2 ^ 64 in
    if ltb size total then none else some total

boundary_at :
    (b : Text) (i : ℕ)
    → find header_end_mark b ≡ some i
    → find_request_boundary b ≡ framed i (take i b) (length b)
unfolding find_request_boundary
boundary_at b i h = rw (find_request_boundary, h) refl

module _ (head : Text)
    (ends : find header_end_mark (head ++ header_end_mark) ≡ some (length head)) where
  boundary_lem :
      (tail : Text)
      → let total = (length head + 4 + content_length_of (pieces 10 head) 0) % 2 ^ 64 in
        find_request_boundary (head ++ (header_end_mark ++ tail))
        ≡ (if ltb (length head + (4 + length tail)) total then none else some total)
  boundary_lem tail =
      let buffered = head ++ (header_end_mark ++ tail) in
      let found : find header_end_mark buffered ≡ some (length head) =
        ap (find header_end_mark) (sym (append_assoc head header_end_mark tail))
        ∙ find-append header_end_mark (head ++ header_end_mark) tail (length head) ends in
      boundary_at buffered (length head) found
      ∙ ap (λ h. framed (length head) h (length buffered))
          (take-append head (header_end_mark ++ tail))
      ∙ ap (λ l. framed (length head) head l)
          (length-append head (header_end_mark ++ tail)
            ∙ (let e : length head + suc (suc (suc (suc (length tail))))
                    ≡ length head + (4 + length tail) =
                  omega arith in
                e))

  -- The whole request is there, whatever follows it.
  find_request_boundary-framed :
      (body rest : Text)
      → length body ≡ content_length_of (pieces 10 head) 0
      → length head + 4 + length body < 2 ^ 64
      → find_request_boundary (head ++ (header_end_mark ++ (body ++ rest)))
        ≡ some (length head + 4 + length body)
  find_request_boundary-framed body rest announced fits =
      let total : (length head + 4 + content_length_of (pieces 10 head) 0) % 2 ^ 64
          ≡ length head + 4 + length body =
        rw (sym announced) (mod-eq_of_lt fits) in
      rw (boundary_lem (body ++ rest), total) (ground (arith, length-append body rest))

  -- With part of the body only, more bytes are waited for.
  find_request_boundary-waits :
      (part : Text)
      → length part < content_length_of (pieces 10 head) 0
      → length head + 4 + content_length_of (pieces 10 head) 0 < 2 ^ 64
      → find_request_boundary (head ++ (header_end_mark ++ part)) ≡ none
  find_request_boundary-waits part short fits =
      rw (boundary_lem part, mod-eq_of_lt fits) (ground arith)

  -- With less than a request, and the rest of it behind, more bytes are waited for.
  boundary_waits :
      (part more tail : Text)
      → part ++ more ≡ head ++ (header_end_mark ++ tail)
      → length part < length head + 4 + content_length_of (pieces 10 head) 0
      → length head + 4 + content_length_of (pieces 10 head) 0 < 2 ^ 64
      → find_request_boundary part ≡ none
  unfolding find_request_boundary
  boundary_waits part more tail whole short fits = elim (Option-cases (find header_end_mark part)) [
    | inl e ↦ rw (find_request_boundary, e) refl
    | inr (i, e) ↦
        let found : find header_end_mark (head ++ (header_end_mark ++ tail)) ≡ some (length head) =
          ap (find header_end_mark) (sym (append_assoc head header_end_mark tail))
          ∙ find-append header_end_mark (head ++ header_end_mark) tail (length head) ends in
        let there : find header_end_mark (part ++ more) ≡ some i =
          find-append header_end_mark part more i e in
        let at : i ≡ length head = cc in
        let block : take (length head) part ≡ head =
          sym (
            take-append_le (length head) part more
              (omega (arith, at, find-InText header_end_mark part i e)))
          ∙ ap (take (length head)) whole
          ∙ take-append head (header_end_mark ++ tail) in
        boundary_at part i e ∙ rw (at, block, mod-eq_of_lt fits) (ground arith)
  ]

  -- A header block up to its first empty line, with the body that its Content-Length announces,
  -- and however much of them, and of what follows, has come: with less than the request more bytes
  -- are waited for, and from then on it is taken as one request, when its length fits in a size_t.
  pub find_request_boundary-take :
      (body rest : Text) (k : ℕ)
      → length body ≡ content_length_of (pieces 10 head) 0
      → length head + 4 + length body < 2 ^ 64
      → find_request_boundary (take k (head ++ (header_end_mark ++ (body ++ rest)))) ≡ (
          if ltb k (length head + 4 + length body)
          then none
          else some (length head + 4 + length body))
  find_request_boundary-take body rest k announced fits =
      let all = head ++ (header_end_mark ++ (body ++ rest)) in
      elim (Bool-cases (ltb k (length head + 4 + length body))) [
        | inl e ↦
            let lt : k < length head + 4 + length body = ground (arith, e) in
            rw e (
              boundary_waits (take k all) (drop k all) (body ++ rest) (take-append-drop k all)
                (omega (arith, lt, announced, length-take k all)) (omega (arith, fits, announced)))
        | inr e ↦
            let ge : length head + 4 + length body ≤ k = ground (arith, e) in
            let request = head ++ (header_end_mark ++ body) in
            let split : all ≡ request ++ rest =
              sym (append_assoc head (header_end_mark ++ body) rest) in
            let size : length request ≡ length head + 4 + length body =
              omega (arith, length-append head (header_end_mark ++ body)) in
            let here : Text = take (k - length request) rest in
            let cut : take k all ≡ head ++ (header_end_mark ++ (body ++ here)) =
              ap (take k) split
              ∙ take-append_ge k request rest (omega (arith, size, ge))
              ∙ append_assoc head (header_end_mark ++ body) here in
            rw (e, cut) (find_request_boundary-framed body here announced fits)
      ]

  -- A Content-Length that makes the sum come to 2 ^ 64 gives a request of no bytes at all.
  pub find_request_boundary-wraps :
      (tail : Text)
      → length head + 4 + content_length_of (pieces 10 head) 0 ≡ 2 ^ 64
      → find_request_boundary (head ++ (header_end_mark ++ tail)) ≡ some 0
  find_request_boundary-wraps tail wraps = rw (boundary_lem tail, wraps) (ground arith)
