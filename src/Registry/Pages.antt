-- ===== src/Registry/Pages.antt =====
-- The pages of query_registry in src/core/registry.cpp.
use lightapr.Prelude.{
  ℕ, zero, suc, ◌+◌, ◌-◌, ◌*◌, ◌%◌, ◌^◌, ◌<◌, ◌≤◌, ◌≡◌, refl, sym, ap, ◌∙◌, Option, none, some,
  List, [], ◌∷◌, ◌++◌, arith, min, length, take, drop, length-drop, false, ltb, leb, Bool-cases,
  inl, inr, if◌then◌else◌,
}
use lightapr.Prelude.Text.{Text}
use lightapr.Node.{NodeInfo}
use lightapr.Registry.{Registry, matched, page_of, query_registry}

take-add {ℓ} :
    {A : Type ℓ} (a b : ℕ) (xs : List A) → take (a + b) xs ≡ take a xs ++ take b (drop a xs)
take-add zero b xs = let e : 0 + b ≡ b = omega arith in rw e
take-add (suc a) zero [] = let e : suc a + 0 ≡ suc a = omega arith in rw e
take-add (suc a) (suc b) [] = let e : suc a + suc b ≡ suc (a + suc b) = omega arith in rw e
take-add (suc a) b (x ∷ xs) =
    let e : suc a + b ≡ suc (a + b) = omega arith in rw e (ap (◌∷◌ x) (take-add a b xs))

-- As many as there are, or more.
take_enough {ℓ} : {A : Type ℓ} (n : ℕ) (xs : List A) → length xs ≤ n → take n xs ≡ xs
take_enough zero [] h = refl
take_enough zero (x ∷ xs) h = absurd (omega arith)
take_enough (suc n) [] h = refl
take_enough (suc n) (x ∷ xs) h = ap (◌∷◌ x) (take_enough n xs (omega arith))

drop_enough {ℓ} : {A : Type ℓ} (n : ℕ) (xs : List A) → length xs ≤ n → drop n xs ≡ []
drop_enough zero [] h = refl
drop_enough zero (x ∷ xs) h = absurd (omega arith)
drop_enough (suc n) [] h = refl
drop_enough (suc n) (x ∷ xs) h = drop_enough n xs (omega arith)

take-min {ℓ} :
    {A : Type ℓ} (n start : ℕ) (xs : List A)
    → start < length xs
    → take (min (start + n) (length xs) - start) (drop start xs) ≡ take n (drop start xs)
take-min n start xs h = elim (Bool-cases (leb (start + n) (length xs))) [
  | inl e ↦ let f : min (start + n) (length xs) - start ≡ n = ground (arith, e) in rw f
  | inr e ↦
      let f : min (start + n) (length xs) - start ≡ length xs - start = ground (arith, e) in
      rw f (
        take_enough (length xs - start) (drop start xs) (omega (arith, length-drop start xs))
        ∙ sym (take_enough n (drop start xs) (ground (arith, e, length-drop start xs))))
]

take_none {ℓ} : {A : Type ℓ} (n : ℕ) (xs : List A) → xs ≡ [] → take n xs ≡ []
take_none zero xs e = refl
take_none (suc n) xs e = rw e refl

suc-times : (k count : ℕ) → suc k * count ≡ k * count + count
suc-times k count = grind arith

module _ {V : Type 0} where
  page_of_lem :
      (k count : ℕ) (found : List (NodeInfo V))
      → k * count + count < 2 ^ 64
      → page_of (suc k) count found ≡ some (take count (drop (k * count) found))
  unfolding page_of
  page_of_lem k count found h =
      let e₀ : (if ltb (suc k) 1 then 1 else suc k) - 1 ≡ k = ground arith in
      let e₁ : k * count % 2 ^ 64 ≡ k * count = omega arith in
      let e₂ : (k * count + count) % 2 ^ 64 ≡ k * count + count = omega arith in
      elim (Bool-cases (leb (length found) (k * count))) [
        | inl over ↦
            rw (page_of, e₀, e₁, e₂, over)
              (ap some (
                sym (
                  take_none count (drop (k * count) found)
                    (drop_enough (k * count) found (ground (arith, over))))))
        | inr within ↦
            let not_before : ltb (min (k * count + count) (length found)) (k * count) ≡ false =
              ground (arith, within) in
            rw (page_of, e₀, e₁, e₂, within, not_before)
              (ap some (take-min count (k * count) found (ground (arith, within))))
      ]

  -- The pages 1 to k, one after the other; `none` is a page that is no range.
  unfoldable pub pages_upto : ℕ → Registry V → ℕ → ℕ → Text → Text → Option (List (NodeInfo V))
  pages_upto zero r now count role worker = some []
  pages_upto (suc k) r now count role worker = elim (pages_upto k r now count role worker) [
    | none ↦ none
    | some before ↦ elim (query_registry r now (suc k) count role worker).1 [
      | none ↦ none
      | some page ↦ some (before ++ page)
    ]
  ]

  pages_upto-take :
      (k : ℕ) (r : Registry V) (now count : ℕ) (role worker : Text)
      → k * count < 2 ^ 64
      → pages_upto k r now count role worker
        ≡ some (take (k * count) (matched now role worker r.nodes))
  unfolding pages_upto query_registry
  pages_upto-take zero r now count role worker h = let e : 0 * count ≡ 0 = omega arith in rw e
  pages_upto-take (suc k) r now count role worker h =
      let found = matched now role worker r.nodes in
      let before = pages_upto-take k r now count role worker (omega (arith, suc-times k count)) in
      let page = page_of_lem k count found (omega (arith, suc-times k count)) in
      rw (pages_upto, before, page, suc-times k count)
        (ap some (sym (take-add (k * count) count found)))

  -- The pages of a size, from the first to one that ends at the last match or behind it, are
  -- together the nodes that match the filters, each once and in the order of the registry, as long
  -- as the places do not pass 64 bits.
  pub query_registry-pages :
      (k : ℕ) (r : Registry V) (now count : ℕ) (role worker : Text)
      → k * count < 2 ^ 64
      → length (matched now role worker r.nodes) ≤ k * count
      → pages_upto k r now count role worker ≡ some (matched now role worker r.nodes)
  query_registry-pages k r now count role worker h enough =
      pages_upto-take k r now count role worker h
      ∙ ap some (take_enough (k * count) (matched now role worker r.nodes) enough)
