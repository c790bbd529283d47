-- ===== src/Prelude/Dict.antt =====
-- A std::unordered_map with string keys, as an association list in the order of iteration.
use mathlib.Core.Path.{◌≡◌, refl, subst₂}
use mathlib.Core.Bool.{Bool, true, false}
use mathlib.Core.Option.{Option, none, some}
use mathlib.Core.List.{List, [], ◌∷◌}
use native.Mathlib.Omega.{arith}
use lightapr.Prelude.Tests.{if◌then◌else◌, Bool-cases}
use mathlib.Core.Logic.{inl, inr}
use lightapr.Prelude.Text.{Text, text_eq, text_eq_iff, text_eq_refl}

abbrev pub Dict {ℓ} : Type ℓ → Type ℓ
Dict V = List (Text × V)

module _ {ℓ} {V : Type ℓ} where
  -- find
  unfoldable pub lookup : Text → Dict V → Option V
  lookup k [] = none
  lookup k ((j, v) ∷ m) = if text_eq j k then some v else lookup k m

  -- operator[] on the left of an assignment: replaced in place, or added.
  unfoldable pub insert : Text → V → Dict V → Dict V
  insert k v [] = (k, v) ∷ []
  insert k v ((j, w) ∷ m) = if text_eq j k then (j, v) ∷ m else (j, w) ∷ insert k v m

  -- erase by key
  unfoldable pub erase : Text → Dict V → Dict V
  erase k [] = []
  erase k ((j, w) ∷ m) = if text_eq j k then m else (j, w) ∷ erase k m

  abbrev pub contains : Text → Dict V → Bool
  contains k m = elim (lookup k m) [ none ↦ false | some v ↦ true ]

  -- The keys are distinct, as the container sees to.
  abbrev pub Distinct : Dict V → Type ℓ
  Distinct [] = Unit {ℓ}
  Distinct ((k, v) ∷ m) = (lookup k m ≡ none) × Distinct m

  pub lookup-insert :
      (k j : Text) (v : V) (m : Dict V)
      → lookup j (insert k v m) ≡ (if text_eq k j then some v else lookup j m)
  unfolding lookup insert
  lookup-insert k j v [] = refl
  lookup-insert k j v ((i, w) ∷ m) =
      ground (arith, text_eq_iff k j, text_eq_iff i k, text_eq_iff i j, lookup-insert k j v m)

  pub lookup-insert_self : (k : Text) (v : V) (m : Dict V) → lookup k (insert k v m) ≡ some v
  lookup-insert_self k v m = rw (lookup-insert k k v m, text_eq_refl k)

  pub lookup-erase_ne :
      (k j : Text) (m : Dict V) → text_eq k j ≡ false → lookup j (erase k m) ≡ lookup j m
  unfolding lookup erase
  lookup-erase_ne k j [] h = refl
  lookup-erase_ne k j ((i, w) ∷ m) h =
      ground (arith, text_eq_iff k j, text_eq_iff i k, text_eq_iff i j, lookup-erase_ne k j m)

  pub lookup-erase_self : (k : Text) (m : Dict V) → Distinct m → lookup k (erase k m) ≡ none
  unfolding lookup erase
  lookup-erase_self k [] d = refl
  lookup-erase_self k ((i, w) ∷ m) d = ground (arith, text_eq_iff i k, lookup-erase_self k m)

  pub insert-Distinct : (k : Text) (v : V) (m : Dict V) → Distinct m → Distinct (insert k v m)
  unfolding lookup insert
  insert-Distinct k v [] d = (refl, tt)
  insert-Distinct k v ((i, w) ∷ m) d =
      ground (arith, lookup-insert k i v m, text_eq_iff i k, text_eq_iff k i, insert-Distinct k v m)

  lookup-erase-none : (k j : Text) (m : Dict V) → lookup j m ≡ none → lookup j (erase k m) ≡ none
  unfolding lookup erase
  lookup-erase-none k j [] h = refl
  lookup-erase-none k j ((i, w) ∷ m) h = ground (arith, lookup-erase-none k j m)

  pub erase-Distinct : (k : Text) (m : Dict V) → Distinct m → Distinct (erase k m)
  unfolding lookup erase
  erase-Distinct k [] d = tt
  erase-Distinct k ((i, w) ∷ m) d = ground (arith, lookup-erase-none k i m, erase-Distinct k m)

  -- Every entry has the property.
  abbrev pub Entries {κ} : (Text → V → Type κ) → Dict V → Type κ
  Entries P [] = Unit {κ}
  Entries P ((k, v) ∷ m) = P k v × Entries P m

  pub insert-Entries {κ} :
      (P : Text → V → Type κ) (k : Text) (v : V) (m : Dict V)
      → P k v
      → Entries P m
      → Entries P (insert k v m)
  unfolding insert
  insert-Entries P k v [] p h = (p, tt)
  insert-Entries P k v ((j, w) ∷ m) p h = elim (Bool-cases (text_eq j k)) [
    | inl same ↦ rw same (rw ((text_eq_iff j k).0 same) p, h.1)
    | inr other ↦ rw other (h.0, insert-Entries P k v m p h.1)
  ]

  pub erase-Entries {κ} :
      (P : Text → V → Type κ) (k : Text) (m : Dict V) → Entries P m → Entries P (erase k m)
  unfolding erase
  erase-Entries P k [] h = tt
  erase-Entries P k ((j, w) ∷ m) h = elim (Bool-cases (text_eq j k)) [
    | inl same ↦ rw same h.1
    | inr other ↦ rw other (h.0, erase-Entries P k m h.1)
  ]

  some-eq : {v w : V} → some v ≡ some w → v ≡ w
  some-eq e = cc

  pub lookup-Entries {κ} :
      (P : Text → V → Type κ) (k : Text) (v : V) (m : Dict V)
      → lookup k m ≡ some v
      → Entries P m
      → P k v
  unfolding lookup
  lookup-Entries P k v [] e h = cc
  lookup-Entries P k v ((j, w) ∷ m) e h = elim (Bool-cases (text_eq j k)) [
    | inl same ↦ subst₂ P ((text_eq_iff j k).0 same) (some-eq (rw same at e)) h.0
    | inr other ↦ lookup-Entries P k v m (rw other at e) h.1
  ]

  pub Entries-of_lookup {κ} :
      (P : Text → V → Type κ) (m : Dict V)
      → Distinct m
      → ((k : Text) (v : V) → lookup k m ≡ some v → P k v)
      → Entries P m
  unfolding lookup
  Entries-of_lookup P [] d h = tt
  Entries-of_lookup P ((j, w) ∷ m) d h = (
    h j w (rw (text_eq_refl j) refl),
    Entries-of_lookup P m d.1 (λ k v e. h k v (ground (arith, text_eq_iff j k, d.0))),
  )

  pub Entries-map {κ λ₁} :
      (P : Text → V → Type κ) (Q : Text → V → Type λ₁)
      → ((k : Text) (v : V) → P k v → Q k v)
      → (m : Dict V) → Entries P m
      → Entries Q m
  Entries-map P Q f [] h = tt
  Entries-map P Q f ((j, w) ∷ m) h = (f j w h.0, Entries-map P Q f m h.1)
