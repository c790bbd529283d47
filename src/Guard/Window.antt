-- ===== src/Guard/Window.antt =====
-- The times of the accepted connections in the window of src/core/connection_guard.cpp.
use lightapr.Prelude.{
  ℕ, ◌+◌, ◌-◌, ◌≤◌, ◌<◌, ◌≡◌, refl, ap, List, [], ◌∷◌, ◌++◌, arith, ltb, length, if◌then◌else◌,
  Bool-cases, inl, inr, All, append_assoc,
}
use lightapr.Prelude.Text.{Text, text_eq}
use lightapr.Prelude.Dict.{Dict, insert, lookup-insert}
use lightapr.Guard.{recent_of, prune}

-- The times at which the IP was let in.
unfoldable pub times : Text → List (Text × ℕ) → List ℕ
times ip [] = []
times ip ((jp, t) ∷ log) = if text_eq jp ip then t ∷ times ip log else times ip log

-- How many of the times lie within the window that ends now.
unfoldable pub in_window : ℕ → ℕ → List ℕ → ℕ
in_window window now [] = 0
in_window window now (t ∷ ts) = (if ltb window (now - t) then 0 else 1) + in_window window now ts

abbrev pub Expired : ℕ → ℕ → List ℕ → Type 0
Expired window now ts = All (λ t. window < now - t) ts

pub in_window-append :
    (w now : ℕ) (xs ys : List ℕ)
    → in_window w now (xs ++ ys) ≡ in_window w now xs + in_window w now ys
unfolding in_window
in_window-append w now [] ys = omega arith
in_window-append w now (x ∷ xs) ys = omega (arith, in_window-append w now xs ys)

pub in_window-le : (w now : ℕ) (xs : List ℕ) → in_window w now xs ≤ length xs
unfolding in_window
in_window-le w now [] = omega arith
in_window-le w now (x ∷ xs) = ground (arith, in_window-le w now xs)

pub in_window-Expired : (w now : ℕ) (xs : List ℕ) → Expired w now xs → in_window w now xs ≡ 0
unfolding in_window
in_window-Expired w now [] h = refl
in_window-Expired w now (x ∷ xs) h = ground (arith, in_window-Expired w now xs h.1)

pub in_window_mono :
    (w clock now : ℕ) (xs : List ℕ) → clock ≤ now → in_window w now xs ≤ in_window w clock xs
unfolding in_window
in_window_mono w clock now [] h = omega arith
in_window_mono w clock now (x ∷ xs) h = ground (arith, in_window_mono w clock now xs h)

pub Expired-mono :
    (w clock now : ℕ) (xs : List ℕ) → clock ≤ now → Expired w clock xs → Expired w now xs
Expired-mono w clock now [] h e = tt
Expired-mono w clock now (x ∷ xs) h e = (omega arith, Expired-mono w clock now xs h e.1)

pub Expired-append :
    (w now : ℕ) (xs ys : List ℕ) → Expired w now xs → Expired w now ys → Expired w now (xs ++ ys)
Expired-append w now [] ys h k = k
Expired-append w now (x ∷ xs) ys h k = (h.0, Expired-append w now xs ys h.1 k)

-- `ts` is the whole list but for times that have left the window.
abbrev pub Suffix : ℕ → ℕ → List ℕ → List ℕ → Type 0
Suffix w now all ts = (old : List ℕ) × (all ≡ old ++ ts) × Expired w now old

pub prune-Suffix : (w now : ℕ) (ts : List ℕ) → Suffix w now ts (prune w now ts)
unfolding prune
prune-Suffix w now [] = ([], refl, tt)
prune-Suffix w now (t ∷ ts) = elim (Bool-cases (ltb w (now - t))) [
  | inl old ↦
      let (front, e, x) = prune-Suffix w now ts in
      rw old (t ∷ front, ap (◌∷◌ t) e, (ground arith, x))
  | inr recent ↦ rw recent ([], refl, tt)
]

pub Suffix-trans :
    (w now : ℕ) (xs ys zs : List ℕ) → Suffix w now xs ys → Suffix w now ys zs → Suffix w now xs zs
Suffix-trans w now xs ys zs (a, e, x) (b, f, y) =
    (a ++ b, rw (e, f, append_assoc a b zs), Expired-append w now a b x y)

pub Suffix-later :
    (w clock now : ℕ) (xs ys : List ℕ) → clock ≤ now → Suffix w clock xs ys → Suffix w now xs ys
Suffix-later w clock now xs ys h (a, e, x) = (a, e, Expired-mono w clock now a h x)

pub Suffix-snoc :
    (w now t : ℕ) (xs ys : List ℕ)
    → Suffix w now xs ys
    → Suffix w now (xs ++ (t ∷ [])) (ys ++ (t ∷ []))
Suffix-snoc w now t xs ys (a, e, x) = (a, rw (e, append_assoc a ys (t ∷ [])), x)

pub in_window-Suffix :
    (w now : ℕ) (xs ys : List ℕ) → Suffix w now xs ys → in_window w now xs ≤ length ys
in_window-Suffix w now xs ys (a, e, x) =
    rw (e, in_window-append w now a ys)
      (omega (arith, in_window-Expired w now a x, in_window-le w now ys))

pub recent_of-insert :
    (ip jp : Text) (ts : List ℕ) (m : Dict (List ℕ))
    → recent_of jp (insert ip ts m) ≡ (if text_eq ip jp then ts else recent_of jp m)
unfolding recent_of
recent_of-insert ip jp ts m = ground (arith, lookup-insert ip jp ts m)

pub times-snoc :
    (ip jp : Text) (t : ℕ) (log : List (Text × ℕ))
    → times jp (log ++ ((ip, t) ∷ []))
      ≡ (if text_eq ip jp then times jp log ++ (t ∷ []) else times jp log)
unfolding times
times-snoc ip jp t [] = ground arith
times-snoc ip jp t ((kp, u) ∷ log) = ground (arith, times-snoc ip jp t log)
