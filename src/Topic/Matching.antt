-- ===== src/Topic/Matching.antt =====
-- What the filters of include/apr/mqtt_topic.hpp match.
use lightapr.Prelude.{
  ℕ, zero, suc, ◌+◌, ◌≤◌, ◌≡◌, ◌≢◌, refl, sym, ◌∙◌, true, Bool-cases, inl, inr, [], ◌∷◌, ◌++◌,
  length, length-append, arith, All,
}
use lightapr.Prelude.Text.{Text, codes, text_eq, text_eq_iff}
use lightapr.Topic.{skip_level, at_end, match_loop, matches}

length-skip_level : (c : ℕ) (s : Text) → length (skip_level (c ∷ s)) ≤ length s
unfolding skip_level
length-skip_level c [] = ground arith
length-skip_level c (d ∷ s) = ground (arith, length-skip_level d s)

match_loop_self : (fuel : ℕ) (p : Text) → length p ≤ fuel → match_loop fuel p p ≡ true
unfolding match_loop at_end
match_loop_self zero [] h = refl
match_loop_self zero (c ∷ p) h = absurd (omega arith)
match_loop_self (suc fuel) [] h = refl
match_loop_self (suc fuel) (c ∷ p) h = ground (
  arith,
  length-skip_level c p,
  match_loop_self fuel (skip_level (c ∷ p)),
  match_loop_self fuel p,
)

match_loop_hash : (t : Text) → match_loop 1 (codes "#") t ≡ true
unfolding match_loop at_end text_eq
match_loop_hash [] = refl
match_loop_hash (c ∷ t) = refl

-- The two tests before the loop change nothing: the loop alone decides.
pub matches-match_loop :
    (pattern topic : Text) → matches pattern topic ≡ match_loop (length pattern) pattern topic
unfolding matches
matches-match_loop pattern topic = elim (Bool-cases (text_eq pattern (codes "#"))) [
  | inl hash ↦
      let e : pattern ≡ codes "#" = (text_eq_iff pattern (codes "#")).0 hash in
      rw hash (rw e (sym (match_loop_hash topic)))
  | inr other ↦ elim (Bool-cases (text_eq pattern topic)) [
    | inl same ↦
        let e : pattern ≡ topic = (text_eq_iff pattern topic).0 same in
        rw (other, same) (rw e (sym (match_loop_self (length topic) topic (omega arith))))
    | inr differ ↦ rw (other, differ) refl
  ]
]

-- No wildcard stands in the text.
abbrev pub Literal : Text → Type 0
Literal s = All (λ c. (c ≢ b'#') × (c ≢ b'+')) s

match_loop_prefix :
    (a p t : Text) (fuel : ℕ)
    → Literal a
    → match_loop (length a + fuel) (a ++ p) (a ++ t) ≡ match_loop fuel p t
unfolding match_loop
match_loop_prefix [] p t fuel h = let e : 0 + fuel ≡ fuel = omega arith in rw e refl
match_loop_prefix (c ∷ a) p t fuel h =
    let e : length (c ∷ a) + fuel ≡ suc (length a + fuel) = omega arith in
    rw e (ground (arith, h.0.0, h.0.1, match_loop_prefix a p t fuel h.1))

pub match_loop-Literal :
    (p t : Text) (fuel : ℕ) → Literal p → length p ≤ fuel → match_loop fuel p t ≡ text_eq p t
unfolding match_loop at_end text_eq
match_loop-Literal [] [] zero h f = refl
match_loop-Literal [] [] (suc fuel) h f = refl
match_loop-Literal [] (c ∷ t) zero h f = refl
match_loop-Literal [] (c ∷ t) (suc fuel) h f = refl
match_loop-Literal (c ∷ p) t zero h f = absurd (omega arith)
match_loop-Literal (c ∷ p) [] (suc fuel) h f = ground (arith, h.0.0)
match_loop-Literal (c ∷ p) (d ∷ t) (suc fuel) h f =
    ground (arith, h.0.0, h.0.1, match_loop-Literal p t fuel h.1)

-- A filter without wildcards matches its own topic and no other.
pub matches-Literal :
    (pattern topic : Text) → Literal pattern → matches pattern topic ≡ text_eq pattern topic
matches-Literal pattern topic h =
    matches-match_loop pattern topic
    ∙ match_loop-Literal pattern topic (length pattern) h (omega arith)

pub skip_level-append :
    (level s : Text) → All (λ c. c ≢ b'/') level → skip_level (level ++ (b'/' ∷ s)) ≡ s
unfolding skip_level
skip_level-append [] s h = refl
skip_level-append (c ∷ level) s h = ground (arith, h.0, skip_level-append level s h.1)

match_loop_plus :
    (b level s : Text)
    → Literal b
    → All (λ c. c ≢ b'/') level
    → match_loop (suc (suc (length b))) (b'+' ∷ b'/' ∷ b) (level ++ (b'/' ∷ s)) ≡ text_eq b s
unfolding match_loop skip_level
match_loop_plus b [] s hb h = match_loop-Literal b s (suc (length b)) hb (omega arith)
match_loop_plus b (c ∷ level) s hb h =
    rw (skip_level-append (c ∷ level) s h)
      (match_loop-Literal b s (suc (length b)) hb (omega arith))

-- Between literals, a '+' that is a whole level matches any one level, and the rest has to be the
-- same.
matches-plus :
    (a b level s : Text)
    → Literal a
    → Literal b
    → All (λ c. c ≢ b'/') level
    → matches (a ++ (b'+' ∷ b'/' ∷ b)) (a ++ (level ++ (b'/' ∷ s))) ≡ text_eq b s
matches-plus a b level s ha hb h =
    matches-match_loop (a ++ (b'+' ∷ b'/' ∷ b)) (a ++ (level ++ (b'/' ∷ s)))
    ∙ rw (length-append a (b'+' ∷ b'/' ∷ b))
        (match_loop_prefix a (b'+' ∷ b'/' ∷ b) (level ++ (b'/' ∷ s)) (suc (suc (length b))) ha)
    ∙ match_loop_plus b level s hb h

-- After a literal, a '#' at the end matches whatever follows.
pub matches-hash : (a t : Text) → Literal a → matches (a ++ (b'#' ∷ [])) (a ++ t) ≡ true
matches-hash a t ha =
    matches-match_loop (a ++ (b'#' ∷ [])) (a ++ t)
    ∙ rw (length-append a (b'#' ∷ [])) (match_loop_prefix a (b'#' ∷ []) t 1 ha)
    ∙ match_loop_hash t
