-- ===== src/Topic/Levels/Steps.antt =====
-- The matching loop of include/apr/mqtt_topic.hpp over one level of a filter and of a topic.
use lightapr.Prelude.{
  ℕ, zero, suc, ◌+◌, ◌-◌, ◌≤◌, ◌≡◌, ◌≢◌, refl, ◌∙◌, Bool, true, false, ◌&&◌, List, [], ◌∷◌, ◌++◌,
  length, length-append, arith, if◌then◌else◌,
}
use lightapr.Prelude.Text.{Text, codes, text_eq, empty}
use lightapr.Topic.{skip_level, at_end, match_loop}
use lightapr.Topic.Matching.{Literal, match_loop-Literal, skip_level-append}
use lightapr.Topic.Levels.{Level, word, one, join, filter_levels, NoSlash, IsLevel, IsTopic}

-- A word against a level, with more of both behind.
word_level :
    (a t p s : Text) (fuel : ℕ)
    → Literal a
    → NoSlash a
    → NoSlash t
    → match_loop (length a + suc fuel) (a ++ (b'/' ∷ p)) (t ++ (b'/' ∷ s))
      ≡ (if text_eq a t then match_loop fuel p s else false)
unfolding match_loop text_eq
word_level [] [] p s fuel l n m = let e : 0 + suc fuel ≡ suc fuel = omega arith in rw e refl
word_level [] (d ∷ t) p s fuel l n m =
    let e : 0 + suc fuel ≡ suc fuel = omega arith in rw e (ground (arith, m.0))
word_level (c ∷ a) [] p s fuel l n m =
    let e : suc (length a) + suc fuel ≡ suc (length a + suc fuel) = omega arith in
    rw e (ground (arith, l.0.0, l.0.1, n.0))
word_level (c ∷ a) (d ∷ t) p s fuel l n m =
    let e : suc (length a) + suc fuel ≡ suc (length a + suc fuel) = omega arith in
    rw e (ground (arith, l.0.0, l.0.1, word_level a t p s fuel l.1 n.1 m.1))

-- A word that ends the filter, with more of the topic behind.
pub word_short :
    (a t s : Text) (fuel : ℕ)
    → Literal a
    → NoSlash a
    → length a ≤ fuel
    → match_loop fuel a (t ++ (b'/' ∷ s)) ≡ false
unfolding text_eq
word_short a t s fuel l n h = match_loop-Literal a (t ++ (b'/' ∷ s)) fuel l h ∙ differ a t n
  where
    differ : (a t : Text) → NoSlash a → text_eq a (t ++ (b'/' ∷ s)) ≡ false
    differ [] [] n = refl
    differ [] (d ∷ t) n = refl
    differ (c ∷ a) [] n = ground (arith, n.0)
    differ (c ∷ a) (d ∷ t) n = ground (arith, differ a t n.1)

-- A level that ends the topic, with more of the filter behind.
word_long :
    (a t p : Text) (fuel : ℕ)
    → Literal a
    → NoSlash a
    → NoSlash t
    → match_loop (length a + suc fuel) (a ++ (b'/' ∷ p)) t ≡ false
unfolding match_loop at_end text_eq
word_long [] [] p fuel l n m = let e : 0 + suc fuel ≡ suc fuel = omega arith in rw e refl
word_long [] (d ∷ t) p fuel l n m =
    let e : 0 + suc fuel ≡ suc fuel = omega arith in rw e (ground (arith, m.0))
word_long (c ∷ a) [] p fuel l n m =
    let e : suc (length a) + suc fuel ≡ suc (length a + suc fuel) = omega arith in
    rw e (ground (arith, l.0.0))
word_long (c ∷ a) (d ∷ t) p fuel l n m =
    let e : suc (length a) + suc fuel ≡ suc (length a + suc fuel) = omega arith in
    rw e (ground (arith, l.0.0, l.0.1, word_long a t p fuel l.1 n.1 m.1))

skip_level_all : (t : Text) → NoSlash t → skip_level t ≡ []
unfolding skip_level
skip_level_all [] m = refl
skip_level_all (c ∷ t) m = ground (arith, m.0, skip_level_all t m.1)

-- The loop with one of the texts used up.
no_pattern : (s : Text) (fuel : ℕ) → match_loop fuel [] s ≡ empty s
unfolding match_loop at_end text_eq
no_pattern [] zero = refl
no_pattern [] (suc fuel) = refl
no_pattern (c ∷ s) zero = refl
no_pattern (c ∷ s) (suc fuel) = refl

no_topic : (p : Text) (fuel : ℕ) → match_loop fuel p [] ≡ at_end p []
unfolding match_loop
no_topic p zero = refl
no_topic [] (suc fuel) = refl
no_topic (c ∷ p) (suc fuel) = refl

one_level :
    (t p s : Text) (fuel : ℕ)
    → NoSlash t
    → match_loop (suc fuel) (b'+' ∷ b'/' ∷ p) (t ++ (b'/' ∷ s)) ≡ match_loop fuel p s
unfolding match_loop skip_level
one_level [] p s fuel m = refl
one_level (c ∷ t) p s fuel m = rw (skip_level-append (c ∷ t) s m) refl

pub one_last :
    (t : Text) (fuel : ℕ) → NoSlash t → t ≢ [] → match_loop (suc fuel) (b'+' ∷ []) t ≡ true
unfolding match_loop skip_level
one_last [] fuel m full = absurd (full refl)
one_last (c ∷ t) fuel m full = rw (skip_level_all (c ∷ t) m) (no_pattern [] fuel)

pub one_short :
    (t s : Text) (fuel : ℕ)
    → NoSlash t
    → empty s ≡ false
    → match_loop (suc fuel) (b'+' ∷ []) (t ++ (b'/' ∷ s)) ≡ false
unfolding match_loop skip_level
one_short [] s fuel m full = no_pattern s fuel ∙ full
one_short (c ∷ t) s fuel m full = rw (skip_level-append (c ∷ t) s m) (no_pattern s fuel ∙ full)

pub one_long :
    (t p : Text) (fuel : ℕ)
    → NoSlash t
    → t ≢ []
    → at_end p [] ≡ false
    → match_loop (suc fuel) (b'+' ∷ b'/' ∷ p) t ≡ false
unfolding match_loop skip_level
one_long [] p fuel m full more = absurd (full refl)
one_long (c ∷ t) p fuel m full more = rw (skip_level_all (c ∷ t) m) (no_topic p fuel ∙ more)

pub hash_all : (x : Text) (fuel : ℕ) → match_loop (suc fuel) (codes "#") x ≡ true
unfolding match_loop at_end text_eq
hash_all [] fuel = refl
hash_all (c ∷ x) fuel = refl

pub topic_full : (ts : List Text) → IsTopic ts → empty (join ts) ≡ false
topic_full [] m = elim m [ ]
topic_full ([] ∷ []) m = absurd (m.1 refl)
topic_full ((c ∷ t) ∷ []) m = refl
topic_full ([] ∷ u ∷ ts) m = refl
topic_full ((c ∷ t) ∷ u ∷ ts) m = refl

-- The levels that are left of a filter without '#' do not end it.
pub levels_left :
    (l : Level) (ls : List Level)
    → IsLevel l
    → at_end (join (filter_levels (l ∷ ls) false)) [] ≡ false
unfolding at_end text_eq
levels_left one [] w = refl
levels_left one (k ∷ ls) w = refl
levels_left (word []) ls w = absurd (w.2 refl)
levels_left (word (c ∷ a)) [] w = ground (arith, w.0.0.0)
levels_left (word (c ∷ a)) (k ∷ ls) w = ground (arith, w.0.0.0)

-- The steps with any fuel that is enough.
pub word_step :
    (a t p s : Text) (r : Bool) (fuel : ℕ)
    → Literal a
    → NoSlash a
    → NoSlash t
    → length (a ++ (b'/' ∷ p)) ≤ fuel
    → ((f : ℕ) → length p ≤ f → match_loop f p s ≡ r)
    → match_loop fuel (a ++ (b'/' ∷ p)) (t ++ (b'/' ∷ s)) ≡ (text_eq a t && r)
word_step a t p s r fuel l n m h ih =
    let size = length-append a (b'/' ∷ p) in
    let f = fuel - length a - 1 in
    let e : fuel ≡ length a + suc f = omega (arith, size) in
    rw e (word_level a t p s f l n m ∙ ground (arith, ih f (omega (arith, size))))

pub word_step_long :
    (a t p : Text) (fuel : ℕ)
    → Literal a
    → NoSlash a
    → NoSlash t
    → length (a ++ (b'/' ∷ p)) ≤ fuel
    → match_loop fuel (a ++ (b'/' ∷ p)) t ≡ false
word_step_long a t p fuel l n m h =
    let size = length-append a (b'/' ∷ p) in
    let f = fuel - length a - 1 in
    let e : fuel ≡ length a + suc f = omega (arith, size) in rw e (word_long a t p f l n m)

pub one_step :
    (t p s : Text) (r : Bool) (fuel : ℕ)
    → NoSlash t
    → length p + 2 ≤ fuel
    → ((f : ℕ) → length p ≤ f → match_loop f p s ≡ r)
    → match_loop fuel (b'+' ∷ b'/' ∷ p) (t ++ (b'/' ∷ s)) ≡ r
one_step t p s r zero m h ih = absurd (omega arith)
one_step t p s r (suc f) m h ih = one_level t p s f m ∙ ih f (omega arith)

pub and_false : (b : Bool) → (b && false) ≡ false
and_false b = ground arith

pub and_true : (b : Bool) → (b && true) ≡ b
and_true b = ground arith
