-- ===== src/Topic/Levels/Covering.antt =====
-- The matching loop of include/apr/mqtt_topic.hpp against the levels.
use lightapr.Prelude.{
  ℕ, zero, suc, ◌≤◌, ◌≡◌, refl, sym, ◌∙◌, Bool, true, false, List, [], ◌∷◌, length, arith, All,
}
use lightapr.Prelude.Text.{Text, codes, text_eq}
use lightapr.Topic.{match_loop, matches}
use lightapr.Topic.Matching.{matches-match_loop, match_loop-Literal}
use lightapr.Topic.Levels.{Level, word, one, join, filter_levels, covers, IsLevel, IsTopic, Fits}
use lightapr.Topic.Levels.Steps.{
  word_short, topic_full, levels_left, hash_all, one_last, one_short, one_long, word_step,
  word_step_long, one_step, and_false, and_true,
}

Fits-rest :
    (l : Level) (ls : List Level) (hash : Bool) (k : Level) (t u : Text) (ts : List Text)
    → Fits (k ∷ l ∷ ls) hash (t ∷ u ∷ ts)
    → Fits (l ∷ ls) hash (u ∷ ts)
Fits-rest l ls true k t u ts f = omega (arith, f)
Fits-rest l ls false k t u ts f = λ e. cc

match_loop-covers :
    (ls : List Level) (hash : Bool) (ts : List Text) (fuel : ℕ)
    → All IsLevel ls
    → IsTopic ts
    → Fits ls hash ts
    → length (join (filter_levels ls hash)) ≤ fuel
    → match_loop fuel (join (filter_levels ls hash)) (join ts) ≡ covers ls hash ts
unfolding covers
match_loop-covers ls hash [] fuel w m f h = elim m [ ]
match_loop-covers [] true (t ∷ ts) zero w m f h = absurd (omega arith)
match_loop-covers [] true (t ∷ ts) (suc fuel) w m f h = hash_all (join (t ∷ ts)) fuel
match_loop-covers [] false (t ∷ ts) fuel w m f h = absurd (f refl)
match_loop-covers (word a ∷ []) false (t ∷ []) fuel w m f h =
    match_loop-Literal a t fuel w.0.0 h ∙ sym (and_true (text_eq a t))
match_loop-covers (word a ∷ []) false (t ∷ u ∷ ts) fuel w m f h =
    word_short a t (join (u ∷ ts)) fuel w.0.0 w.0.1 h ∙ sym (and_false (text_eq a t))
match_loop-covers (word a ∷ []) true (t ∷ []) fuel w m f h = absurd (omega arith)
match_loop-covers (word a ∷ []) true (t ∷ u ∷ ts) fuel w m f h =
    word_step a t (codes "#") (join (u ∷ ts)) true fuel w.0.0 w.0.1 m.0 h
      (λ k g. match_loop-covers [] true (u ∷ ts) k tt m.1 (omega arith) g)
match_loop-covers (word a ∷ l ∷ ls) hash (t ∷ []) fuel w m f h =
    word_step_long a t (join (filter_levels (l ∷ ls) hash)) fuel w.0.0 w.0.1 m.0 h
    ∙ sym (and_false (text_eq a t))
match_loop-covers (word a ∷ l ∷ ls) hash (t ∷ u ∷ ts) fuel w m f h =
    word_step a t (join (filter_levels (l ∷ ls) hash)) (join (u ∷ ts))
      (covers (l ∷ ls) hash (u ∷ ts)) fuel w.0.0 w.0.1 m.0 h
      (λ k g.
        match_loop-covers (l ∷ ls) hash (u ∷ ts) k w.1 m.1 (Fits-rest l ls hash (word a) t u ts f)
          g)
match_loop-covers (one ∷ []) false (t ∷ []) zero w m f h = absurd (omega arith)
match_loop-covers (one ∷ []) false (t ∷ []) (suc fuel) w m f h = one_last t fuel m.0 m.1
match_loop-covers (one ∷ []) false (t ∷ u ∷ ts) zero w m f h = absurd (omega arith)
match_loop-covers (one ∷ []) false (t ∷ u ∷ ts) (suc fuel) w m f h =
    one_short t (join (u ∷ ts)) fuel m.0 (topic_full (u ∷ ts) m.1)
match_loop-covers (one ∷ []) true (t ∷ []) fuel w m f h = absurd (omega arith)
match_loop-covers (one ∷ []) true (t ∷ u ∷ ts) fuel w m f h =
    one_step t (codes "#") (join (u ∷ ts)) true fuel m.0 (omega arith)
      (λ k g. match_loop-covers [] true (u ∷ ts) k tt m.1 (omega arith) g)
match_loop-covers (one ∷ l ∷ ls) true (t ∷ []) fuel w m f h = absurd (omega arith)
match_loop-covers (one ∷ l ∷ ls) false (t ∷ []) zero w m f h = absurd (omega arith)
match_loop-covers (one ∷ l ∷ ls) false (t ∷ []) (suc fuel) w m f h =
    one_long t (join (filter_levels (l ∷ ls) false)) fuel m.0 m.1 (levels_left l ls w.1.0)
match_loop-covers (one ∷ l ∷ ls) hash (t ∷ u ∷ ts) fuel w m f h =
    one_step t (join (filter_levels (l ∷ ls) hash)) (join (u ∷ ts)) (covers (l ∷ ls) hash (u ∷ ts))
      fuel m.0 (omega arith)
      (λ k g.
        match_loop-covers (l ∷ ls) hash (u ∷ ts) k w.1 m.1 (Fits-rest l ls hash one t u ts f) g)

-- For a filter of well-formed levels, with or without a '#' behind them, and a topic whose last
-- level is not empty, where a '#' has a level of the topic left: the loop of the code, on the two
-- joined by '/', says what the levels say.
pub matches-covers :
    (ls : List Level) (hash : Bool) (ts : List Text)
    → All IsLevel ls
    → IsTopic ts
    → Fits ls hash ts
    → matches (join (filter_levels ls hash)) (join ts) ≡ covers ls hash ts
matches-covers ls hash ts w m f =
    matches-match_loop (join (filter_levels ls hash)) (join ts)
    ∙ match_loop-covers ls hash ts (length (join (filter_levels ls hash))) w m f (omega arith)
