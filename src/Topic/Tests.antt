-- ===== src/Topic/Tests.antt =====
-- Runs of the topic filters of include/apr/mqtt_topic.hpp.
use lightapr.Prelude.{true, false, List, [], ◌∷◌, ◌≡◌, refl, arith}
use lightapr.Prelude.Text.{Text, codes, text_eq}
use lightapr.Topic.{matches, match_loop, skip_level, at_end}
use lightapr.Topic.Levels.{Level, word, one, covers}
use lightapr.Topic.Levels.Covering.{matches-covers}

abbrev levels : List Level
levels = word (codes "a") ∷ one ∷ []

abbrev topic : List Text
topic = codes "a" ∷ codes "bb" ∷ codes "c" ∷ codes "d" ∷ []

matches-covers_example : matches (codes "a/+/#") (codes "a/bb/c/d") ≡ covers levels true topic
matches-covers_example =
    matches-covers levels true topic
      (
        (
          ((λ e. omega (arith, e), λ e. omega (arith, e)), tt),
          (λ e. omega (arith, e), tt),
          (λ e. cc),
        ),
        (tt, tt),
      )
      (
        (λ e. omega (arith, e), tt),
        (
          (λ e. omega (arith, e), (λ e. omega (arith, e), tt)),
          ((λ e. omega (arith, e), tt), ((λ e. omega (arith, e), tt), (λ e. cc))),
        ),
      )
      (omega arith)

-- The filter "a/#" does not match its parent level "a", and '+' matches past a trailing '/'.
parent_level : matches (codes "a/#") (codes "a") ≡ false
unfolding matches match_loop skip_level at_end text_eq
parent_level = refl

trailing_level : matches (codes "+") (codes "a/") ≡ true
unfolding matches match_loop skip_level at_end text_eq
trailing_level = refl
