-- ===== src/Topic.antt =====
-- include/apr/mqtt_topic.hpp: whether a topic matches a filter. The two indices are kept as the bytes
-- from there on.
mod Tests
pub mod Matching
pub mod Levels
use lightapr.Prelude.{
  ℕ, zero, suc, ◌+◌, Bool, true, false, ◌&&◌, ◌||◌, List, [], ◌∷◌, ◌==◌, if◌then◌else◌, length,
}
use lightapr.Prelude.Text.{Text, codes, text_eq, empty}

-- Up to the next '/', and past it.
unfoldable pub skip_level : Text → Text
skip_level [] = []
skip_level (c ∷ s) = if c == b'/' then s else skip_level s

-- The tests after the loop.
unfoldable pub at_end : Text → Text → Bool
at_end pattern topic = (empty pattern && empty topic) || text_eq pattern (codes "#")

-- The loop; every turn takes at least one byte of the pattern.
unfoldable pub match_loop : ℕ → Text → Text → Bool
match_loop zero pattern topic = at_end pattern topic
match_loop (suc fuel) [] topic = at_end [] topic
match_loop (suc fuel) (p ∷ ps) [] = at_end (p ∷ ps) []
match_loop (suc fuel) (p ∷ ps) (t ∷ ts) =
    let level = match_loop fuel (skip_level (p ∷ ps)) (skip_level (t ∷ ts)) in
    let rest = match_loop fuel ps ts in
    if p == b'#' then true else if p == b'+' then level else if p == t then rest else false

unfoldable pub matches : Text → Text → Bool
matches pattern topic =
    if text_eq pattern (codes "#")
    then true
    else if text_eq pattern topic
    then true
    else match_loop (length pattern) pattern topic
