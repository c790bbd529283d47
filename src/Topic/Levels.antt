-- ===== src/Topic/Levels.antt =====
-- The levels that MQTT defines the filters of include/apr/mqtt_topic.hpp by.
use lightapr.Prelude.{
  ℕ, zero, suc, ◌+◌, ◌-◌, ◌≤◌, ◌<◌, ◌≡◌, ◌≢◌, ◌⊎◌, refl, sym, ap, ◌∙◌, Bool, true, false, ◌&&◌, inl,
  inr, List, [], ◌∷◌, ◌++◌, length, length-append, arith, All, Bool-cases, if◌then◌else◌, map,
}
use lightapr.Prelude.Text.{Text, codes, text_eq, empty}
use lightapr.Topic.Matching.{Literal}
pub mod Steps
pub mod Covering

-- A level of a filter: a word, or '+'.
pub data Level : Type 0 where
  word : Text → Level
  one : Level

abbrev pub level_text : Level → Text
level_text (word a) = a
level_text one = b'+' ∷ []

-- Levels with '/' between them.
abbrev pub join : List Text → Text
join [] = []
join (x ∷ []) = x
join (x ∷ y ∷ zs) = x ++ (b'/' ∷ join (y ∷ zs))

-- The levels of a filter, and whether a '#' stands behind them.
abbrev pub filter_levels : List Level → Bool → List Text
filter_levels [] true = codes "#" ∷ []
filter_levels [] false = []
filter_levels (l ∷ ls) hash = level_text l ∷ filter_levels ls hash

-- What MQTT says: a word matches the same level, '+' any one level, and '#' all that follow.
unfoldable pub covers : List Level → Bool → List Text → Bool
covers [] hash [] = true
covers [] hash (t ∷ ts) = hash
covers (l ∷ ls) hash [] = false
covers (word a ∷ ls) hash (t ∷ ts) = text_eq a t && covers ls hash ts
covers (one ∷ ls) hash (t ∷ ts) = covers ls hash ts

abbrev pub NoSlash : Text → Type 0
NoSlash s = All (λ c. c ≢ b'/') s

-- A word is not empty and has no wildcard.
abbrev pub IsLevel : Level → Type 0
IsLevel (word a) = Literal a × NoSlash a × (a ≢ [])
IsLevel one = Unit {0}

-- A topic has a level, and the last one is not empty.
abbrev pub IsTopic : List Text → Type 0
IsTopic [] = ⊥
IsTopic (t ∷ []) = NoSlash t × (t ≢ [])
IsTopic (t ∷ u ∷ ts) = NoSlash t × IsTopic (u ∷ ts)

-- A filter with a '#' leaves it a level at least.
abbrev pub Fits : List Level → Bool → List Text → Type 0
Fits ls true ts = length ls < length ts
Fits ls false ts = filter_levels ls false ≢ []
