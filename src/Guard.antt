-- ===== src/Guard.antt =====
-- include/apr/connection_guard.hpp and src/core/connection_guard.cpp: limits on the connections of
-- the process and of each source IP. A time is a tick count of the steady clock, an argument of each
-- call; counts stay far below 2 ^ 64.
mod Tests
pub mod Counts
pub mod Sessions
pub mod Window
pub mod Rate
use lightapr.Prelude.{
  ℕ, ◌+◌, ◌-◌, Bool, true, false, ◌&&◌, Option, none, some, List, [], ◌∷◌, ◌++◌, ltb, leb, ◌==◌,
  if◌then◌else◌, length,
}
use lightapr.Prelude.Text.{Text}
use lightapr.Prelude.Dict.{Dict, lookup, insert, erase}

-- A limit of 0 is none.
pub record Limits : Type 0 where
  pub max_total_connections : ℕ
  pub max_connections_per_ip : ℕ
  pub max_new_connections_per_ip : ℕ
  pub rate_window : ℕ

pub record Guard : Type 0 where
  pub total : ℕ
  pub per_ip_count : Dict ℕ
  pub per_ip_recent : Dict (List ℕ)

unfoldable pub new : Guard
new = record { total = 0; per_ip_count = []; per_ip_recent = [] }

-- `limit > 0 && n >= limit`
unfoldable pub reached : ℕ → ℕ → Bool
reached limit n = ltb 0 limit && leb limit n

-- `it == end() ? 0 : it->second`; `operator[]` also makes a missing count 0.
unfoldable pub count_of : Text → Dict ℕ → ℕ
count_of ip m = elim (lookup ip m) [ none ↦ 0 | some n ↦ n ]

-- `per_ip_recent_[ip]`, which is an empty deque if there is none. The oldest is in front.
unfoldable pub recent_of : Text → Dict (List ℕ) → List ℕ
recent_of ip m = elim (lookup ip m) [ none ↦ [] | some ts ↦ ts ]

-- The while loop: the front is dropped as long as it is older than the window.
unfoldable pub prune : ℕ → ℕ → List ℕ → List ℕ
prune window now [] = []
prune window now (t ∷ ts) = if ltb window (now - t) then prune window now ts else t ∷ ts

-- The last two statements.
unfoldable pub admit : Guard → Text → Guard
admit g ip = record g {
  total = g.total + 1;
  per_ip_count = insert ip (count_of ip g.per_ip_count + 1) g.per_ip_count;
}

unfoldable pub try_acquire : Limits → Guard → Text → ℕ → Bool × Guard
try_acquire l g ip now =
    let recent = prune l.rate_window now (recent_of ip g.per_ip_recent) in
    if reached l.max_total_connections g.total
    then (false, g)
    else if reached l.max_connections_per_ip (count_of ip g.per_ip_count)
    then (false, g)
    else if ltb 0 l.max_new_connections_per_ip
    then if leb l.max_new_connections_per_ip (length recent)
      then (false, record g { per_ip_recent = insert ip recent g.per_ip_recent })
      else (
        true,
        admit (record g { per_ip_recent = insert ip (recent ++ (now ∷ [])) g.per_ip_recent }) ip,
      )
    else (true, admit g ip)

-- A count is decremented if it is positive, and its entry goes when it is 0.
unfoldable pub release_count : Text → Dict ℕ → Dict ℕ
release_count ip m = elim (lookup ip m) [
  | none ↦ m
  | some n ↦ if ltb 1 n then insert ip (n - 1) m else erase ip m
]

unfoldable pub release : Guard → Text → Guard
release g ip = record g {
  total = if ltb 0 g.total then g.total - 1 else g.total;
  per_ip_count = release_count ip g.per_ip_count;
}

abbrev pub total_connections : Guard → ℕ
total_connections g = g.total
