-- ===== src/Registry/Stats.antt =====
-- The counts of get_stats in src/core/registry.cpp.
use lightapr.Prelude.{ℕ, ◌+◌, List, [], ◌∷◌, if◌then◌else◌}
use lightapr.Prelude.Text.{Text, text_eq}
use lightapr.Prelude.Dict.{Dict}
use lightapr.Node.{NodeInfo, NodeStatus, ok, grace, erased}
use lightapr.Registry.{Registry}

-- How often a text is in a list.
unfoldable pub occurrences : Text → List Text → ℕ
occurrences k [] = 0
occurrences k (w ∷ ws) = (if text_eq w k then 1 else 0) + occurrences k ws

-- One for a node of the status.
unfoldable pub one_ok : NodeStatus → ℕ
one_ok ok = 1
one_ok grace = 0
one_ok erased = 0

unfoldable pub one_grace : NodeStatus → ℕ
one_grace ok = 0
one_grace grace = 1
one_grace erased = 0

module _ {V : Type 0} where
  -- The nodes of a role, and the workers of a name that the nodes have together.
  unfoldable pub of_role : Text → Dict (NodeInfo V) → ℕ
  of_role role [] = 0
  of_role role ((id, n) ∷ m) = (if text_eq n.role role then 1 else 0) + of_role role m

  unfoldable pub of_worker : Text → Dict (NodeInfo V) → ℕ
  of_worker worker [] = 0
  of_worker worker ((id, n) ∷ m) = occurrences worker n.workers + of_worker worker m

  -- The nodes that are OK, and those in their grace period.
  unfoldable pub alive : Dict (NodeInfo V) → ℕ
  alive [] = 0
  alive ((id, n) ∷ m) = one_ok n.status + alive m

  unfoldable pub in_grace : Dict (NodeInfo V) → ℕ
  in_grace [] = 0
  in_grace ((id, n) ∷ m) = one_grace n.status + in_grace m
