-- ===== src/Guard/Counts.antt =====
-- The per-IP counts of src/core/connection_guard.cpp.
use lightapr.Prelude.{ℕ, ◌-◌, ◌≡◌, none, some, arith, ltb, if◌then◌else◌, Option-cases, inl, inr}
use lightapr.Prelude.Text.{Text, text_eq, text_eq_iff}
use lightapr.Prelude.Dict.{
  Dict, lookup, insert, erase, Distinct, lookup-insert, lookup-erase_self, lookup-erase_ne,
  insert-Distinct, erase-Distinct,
}
use lightapr.Guard.{count_of, release_count}

pub count_of-insert :
    (ip jp : Text) (n : ℕ) (m : Dict ℕ)
    → count_of jp (insert ip n m) ≡ (if text_eq ip jp then n else count_of jp m)
unfolding count_of
count_of-insert ip jp n m = ground (arith, lookup-insert ip jp n m)

-- What a lookup says of the count.
count_some : (ip : Text) (n : ℕ) (m : Dict ℕ) → lookup ip m ≡ some n → count_of ip m ≡ n
unfolding count_of
count_some ip n m e = rw (e, count_of)

count_none : (ip : Text) (m : Dict ℕ) → lookup ip m ≡ none → count_of ip m ≡ 0
unfolding count_of
count_none ip m e = rw (e, count_of)

release_none : (ip : Text) (m : Dict ℕ) → lookup ip m ≡ none → release_count ip m ≡ m
unfolding release_count
release_none ip m e = rw (e, release_count)

release_some :
    (ip : Text) (n : ℕ) (m : Dict ℕ)
    → lookup ip m ≡ some n
    → release_count ip m ≡ (if ltb 1 n then insert ip (n - 1) m else erase ip m)
unfolding release_count
release_some ip n m e = rw (e, release_count)

count_of-erase :
    (ip jp : Text) (m : Dict ℕ)
    → Distinct m
    → count_of jp (erase ip m) ≡ (if text_eq ip jp then 0 else count_of jp m)
unfolding count_of
count_of-erase ip jp m d =
    ground (arith, lookup-erase_self ip m d, lookup-erase_ne ip jp m, text_eq_iff ip jp)

-- A release takes one from the count of its IP, if there is one, and leaves the others.
pub count_of-release :
    (ip jp : Text) (m : Dict ℕ)
    → Distinct m
    → count_of jp (release_count ip m)
      ≡ (if text_eq ip jp then count_of ip m - 1 else count_of jp m)
count_of-release ip jp m d = elim (Option-cases (lookup ip m)) [
  | inl e ↦ rw (release_none ip m e) (ground (arith, count_none ip m e, text_eq_iff ip jp))
  | inr (n, e) ↦ rw (release_some ip n m e) (
      ground
        (arith, count_some ip n m e, count_of-insert ip jp (n - 1) m, count_of-erase ip jp m d))
]

pub release-Distinct : (ip : Text) (m : Dict ℕ) → Distinct m → Distinct (release_count ip m)
release-Distinct ip m d = elim (Option-cases (lookup ip m)) [
  | inl e ↦ rw (release_none ip m e) d
  | inr (n, e) ↦
      rw (release_some ip n m e)
        (ground (arith, insert-Distinct ip (n - 1) m d, erase-Distinct ip m d))
]
