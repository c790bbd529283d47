-- ===== src/Guard/Sessions.antt =====
-- The guard of src/core/connection_guard.cpp with the sessions that it let in: a listener that got
-- `true` opens a session, and a session that ends calls `release` once.
use lightapr.Prelude.{
  ℕ, ◌+◌, ◌≤◌, ◌<◌, ◌≡◌, refl, List, [], ◌∷◌, ◌++◌, arith, length, length-append, if◌then◌else◌,
  true, false,
}
use lightapr.Prelude.Text.{Text, text_eq, text_eq_iff}
use lightapr.Prelude.Dict.{Distinct, insert-Distinct, insert, lookup}
use lightapr.Guard.{Limits, Guard, new, reached, count_of, admit, try_acquire, release}
use lightapr.Guard.Counts.{count_of-insert, count_of-release, release-Distinct}

-- The guard, and the source IPs of the open sessions.
pub record World : Type 0 where
  pub guard : Guard
  pub live : List Text

pub data Step (l : Limits) : World → World → Type 0 where
  accept :
      (g g' : Guard) (live : List Text) (ip : Text) (now : ℕ)
      → try_acquire l g ip now ≡ (true, g')
      → Step l (record { guard = g; live = live }) (record { guard = g'; live = ip ∷ live })
  reject :
      (g g' : Guard) (live : List Text) (ip : Text) (now : ℕ)
      → try_acquire l g ip now ≡ (false, g')
      → Step l (record { guard = g; live = live }) (record { guard = g'; live = live })
  close :
      (g : Guard) (front back : List Text) (ip : Text)
      → Step l
          (record { guard = g; live = front ++ (ip ∷ back) })
          (record { guard = release g ip; live = front ++ back })

pub data Reach (l : Limits) : World → Type 0 where
  start : Reach l (record { guard = new; live = [] })
  next : {w w' : World} → Reach l w → Step l w w' → Reach l w'

-- How many of the sessions come from the IP.
unfoldable pub count : Text → List Text → ℕ
count ip [] = 0
count ip (jp ∷ live) = (if text_eq jp ip then 1 else 0) + count ip live

count-append : (ip : Text) (xs ys : List Text) → count ip (xs ++ ys) ≡ count ip xs + count ip ys
unfolding count
count-append ip [] ys = omega arith
count-append ip (x ∷ xs) ys = omega (arith, count-append ip xs ys)

-- The counters are those of the open sessions, and no limit is passed.
pub record Inv (l : Limits) (w : World) : Type 0 where
  pub distinct : Distinct w.guard.per_ip_count
  pub total_live : w.guard.total ≡ length w.live
  pub count_live : (ip : Text) → count_of ip w.guard.per_ip_count ≡ count ip w.live
  pub total_max : 0 < l.max_total_connections → w.guard.total ≤ l.max_total_connections
  pub ip_max :
      (ip : Text) → 0 < l.max_connections_per_ip → count ip w.live ≤ l.max_connections_per_ip

-- What an accepted call has done, and what it has seen.
accepted :
    (l : Limits) (g g' : Guard) (ip : Text) (now : ℕ)
    → try_acquire l g ip now ≡ (true, g')
    → (g'.total ≡ g.total + 1)
      × (g'.per_ip_count ≡ insert ip (count_of ip g.per_ip_count + 1) g.per_ip_count)
      × (reached l.max_total_connections g.total ≡ false)
      × (reached l.max_connections_per_ip (count_of ip g.per_ip_count) ≡ false)
unfolding try_acquire admit
accepted l g g' ip now e = ground arith

rejected :
    (l : Limits) (g g' : Guard) (ip : Text) (now : ℕ)
    → try_acquire l g ip now ≡ (false, g')
    → (g'.total ≡ g.total) × (g'.per_ip_count ≡ g.per_ip_count)
unfolding try_acquire admit
rejected l g g' ip now e = ground arith

below : (limit n : ℕ) → reached limit n ≡ false → 0 < limit → n + 1 ≤ limit
unfolding reached
below limit n e h = ground arith

start-Inv : (l : Limits) → Inv l (record { guard = new; live = [] })
unfolding new lookup
start-Inv l = record {
  distinct = tt;
  total_live = refl;
  count_live = λ ip. unfold count count_of in refl;
  total_max = λ h. omega arith;
  ip_max = λ ip h. unfold count in omega arith;
}

accept-Inv :
    (l : Limits) (g g' : Guard) (live : List Text) (ip : Text) (now : ℕ)
    → try_acquire l g ip now ≡ (true, g')
    → Inv l (record { guard = g; live = live })
    → Inv l (record { guard = g'; live = ip ∷ live })
accept-Inv l g g' live ip now e v = record {
  distinct =
      rw counts (insert-Distinct ip (count_of ip g.per_ip_count + 1) g.per_ip_count v.distinct);
  total_live = omega (arith, (accepted l g g' ip now e).0, v.total_live);
  count_live = live_counts;
  total_max =
      λ h. omega (arith, (accepted l g g' ip now e).0, below _ _ (accepted l g g' ip now e).2 h);
  ip_max = λ jp h.
      unfold count in
      ground (
        arith,
        v.ip_max jp h,
        v.count_live ip,
        text_eq_iff ip jp,
        below _ _ (accepted l g g' ip now e).3 h,
      );
}
  where
    counts : g'.per_ip_count ≡ insert ip (count_of ip g.per_ip_count + 1) g.per_ip_count
    counts = (accepted l g g' ip now e).1

    live_counts : (jp : Text) → count_of jp g'.per_ip_count ≡ count jp (ip ∷ live)
    live_counts jp =
        rw (counts, count_of-insert ip jp (count_of ip g.per_ip_count + 1) g.per_ip_count)
          (unfold count in ground (arith, v.count_live jp, v.count_live ip, text_eq_iff ip jp))

reject-Inv :
    (l : Limits) (g g' : Guard) (live : List Text) (ip : Text) (now : ℕ)
    → try_acquire l g ip now ≡ (false, g')
    → Inv l (record { guard = g; live = live })
    → Inv l (record { guard = g'; live = live })
reject-Inv l g g' live ip now e v =
    let same = rejected l g g' ip now e in
    record {
      distinct = rw same.1 v.distinct;
      total_live = rw same.0 v.total_live;
      count_live = λ jp. rw same.1 (v.count_live jp);
      total_max = λ h. rw same.0 (v.total_max h);
      ip_max = v.ip_max;
    }

close-Inv :
    (l : Limits) (g : Guard) (front back : List Text) (ip : Text)
    → Inv l (record { guard = g; live = front ++ (ip ∷ back) })
    → Inv l (record { guard = release g ip; live = front ++ back })
unfolding release
close-Inv l g front back ip v = record {
  distinct = release-Distinct ip g.per_ip_count v.distinct;
  total_live = ground (arith, sizes);
  count_live = λ jp.
      rw (count_of-release ip jp g.per_ip_count v.distinct)
        (ground (arith, split jp, split ip, v.count_live jp, v.count_live ip, text_eq_iff ip jp));
  total_max = λ h. ground (arith, v.total_max h);
  ip_max = λ jp h. ground (arith, v.ip_max jp h, split jp);
}
  where
    sizes : g.total ≡ length (front ++ back) + 1
    sizes = omega (arith, v.total_live, length-append front (ip ∷ back), length-append front back)

    split :
        (jp : Text)
        → count jp (front ++ (ip ∷ back))
          ≡ (if text_eq ip jp then 1 else 0) + count jp (front ++ back)
    split jp =
        unfold count in omega (arith, count-append jp front (ip ∷ back), count-append jp front back)

Step-Inv : {l : Limits} {w w' : World} → Step l w w' → Inv l w → Inv l w'
Step-Inv (accept g g' live ip now e) v = accept-Inv _ g g' live ip now e v
Step-Inv (reject g g' live ip now e) v = reject-Inv _ g g' live ip now e v
Step-Inv (close g front back ip) v = close-Inv _ g front back ip v

-- In every history of accepted and rejected connections and of sessions that end, in any order, the
-- guard's total is the number of open sessions, each IP's count is the number of its open sessions,
-- and neither passes its limit where there is one.
pub Reach-Inv : {l : Limits} {w : World} → Reach l w → Inv l w
Reach-Inv start = start-Inv _
Reach-Inv (next r s) = Step-Inv s (Reach-Inv r)
