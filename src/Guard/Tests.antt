-- ===== src/Guard/Tests.antt =====
-- Runs of the guard of src/core/connection_guard.cpp.
use lightapr.Prelude.{◌≡◌, ◌≤◌, refl, arith, [], ◌∷◌, true, false}
use lightapr.Prelude.Text.{Text, codes, text_eq}
use lightapr.Prelude.Dict.{lookup, insert}
use lightapr.Guard.{Limits, Guard, new, try_acquire, reached, count_of, recent_of, prune, admit}
use lightapr.Guard.Sessions
use lightapr.Guard.Sessions.{Inv, Reach-Inv}
use lightapr.Guard.Rate
use lightapr.Guard.Window.{in_window, times}
use lightapr.Guard.Rate.{accepted-in-window}

abbrev limits : Limits
limits = record {
  max_total_connections = 2;
  max_connections_per_ip = 1;
  max_new_connections_per_ip = 1;
  rate_window = 10;
}

abbrev peer : Text
peer = codes "10.0.0.1"

abbrev one_open : Guard
one_open = record { total = 1; per_ip_count = (peer, 1) ∷ []; per_ip_recent = (peer, 5 ∷ []) ∷ [] }

first_call : try_acquire limits new peer 5 ≡ (true, one_open)
unfolding try_acquire new reached count_of recent_of prune admit lookup insert text_eq
first_call = refl

second_call : try_acquire limits one_open peer 6 ≡ (false, one_open)
unfolding try_acquire new reached count_of recent_of prune admit lookup insert text_eq
second_call = refl

Reach-Inv_example : Inv limits (record { guard = one_open; live = peer ∷ [] })
Reach-Inv_example = Reach-Inv (
    Sessions.next (Sessions.next Sessions.start (Sessions.accept new one_open [] peer 5 first_call))
      (Sessions.reject one_open one_open (peer ∷ []) peer 6 second_call))

accepted-in-window_example : in_window 10 6 (times peer ((peer, 5) ∷ [])) ≤ 1
accepted-in-window_example =
    accepted-in-window limits (record { guard = one_open; accepted = (peer, 5) ∷ []; clock = 6 })
      peer (omega arith)
      (Rate.next
        (Rate.next (Rate.start 5) (Rate.accept new one_open [] peer 5 5 (omega arith) first_call))
        (Rate.reject one_open one_open ((peer, 5) ∷ []) peer 5 6 (omega arith) second_call))
