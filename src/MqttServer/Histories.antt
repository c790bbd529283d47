-- ===== src/MqttServer/Histories.antt =====
-- Histories of events of src/mqtt/mqtt_server.cpp, in any order, from the start of the server.
use lightapr.Prelude.{
  ℕ, zero, suc, ◌<◌, ◌-◌, ◌^◌, ◌≡◌, refl, sym, ◌∙◌, Bool, true, false, Option, some, List, [], ◌∷◌,
  ◌++◌, All, arith, Option-cases, inl, inr, append_assoc,
}
use mathlib.Core.Path.{subst}
use lightapr.Prelude.Text.{Text}
use lightapr.Guard.{Limits, Guard, try_acquire}
use lightapr.Guard as Guard
use lightapr.Guard.Sessions as Live
use lightapr.Json.{Json}
use lightapr.Memory.{MemoryTracker}
use lightapr.Registry.{Registry}
use lightapr.Registry as Registry
use lightapr.Registry.Validity.{IsValid, nodes_total}
use lightapr.MqttServer.{Settings, Session, Server}
use lightapr.MqttServer.Events.{
  World, Event, accepted, happens, new_session, split_sessions, focus, unfocus, do_accept, left_by,
  handle, step, run,
}
use lightapr.MqttServer.Handlers.{handle-IsSafe}
use lightapr.MqttServer.Invariant.{open_ip, open_ips, live, IsSafe}
use lightapr.MqttServer.Reads.{Returns}
use lightapr.MqttServer.Stream.{Ended, done, returned, thrown, out_of_fuel}

open_ips-append : (xs ys : List Session) → open_ips (xs ++ ys) ≡ open_ips xs ++ open_ips ys
unfolding open_ips
open_ips-append [] ys = refl
open_ips-append (x ∷ xs) ys =
    rw (open_ips-append xs ys) (sym (append_assoc (open_ip x) (open_ips xs) (open_ips ys)))

-- The parts of the list of sessions are its parts.
split_sessions-append :
    (i : ℕ) (front xs before after : List Session) (x : Session)
    → split_sessions i front xs ≡ some (before, x, after)
    → before ++ (x ∷ after) ≡ front ++ xs
unfolding split_sessions
split_sessions-append i front [] before after x e = cc
split_sessions-append zero front (y ∷ ys) before after x e = cc
split_sessions-append (suc i) front (y ∷ ys) before after x e =
    split_sessions-append i (front ++ (y ∷ [])) ys before after x e ∙ append_assoc front (y ∷ []) ys

-- The two reads of the peer's address have come to the same.
abbrev pub IsOneAddress : Event × ℕ → Type 0
IsOneAddress (accepted peer_ip own_ip, now) = own_ip ≡ peer_ip
IsOneAddress (happens i h, now) = Unit {0}

module _ {V : Type 0} (J : Json V) (stoul : Text → Option ℕ) (c : Settings) (l : Limits) where
  -- The registry is valid, and the guard has come from the sessions' protocol.
  pub record IsSafeWorld (w : World V) : Type 0 where
    pub valid : IsValid J.dump c.max_extra_bytes c.node_size w.registry
    pub reached : Live.Reach l (record { guard = w.guard; live = open_ips w.sessions })

  unfocus-IsSafe : (s : Server V) → IsSafe J stoul c l s → IsSafeWorld (unfocus s)
  unfolding unfocus live open_ips
  unfocus-IsSafe s p = record {
    valid = p.valid;
    reached = rw (open_ips-append s.before (s.me ∷ s.after)) (p.reached);
  }

  focus_lem :
      (w : World V) (i : ℕ) (s : Server V)
      → focus w i ≡ some s
      → (s.registry ≡ w.registry)
        × (s.guard ≡ w.guard)
        × (s.before ++ (s.me ∷ s.after) ≡ w.sessions)
  unfolding focus
  focus_lem w i s e = elim (Option-cases (split_sessions i [] w.sessions)) [
    | inl f ↦ ground (arith, e, f)
    | inr ((before, x, after), f) ↦
        ground (arith, e, f, split_sessions-append i [] w.sessions before after x f)
  ]

  focus-IsSafe :
      (w : World V) (i : ℕ) (s : Server V)
      → focus w i ≡ some s
      → IsSafeWorld w
      → IsSafe J stoul c l s
  unfolding live open_ips
  focus-IsSafe w i s e p =
      let same = focus_lem w i s e in
      record {
        valid = simp (same.0) p.valid;
        reached =
            simp (same.1) (rw (sym same.2, open_ips-append s.before (s.me ∷ s.after)) at p.reached);
      }

  accept-IsSafe :
      (w : World V) (ip : Text) (now : ℕ) → IsSafeWorld w → IsSafeWorld (do_accept l w ip ip now)
  unfolding do_accept new_session open_ips open_ip
  accept-IsSafe w ip now p = go (try_acquire l w.guard ip now) refl
    where
      go :
          (r : Bool × Guard)
          → try_acquire l w.guard ip now ≡ r
          → IsSafeWorld (do_accept l w ip ip now)
      go (true, g) e =
          rw (do_accept, e)
            (record {
              valid = p.valid;
              reached = Live.next p.reached (Live.accept w.guard g (open_ips w.sessions) ip now e);
            })
      go (false, g) e =
          rw (do_accept, e)
            (record {
              valid = p.valid;
              reached = Live.next p.reached (Live.reject w.guard g (open_ips w.sessions) ip now e);
            })

  left_by-IsSafe :
      (w : World V) (e : Ended V) → Returns (IsSafe J stoul c l) e → IsSafeWorld (left_by w e)
  unfolding left_by
  left_by-IsSafe w (done s) p = unfocus-IsSafe s p
  left_by-IsSafe w (returned s) p = unfocus-IsSafe s p
  left_by-IsSafe w (thrown s) p = unfocus-IsSafe s p
  left_by-IsSafe w out_of_fuel p = elim p [ ]

  step-IsSafe :
      (w : World V) (e : Event) (now : ℕ)
      → c.max_string < 2 ^ 64 - 14
      → IsOneAddress (e, now)
      → IsSafeWorld w
      → IsSafeWorld (step J stoul c l w e now)
  unfolding step
  step-IsSafe w (accepted ip own_ip) now small same p =
      subst (λ (t : Text). IsSafeWorld (do_accept l w ip t now)) (sym same)
        (accept-IsSafe w ip now p)
  step-IsSafe w (happens i h) now small same p = elim (Option-cases (focus w i)) [
    | inl e ↦ rw (step, e) p
    | inr (s, e) ↦
        rw (step, e)
          (left_by-IsSafe w (handle J stoul c s h now)
            (handle-IsSafe J stoul c l s h now small (focus-IsSafe w i s e p)))
  ]

  run-IsSafe :
      (es : List (Event × ℕ)) (w : World V)
      → c.max_string < 2 ^ 64 - 14
      → All IsOneAddress es
      → IsSafeWorld w
      → IsSafeWorld (run J stoul c l w es)
  unfolding run
  run-IsSafe [] w small same p = p
  run-IsSafe ((e, now) ∷ es) w small same p =
      run-IsSafe es (step J stoul c l w e now) small same.1 (step-IsSafe w e now small same.0 p)

  -- The server at its start.
  abbrev pub start : MemoryTracker → World V
  start m = record { sessions = []; registry = Registry.new; guard = Guard.new; memory = m }

  -- Whatever connections come, whatever their clients send, and in whatever order reads, writes and
  -- timers end: the guard's total is the number of the sessions that are open and its count of an
  -- IP the number of those from it, so that a connection is released once and no limit is passed;
  -- and the registry stays valid. It is assumed that the two reads of a peer's address agree, and
  -- that the max_size() of a string is below 2 ^ 64 - 14.
  pub run-Inv-IsValid :
      (m : MemoryTracker) (es : List (Event × ℕ))
      → c.max_string < 2 ^ 64 - 14
      → All IsOneAddress es
      → let w = run J stoul c l (start m) es in
        Live.Inv l (record { guard = w.guard; live = open_ips w.sessions })
        × IsValid J.dump c.max_extra_bytes c.node_size w.registry
  unfolding open_ips Registry.new nodes_total
  run-Inv-IsValid m es small same =
      let p = run-IsSafe es (start m) small same (record {
        valid = record { distinct = tt; each = tt; exact = omega arith };
        reached = Live.start;
      }) in
      (Live.Reach-Inv p.reached, p.valid)
