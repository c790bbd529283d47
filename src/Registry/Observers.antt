-- ===== src/Registry/Observers.antt =====
-- The observers of src/core/registry.cpp: the callbacks with their tokens, in the order in which they
-- are called. `C` is the type of a callback, and a token does not wrap.
use lightapr.Prelude.{ℕ, ◌+◌, ◌<◌, ◌≡◌, List, [], ◌∷◌, ◌++◌, ◌==◌, if◌then◌else◌, map, All, arith}

pub record Observers (C : Type 0) : Type 0 where
  pub event_cbs : List (ℕ × C)
  pub event_cb_id_counter : ℕ

module _ {C : Type 0} where
  unfoldable pub add_event_callback : Observers C → C → ℕ × Observers C
  add_event_callback o cb = (
    o.event_cb_id_counter,
    record {
      event_cbs = o.event_cbs ++ ((o.event_cb_id_counter, cb) ∷ []);
      event_cb_id_counter = o.event_cb_id_counter + 1;
    },
  )

  -- std::remove_if and erase.
  unfoldable pub without_token : ℕ → List (ℕ × C) → List (ℕ × C)
  without_token token [] = []
  without_token token ((t, cb) ∷ cbs) =
      let rest = without_token token cbs in if t == token then rest else (t, cb) ∷ rest

  unfoldable pub remove_event_callback : Observers C → ℕ → Observers C
  remove_event_callback o token = record o { event_cbs = without_token token o.event_cbs }

  unfoldable pub snapshot_callbacks : List (ℕ × C) → List C
  snapshot_callbacks cbs = map (λ entry. entry.1) cbs

  -- The tokens that were given are below the counter.
  abbrev pub TokensBelow : ℕ → List (ℕ × C) → Type 0
  TokensBelow n cbs = All (λ entry. entry.0 < n) cbs

  without_token-append :
      (n : ℕ) (cb : C) (cbs : List (ℕ × C))
      → TokensBelow n cbs
      → without_token n (cbs ++ ((n, cb) ∷ [])) ≡ cbs
  unfolding without_token
  without_token-append n cb [] h = ground arith
  without_token-append n cb ((t, c) ∷ cbs) h =
      ground (arith, h.0, without_token-append n cb cbs h.1)

  -- When all tokens are below the counter, an observer that is added and removed by the token that
  -- it was given leaves the others as they were.
  pub remove-add_event_callback :
      (o : Observers C) (cb : C)
      → TokensBelow o.event_cb_id_counter o.event_cbs
      → let (token, o') = add_event_callback o cb in
        (remove_event_callback o' token).event_cbs ≡ o.event_cbs
  unfolding add_event_callback remove_event_callback
  remove-add_event_callback o cb h = without_token-append o.event_cb_id_counter cb o.event_cbs h
