-- ===== src/HttpServer/Cap.antt =====
-- The cap on the requests of a connection of src/http/http_server.cpp.
use lightapr.Prelude.{
  ℕ, zero, suc, ◌+◌, ◌<◌, ◌≤◌, ◌≡◌, refl, ap, Bool, true, false, Option, [], ◌∷◌, arith, length,
  length-append, Option-cases, Bool-cases, inl, inr, ◌⊎◌,
}
use lightapr.Prelude.Text.{Text}
use lightapr.Accumulator.{view}
use lightapr.Http.{HttpRequest, find_request_boundary}
use lightapr.Json.{Json}
use lightapr.Registry.{Registry}
use lightapr.HttpServer.{HttpResponse, HttpSettings, Surroundings, route_request}
use lightapr.HttpServer.Serving.{
  HttpState, Served, served, thrown, out_of_fuel, close_session, wait_for_bytes, surroundings,
  take_request, answer, kept_alive, next_request, try_process_next_request, response_text,
}

-- Each request that is counted has its response, and there are no more of them than the cap; when
-- it is reached, the connection is closed.
pub record Counted {V : Type 0} (cap : ℕ) (s t : HttpState V) : Type 0 where
  pub at_most : t.me.request_count ≤ cap
  pub responses : length t.me.outbox + s.me.request_count ≡ length s.me.outbox + t.me.request_count
  pub closes : (t.me.request_count < cap) ⊎ (t.me.closed ≡ true)

abbrev pub EndsCounted : {V : Type 0} → ℕ → HttpState V → Served V → Type 0
EndsCounted cap s (served t) = Counted cap s t
EndsCounted cap s (thrown t) = Counted cap s t
EndsCounted cap s out_of_fuel = ⊥

-- The cap makes the request that reaches it the last.
not_kept :
    (cap count : ℕ) (req : HttpRequest) → 0 < cap → kept_alive cap req count ≡ true → count < cap
unfolding kept_alive
not_kept cap count req p h = ground (arith, h)

module _ {V : Type 0} where
  waits : (cap : ℕ) (s : HttpState V) → s.me.request_count < cap → Counted cap s (wait_for_bytes s)
  unfolding wait_for_bytes
  waits cap s lt = record {
    at_most = omega arith;
    responses = omega arith;
    closes = inl (omega arith);
  }

  -- One more request, and one more response.
  pub one_more :
      (s : HttpState V) (boundary : ℕ) (res : HttpResponse) (r : Registry V) (keep_alive : Bool)
      → let t = answer (take_request s boundary) res r keep_alive in
        (t.me.request_count ≡ s.me.request_count + 1)
        × (length t.me.outbox ≡ length s.me.outbox + 1)
  unfolding answer take_request
  one_more s boundary res r keep_alive =
      (refl, length-append s.me.outbox (response_text res keep_alive ∷ []))

  pub closed_lem :
      (s : HttpState V)
      → let t = close_session s in
        (t.me.closed ≡ true)
        × (t.me.request_count ≡ s.me.request_count)
        × (t.me.outbox ≡ s.me.outbox)
  unfolding close_session
  closed_lem s = ground arith

  -- The last request.
  last :
      (cap : ℕ) (s t : HttpState V)
      → (t.me.request_count ≡ s.me.request_count + 1)
        × (length t.me.outbox ≡ length s.me.outbox + 1)
      → s.me.request_count < cap
      → Counted cap s (close_session t)
  last cap s t more lt =
      let closed = closed_lem t in
      record {
        at_most = omega (arith, more, lt, closed.1);
        responses = omega (arith, more, closed.1, ap length closed.2);
        closes = inr closed.0;
      }

  -- A request that keeps the connection is below the cap.
  pub below :
      (cap : ℕ) (s : HttpState V) (boundary : ℕ) (res : HttpResponse) (r : Registry V)
      (req : HttpRequest)
      → s.me.request_count < cap
      → kept_alive cap req (take_request s boundary).me.request_count ≡ true
      → (answer (take_request s boundary) res r true).me.request_count < cap
  unfolding answer
  below cap s boundary res r req lt k =
      not_kept cap (take_request s boundary).me.request_count req (omega arith) k

  later :
      (cap : ℕ) (s t u : HttpState V)
      → length t.me.outbox + s.me.request_count ≡ length s.me.outbox + t.me.request_count
      → Counted cap t u
      → Counted cap s u
  later cap s t u e p = record {
    at_most = p.at_most;
    responses = omega (arith, e, p.responses);
    closes = p.closes;
  }

  later_ends :
      (cap : ℕ) (s t : HttpState V) (o : Served V)
      → length t.me.outbox + s.me.request_count ≡ length s.me.outbox + t.me.request_count
      → EndsCounted cap t o
      → EndsCounted cap s o
  later_ends cap s t (served u) e p = later cap s t u e p
  later_ends cap s t (thrown u) e p = later cap s t u e p
  later_ends cap s t out_of_fuel e p = p

module _ {V : Type 0} (J : Json V) (stoul : Text → Option ℕ) (c : HttpSettings)
    (e : Surroundings) where
  -- With a cap, the requests of a connection come to an end, whatever its client sends: fuel for the
  -- requests that are left is enough. Each request that was counted has one response, there are no
  -- more of them than the cap, and when it is reached the connection is closed.
  pub try_process_next_request-EndsCounted :
      (fuel : ℕ) (s : HttpState V)
      → s.me.request_count < c.max_requests_per_connection
      → c.max_requests_per_connection ≤ s.me.request_count + fuel
      → EndsCounted c.max_requests_per_connection s (try_process_next_request J stoul c e fuel s)
  unfolding try_process_next_request
  try_process_next_request-EndsCounted zero s lt enough = absurd (omega arith)
  try_process_next_request-EndsCounted (suc fuel) s lt enough =
      let cap = c.max_requests_per_connection in
      elim (Option-cases (find_request_boundary (view s.me.request_acc))) [
        | inl f ↦ rw (try_process_next_request, f) (waits cap s lt)
        | inr (boundary, f) ↦
            let req = next_request J stoul c e s boundary in
            elim (Option-cases (route_request J stoul c (surroundings e s) s.registry req)) [
              | inl g ↦
                  rw (try_process_next_request, f, g)
                    (unfold take_request in
                      record {
                        at_most = omega arith;
                        responses = refl;
                        closes = inl (omega arith);
                      })
              | inr ((res, r), g) ↦
                  let taken = take_request s boundary in
                  let count = taken.me.request_count in
                  let more = one_more s boundary res r in
                  elim (Bool-cases (kept_alive cap req count)) [
                    | inl k ↦
                        let t = answer taken res r true in
                        let counted = more true in
                        rw (try_process_next_request, f, g, k)
                          (later_ends cap s t _ (omega (arith, counted)) (
                            try_process_next_request-EndsCounted fuel t
                              (below cap s boundary res r req lt k)
                              (omega (arith, counted, enough))))
                    | inr k ↦
                        let t = answer taken res r false in
                        rw (try_process_next_request, f, g, k) (last cap s t (more false) lt)
                  ]
            ]
      ]
