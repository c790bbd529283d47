-- ===== src/HttpServer/Repeats.antt =====
-- A request of src/http/http_parsing.cpp whose length wraps, at the connection of
-- src/http/http_server.cpp.
use lightapr.Prelude.{
  ℕ, zero, suc, ◌+◌, ◌<◌, ◌≤◌, ◌^◌, ◌≡◌, refl, ap, ◌∙◌, true, false, Option, some, [], ◌++◌, arith,
  length, Bool-cases, inl, inr,
}
use lightapr.Prelude.Text.{Text, codes, text_eq}
use lightapr.Accumulator.{view, consume, default_threshold}
use lightapr.Accumulator.Refinement.{view-consume, view-compact}
use lightapr.Http.{
  HttpRequest, find, header_end_mark, pieces, content_length_of, find_request_boundary,
  parse_raw_http, keeps_alive, starts_with, next_line, split_at, parse_headers, connection_value,
  to_lower, default_request, strip_cr,
}
use lightapr.Http.Framing.{find_request_boundary-wraps}
use lightapr.Json.{Json}
use lightapr.Registry.{Registry}
use lightapr.HttpServer.{HttpSettings, Surroundings, not_found, route_request}
use lightapr.HttpServer.Serving.{
  HttpState, Served, served, thrown, out_of_fuel, surroundings, take_request, answer, kept_alive,
  next_request, try_process_next_request,
}
use lightapr.HttpServer.Cap.{
  EndsCounted, one_more, below, closed_lem, try_process_next_request-EndsCounted,
}

-- The connection is closed after as many requests as the cap, each with its response.
abbrev pub EndsRepeated : {V : Type 0} → ℕ → HttpState V → Served V → Type 0
EndsRepeated cap s (served t) =
    (t.me.request_count ≡ cap)
    × (t.me.closed ≡ true)
    × (length t.me.outbox + s.me.request_count ≡ length s.me.outbox + cap)
EndsRepeated cap s (thrown t) = ⊥
EndsRepeated cap s out_of_fuel = ⊥

abbrev Closes : {V : Type 0} → ℕ → Served V → Type 0
Closes cap (served t) = (t.me.request_count ≡ cap) × (t.me.closed ≡ true)
Closes cap (thrown t) = ⊥
Closes cap out_of_fuel = ⊥

-- No bytes are parsed as a request that keeps the connection.
empty_request : (parse_raw_http []).keep_alive ≡ true
unfolding parse_raw_http next_line pieces split_at parse_headers keeps_alive connection_value
    to_lower text_eq find starts_with default_request strip_cr
empty_request = refl

-- Only the cap ends the connection of such a request.
not_last :
    (cap count : ℕ) (req : HttpRequest)
    → kept_alive cap req count ≡ false
    → req.keep_alive ≡ true
    → cap ≤ count
unfolding kept_alive
not_last cap count req k h = ground (arith, k, h)

module _ {V : Type 0} (J : Json V) (stoul : Text → Option ℕ) (c : HttpSettings)
    (e : Surroundings) where
  empty_route :
      (r : Registry V) (here : Surroundings)
      → route_request J stoul c here r (parse_raw_http [])
        ≡ some (not_found J (codes "Route not found"), r)
  unfolding route_request parse_raw_http default_request text_eq starts_with next_line
  empty_route r here = ground arith

  -- The bytes that wait stay where they are.
  same_view : (s : HttpState V) → view (take_request s 0).me.request_acc ≡ view s.me.request_acc
  unfolding take_request
  same_view s =
      view-compact default_threshold (consume s.me.request_acc 0) ∙ view-consume s.me.request_acc 0

  loop-Closes :
      (fuel : ℕ) (s : HttpState V)
      → find_request_boundary (view s.me.request_acc) ≡ some 0
      → s.me.request_count < c.max_requests_per_connection
      → c.max_requests_per_connection ≤ s.me.request_count + fuel
      → Closes c.max_requests_per_connection (try_process_next_request J stoul c e fuel s)
  unfolding try_process_next_request next_request answer
  loop-Closes zero s f lt enough = absurd (omega arith)
  loop-Closes (suc fuel) s f lt enough =
      let cap = c.max_requests_per_connection in
      let g = empty_route s.registry (surroundings e s) in
      let res = not_found J (codes "Route not found") in
      let count = (take_request s 0).me.request_count in
      let counted = one_more s 0 res s.registry in
      elim (Bool-cases (kept_alive cap (parse_raw_http []) count)) [
        | inl k ↦
            let t = answer (take_request s 0) res s.registry true in
            rw (try_process_next_request, f, g, k)
              (loop-Closes fuel t (ap find_request_boundary (same_view s) ∙ f)
                (below cap s 0 res s.registry (parse_raw_http []) lt k)
                (omega (arith, counted true, enough)))
        | inr k ↦
            let closed = closed_lem (answer (take_request s 0) res s.registry false) in
            rw (try_process_next_request, f, g, k)
              (
                omega (
                  arith,
                  closed.1,
                  counted false,
                  lt,
                  not_last cap count (parse_raw_http []) k empty_request,
                ),
                closed.0,
              )
      ]

  joined :
      (cap : ℕ) (s : HttpState V) (o : Served V)
      → Closes cap o
      → EndsCounted cap s o
      → EndsRepeated cap s o
  joined cap s (served t) h counted = (h.0, h.1, omega (arith, h.0, counted.responses))
  joined cap s (thrown t) h counted = h
  joined cap s out_of_fuel h counted = h

  -- The flaw: a request whose Content-Length makes the sum come to 2 ^ 64, on a connection that is
  -- below its cap. It is answered again and again, until as many requests are counted as the cap
  -- allows, each with its response, and only then is the connection closed. Fuel for the requests
  -- that are left is enough.
  pub try_process_next_request-EndsRepeated :
      (head tail : Text) (fuel : ℕ) (s : HttpState V)
      → find header_end_mark (head ++ header_end_mark) ≡ some (length head)
      → length head + 4 + content_length_of (pieces 10 head) 0 ≡ 2 ^ 64
      → view s.me.request_acc ≡ head ++ (header_end_mark ++ tail)
      → s.me.request_count < c.max_requests_per_connection
      → c.max_requests_per_connection ≤ s.me.request_count + fuel
      → EndsRepeated c.max_requests_per_connection s (try_process_next_request J stoul c e fuel s)
  try_process_next_request-EndsRepeated head tail fuel s ends wraps waiting lt enough =
      joined c.max_requests_per_connection s (try_process_next_request J stoul c e fuel s)
        (loop-Closes fuel s
          (ap find_request_boundary waiting ∙ find_request_boundary-wraps head ends tail wraps) lt
          enough)
        (try_process_next_request-EndsCounted J stoul c e fuel s lt enough)
