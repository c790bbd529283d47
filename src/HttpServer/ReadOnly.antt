-- ===== src/HttpServer/ReadOnly.antt =====
-- What a connection of src/http/http_server.cpp leaves of the registry and of the guard.
use lightapr.Prelude.{
  ℕ, zero, suc, ◌+◌, ◌<◌, ◌≤◌, ◌≡◌, refl, ap, ◌∙◌, Bool, true, false, Option, none, some, arith,
  length, Option-cases, Bool-cases, inl, inr, ◌⊎◌, ltb,
}
use lightapr.Prelude.Text.{Text}
use lightapr.Prelude.Dict.{Dict}
use lightapr.Accumulator.{view, append, total_capacity}
use lightapr.Guard.{release}
use lightapr.Http.{HttpRequest, find_request_boundary}
use lightapr.Json.{Json}
use lightapr.Memory.{add_http_rx_bytes}
use lightapr.Node.Json.{◌>>=◌}
use lightapr.Prelude.Int.{pos}
use lightapr.Registry.{Registry, resolve_node}
use lightapr.HttpServer.{
  HttpResponse, HttpSettings, Surroundings, list_registry, resolve, route_request,
}
use lightapr.HttpServer.Serving.{
  HttpState, Served, served, thrown, out_of_fuel, close_session, wait_for_bytes, surroundings,
  take_request, answer, kept_alive, next_request, try_process_next_request, on_bytes_read,
}
use lightapr.HttpServer.Cap.{EndsCounted, try_process_next_request-EndsCounted}

module _ {V : Type 0} where
  -- Only the places of the round robin may differ.
  abbrev pub IsTurned : Registry V → Registry V → Type 0
  IsTurned r r' = r' ≡ record r { rr_indices = r'.rr_indices }

  IsTurned-trans : (r s t : Registry V) → IsTurned r s → IsTurned s t → IsTurned r t
  IsTurned-trans r s t h k = k ∙ ap (λ (x : Registry V). record x { rr_indices = t.rr_indices }) h

  abbrev Answered : Registry V → Option (HttpResponse × Registry V) → Type 0
  Answered r none = Unit {0}
  Answered r (some (res, r')) = IsTurned r r'

  -- The session is open and holds its place with the guard, or is closed and has given it back.
  abbrev pub Places : HttpState V → HttpState V → Type 0
  Places s t =
      ((t.me.closed ≡ false) × (t.guard ≡ s.guard))
      ⊎ ((t.me.closed ≡ true) × (t.guard ≡ release s.guard s.me.peer_ip))

  abbrev pub IsReader : HttpState V → HttpState V → Type 0
  IsReader s t = IsTurned s.registry t.registry × Places s t

  -- A call that ends, returning or throwing.
  abbrev pub EndsReader : HttpState V → Served V → Type 0
  EndsReader s (served t) = IsReader s t
  EndsReader s (thrown t) = IsReader s t
  EndsReader s out_of_fuel = ⊥

  -- The state between two requests.
  record IsOpen (s t : HttpState V) : Type 0 where
    turned : IsTurned s.registry t.registry
    is_open : t.me.closed ≡ false
    held : t.guard ≡ s.guard
    same_ip : t.me.peer_ip ≡ s.me.peer_ip

  waits-IsReader : (s t : HttpState V) → IsOpen s t → IsReader s (wait_for_bytes t)
  unfolding wait_for_bytes
  waits-IsReader s t o = (o.turned, inl (o.is_open, o.held))

  closes-IsReader : (s t : HttpState V) → IsOpen s t → IsReader s (close_session t)
  unfolding close_session
  closes-IsReader s t o = rw o.is_open (o.turned, inr (refl, (rw (o.held, o.same_ip) refl)))

  answers-IsOpen :
      (s t : HttpState V) (boundary : ℕ) (res : HttpResponse) (r : Registry V) (keep_alive : Bool)
      → IsOpen s t
      → IsTurned t.registry r
      → IsOpen s (answer (take_request t boundary) res r keep_alive)
  unfolding answer take_request
  answers-IsOpen s t boundary res r keep_alive o h = record {
    turned = IsTurned-trans s.registry t.registry r o.turned h;
    is_open = o.is_open;
    held = o.held;
    same_ip = o.same_ip;
  }

module _ {V : Type 0} (J : Json V) (stoul : Text → Option ℕ) (c : HttpSettings) where
  resolve-IsTurned : (r : Registry V) (params : Dict Text) → IsTurned r (resolve J stoul r params).1
  unfolding resolve resolve_node
  resolve-IsTurned r params = ground arith

  list_registry-Answered :
      (r : Registry V) (params : Dict Text) (now : ℕ)
      → Answered r (list_registry J stoul r params now >>= (λ res. some (res, r)))
  list_registry-Answered r params now = elim (Option-cases (list_registry J stoul r params now)) [
    | inl e ↦ rw e tt
    | inr (res, e) ↦ rw e refl
  ]

  route_request-Answered :
      (e : Surroundings) (r : Registry V) (req : HttpRequest)
      → Answered r (route_request J stoul c e r req)
  unfolding route_request
  route_request-Answered e r req =
      ground (
        arith,
        resolve-IsTurned r req.query_params,
        list_registry-Answered r req.query_params e.now,
      )

  module _ (e : Surroundings) where
    -- What the loop leaves, whatever the fuel.
    abbrev Leaves : HttpState V → Served V → Type 0
    Leaves s (served t) = IsReader s t
    Leaves s (thrown t) = IsReader s t
    Leaves s out_of_fuel = Unit {0}

    loop-Leaves :
        (fuel : ℕ) (s t : HttpState V)
        → IsOpen s t
        → Leaves s (try_process_next_request J stoul c e fuel t)
    unfolding try_process_next_request
    loop-Leaves zero s t o = tt
    loop-Leaves (suc fuel) s t o =
        elim (Option-cases (find_request_boundary (view t.me.request_acc))) [
          | inl f ↦ rw (try_process_next_request, f) (waits-IsReader s t o)
          | inr (boundary, f) ↦
              let req = next_request J stoul c e t boundary in
              let kept = route_request-Answered (surroundings e t) t.registry req in
              elim (Option-cases (route_request J stoul c (surroundings e t) t.registry req)) [
                | inl g ↦
                    rw (try_process_next_request, f, g)
                      (unfold take_request in (o.turned, inl (o.is_open, o.held)))
                | inr ((res, r), g) ↦
                    let taken = take_request t boundary in
                    let count = taken.me.request_count in
                    let turned : IsTurned t.registry r = rw g at kept in
                    elim (Bool-cases (kept_alive c.max_requests_per_connection req count)) [
                      | inl k ↦
                          rw (try_process_next_request, f, g, k)
                            (loop-Leaves fuel s (answer taken res r true)
                              (answers-IsOpen s t boundary res r true o turned))
                      | inr k ↦
                          rw (try_process_next_request, f, g, k)
                            (closes-IsReader s (answer taken res r false)
                              (answers-IsOpen s t boundary res r false o turned))
                    ]
              ]
        ]

    both :
        (cap : ℕ) (s t : HttpState V) (o : Served V)
        → Leaves s o
        → EndsCounted cap t o
        → EndsReader s o
    both cap s t (served u) l counted = l
    both cap s t (thrown u) l counted = l
    both cap s t out_of_fuel l counted = counted

    -- Whatever a client sends on an open connection that is below its cap: the read ends, and
    -- returning or throwing, it leaves the registry as it was but for the places of the round robin,
    -- and the connection either is open, and the guard as it was, or is closed, and its place given
    -- back once. Fuel for the requests that are left is enough.
    pub on_bytes_read-EndsReader :
        (fuel : ℕ) (s : HttpState V) (bytes : Text)
        → s.me.closed ≡ false
        → s.me.request_count < c.max_requests_per_connection
        → c.max_requests_per_connection ≤ s.me.request_count + fuel
        → EndsReader s (on_bytes_read J stoul c e fuel s bytes)
    unfolding on_bytes_read
    on_bytes_read-EndsReader fuel s bytes live lt enough =
        let t = record s {
          me = record s.me { request_acc = append s.me.request_acc bytes; reading = false };
          memory = add_http_rx_bytes s.memory (pos (length bytes));
        } in
        let o : IsOpen s t = record {
          turned = refl;
          is_open = live;
          held = refl;
          same_ip = refl;
        } in
        elim (Bool-cases (ltb c.max_buffer_bytes (total_capacity t.me.request_acc))) [
          | inl f ↦ rw f (closes-IsReader s t o)
          | inr f ↦ rw f (
              both c.max_requests_per_connection s t (try_process_next_request J stoul c e fuel t)
                (loop-Leaves fuel s t o)
                (try_process_next_request-EndsCounted J stoul c e fuel t lt enough))
        ]
