-- ===== src/HttpServer/Serving.antt =====
-- A connection of src/http/http_server.cpp: the requests are answered one after the other.
use lightapr.Prelude.{
  ℕ, zero, suc, ◌+◌, Bool, true, false, ◌&&◌, Option, none, some, List, [], ◌∷◌, ◌++◌, ltb, leb,
  if◌then◌else◌, length, take,
}
use lightapr.Prelude.Text.{Text, codes}
use lightapr.Prelude.Int.{pos}
use lightapr.Accumulator.{
  Accumulator, append, view, consume, compact_if_needed, total_capacity, default_threshold,
}
use lightapr.Accumulator as Accumulator
use lightapr.Guard.{Limits, Guard, release, try_acquire}
use lightapr.Http.{HttpRequest, parse_raw_http, find_request_boundary, header_end_mark}
use lightapr.Json.{Json}
use lightapr.Memory.{MemoryTracker, add_http_rx_bytes, add_http_tx_bytes}
use lightapr.Registry.{Registry}
use lightapr.Registry.Updates.{decimal}
use lightapr.WebSocket.Handshake.{crlf}
use lightapr.HttpServer.{HttpResponse, HttpSettings, Surroundings, route_request}

pub record HttpSession : Type 0 where
  pub peer_ip : Text
  pub closed : Bool
  pub reading : Bool
  pub request_count : ℕ
  pub request_acc : Accumulator ℕ
  pub outbox : List Text

-- A session with what it reaches.
pub record HttpState (V : Type 0) : Type 0 where
  pub me : HttpSession
  pub registry : Registry V
  pub guard : Guard
  pub memory : MemoryTracker

-- The text of a response.
unfoldable pub response_text : HttpResponse → Bool → Text
response_text res keep_alive =
    codes "HTTP/1.1 "
    ++ (decimal res.status_code
        ++ (b' '
            ∷ (res.status_text
                ++ (crlf
                    ++ (codes "Content-Type: "
                        ++ (res.content_type
                            ++ (crlf
                                ++ (codes "Content-Length: "
                                    ++ (decimal (length res.body)
                                        ++ (crlf
                                            ++ ((if keep_alive
                                                  then codes "Connection: keep-alive"
                                                  else codes "Connection: close")
                                                ++ (header_end_mark ++ res.body))))))))))))

module _ {V : Type 0} where
  -- on_before_close releases the guard.
  unfoldable pub close_session : HttpState V → HttpState V
  close_session s =
      if s.me.closed
      then s
      else record s { me = record s.me { closed = true }; guard = release s.guard s.me.peer_ip }

  unfoldable pub wait_for_bytes : HttpState V → HttpState V
  wait_for_bytes s = record s { me = record s.me { reading = true } }

  unfoldable pub surroundings : Surroundings → HttpState V → Surroundings
  surroundings e s = record e { memory = s.memory; total_connections = s.guard.total }

  -- The request is taken from the buffer and counted.
  unfoldable pub take_request : HttpState V → ℕ → HttpState V
  take_request s boundary = record s {
    me = record s.me {
      request_count = s.me.request_count + 1;
      request_acc = compact_if_needed default_threshold (consume s.me.request_acc boundary);
    };
  }

  unfoldable pub answer : HttpState V → HttpResponse → Registry V → Bool → HttpState V
  answer s res r keep_alive =
      let text = response_text res keep_alive in
      record s {
        me = record s.me { outbox = s.me.outbox ++ (text ∷ []) };
        registry = r;
        memory = add_http_tx_bytes s.memory (pos (length text));
      }

-- Whether the connection is kept after the request that is the `count`-th.
unfoldable pub kept_alive : ℕ → HttpRequest → ℕ → Bool
kept_alive max_requests req count =
    if ltb 0 max_requests && leb max_requests count then false else req.keep_alive

-- How the requests in the buffer end: in a wait for more bytes or a close, or in an exception.
pub data Served (V : Type 0) : Type 0 where
  served : HttpState V → Served V
  thrown : HttpState V → Served V
  out_of_fuel : Served V

module _ {V : Type 0} (J : Json V) (stoul : Text → Option ℕ) (c : HttpSettings)
    (e : Surroundings) where
  -- The request in the buffer, up to its boundary.
  unfoldable pub next_request : HttpState V → ℕ → HttpRequest
  next_request s boundary = parse_raw_http (take boundary (view s.me.request_acc))

  -- Each write is taken to succeed; the end of it goes on with the next request that is buffered.
  unfoldable pub try_process_next_request : ℕ → HttpState V → Served V
  try_process_next_request zero s = out_of_fuel
  try_process_next_request (suc fuel) s = elim (find_request_boundary (view s.me.request_acc)) [
    | none ↦ served (wait_for_bytes s)
    | some boundary ↦
        let req = next_request s boundary in
        let taken = take_request s boundary in
        elim (route_request J stoul c (surroundings e s) s.registry req) [
          | none ↦ thrown (record s { me = record taken.me { request_count = s.me.request_count } })
          | some (res, r) ↦
              let keep_alive =
                kept_alive c.max_requests_per_connection req taken.me.request_count in
              elim keep_alive [
                | false ↦ served (close_session (answer taken res r false))
                | true ↦ try_process_next_request fuel (answer taken res r true)
              ]
        ]
  ]

  unfoldable pub on_bytes_read : ℕ → HttpState V → Text → Served V
  on_bytes_read fuel s bytes =
      let t = record s {
        me = record s.me { request_acc = append s.me.request_acc bytes; reading = false };
        memory = add_http_rx_bytes s.memory (pos (length bytes));
      } in
      if ltb c.max_buffer_bytes (total_capacity t.me.request_acc)
      then served (close_session t)
      else try_process_next_request fuel t

-- do_accept: a session is made if the guard lets the peer in. The guard is asked for the address that
-- do_accept has read, and the session has the one that its base class reads again.
unfoldable pub do_accept : Limits → Guard → Text → Text → ℕ → Option HttpSession × Guard
do_accept l g peer_ip own_ip now =
    let (admitted, g') = try_acquire l g peer_ip now in
    if admitted
    then (
      some (record {
        peer_ip = own_ip;
        closed = false;
        reading = true;
        request_count = 0;
        request_acc = Accumulator.new;
        outbox = [];
      }),
      g',
    )
    else (none, g')
