-- ===== src/Client/Session.antt =====
-- What a client of sdk/cpp/src/apr_client.cpp sends, and how it keeps its copy of the registry.
use lightapr.Prelude.{
  ℕ, ◌+◌, ◌%◌, Bool, true, false, not, ◌||◌, Option, none, some, List, [], ◌∷◌, ◌++◌, ◌==◌,
  if◌then◌else◌, length, get_elem?, map,
}
use lightapr.Prelude.Text.{Text, codes, text_eq, empty}
use lightapr.Prelude.Dict.{Dict, lookup, insert, erase}
use lightapr.Http.{starts_with}
use lightapr.Json.{Json}
use lightapr.Node.{NodeInfo, NodeStatus, ok, grace, erased}
use lightapr.Node.Json.{endpoint_or_null, node_from_json, default_node}
use lightapr.Packet.{encode_publish}
use lightapr.WebSocket.{encode_frame}
use lightapr.Client.{Client, status_changed, app_event}
use lightapr.Client.Packets.{make_connect, subscribe_packet, app_topic}

unfoldable pub callbacks_of : {C : Type 0} → Text → Dict (List C) → List C
callbacks_of topic m = elim (lookup topic m) [ none ↦ [] | some cbs ↦ cbs ]

-- The `found` loop over the workers.
unfoldable pub has_local_worker : Text → List Text → Bool
has_local_worker worker [] = false
has_local_worker worker (w ∷ ws) = text_eq w worker || has_local_worker worker ws

-- `node.status == node_status::ok`
unfoldable pub is_ok_status : NodeStatus → Bool
is_ok_status ok = true
is_ok_status grace = false
is_ok_status erased = false

unfoldable pub local_index : Text → Dict ℕ → ℕ
local_index key m = elim (lookup key m) [ none ↦ 0 | some i ↦ i ]

module _ {V : Type 0} where
  -- The tests of the loop of resolve_node, each with its `continue`.
  unfoldable pub is_local_candidate : Text → Text → NodeInfo V → Bool
  is_local_candidate role worker n =
      if not (is_ok_status n.status)
      then false
      else if not (text_eq n.role role)
      then false
      else if not (empty worker)
      then has_local_worker worker n.workers
      else true

  unfoldable pub local_candidates : Text → Text → Dict (NodeInfo V) → List (NodeInfo V)
  local_candidates role worker [] = []
  local_candidates role worker ((id, n) ∷ m) =
      let rest = local_candidates role worker m in
      if is_local_candidate role worker n then n ∷ rest else rest

  -- The copy of the registry after an event.
  unfoldable pub apply_status : NodeInfo V → Dict (NodeInfo V) → Dict (NodeInfo V)
  apply_status node m = elim node.status [
    | ok ↦ insert node.id node m
    | grace ↦ elim (lookup node.id m) [
      | none ↦ m
      | some n ↦ insert node.id (record n { status = grace }) m
    ]
    | erased ↦ erase node.id m
  ]

module _ {V : Type 0} {C : Type 0} where
  -- Frames are not masked.
  unfoldable pub send_bytes : Client V C → Text → Client V C
  send_bytes c packet = record c {
    sent = c.sent ++ ((if c.is_websocket then encode_frame packet 0x02 else packet) ∷ []);
  }

  unfoldable pub send_connect : Client V C → ℕ → ℕ → Client V C
  send_connect c r₁ r₂ = send_bytes c (make_connect c.opts r₁ r₂)

  unfoldable pub send_subscribe : Client V C → Text → Client V C
  send_subscribe c topic = send_bytes c (subscribe_packet topic)

  unfoldable pub send_publish : Client V C → Text → Text → Client V C
  send_publish c topic payload = send_bytes c (encode_publish topic payload 0 0)

  unfoldable pub publish_app_event : Client V C → Text → Text → Text → Client V C
  publish_app_event c target_role worker payload =
      send_publish c (app_topic target_role worker) payload

  unfoldable pub subscribe_app_event : Client V C → Text → Text → C → Client V C
  subscribe_app_event c target_role worker cb =
      let topic = app_topic target_role worker in
      send_subscribe
        (record c {
          app_callbacks =
              insert topic (callbacks_of topic c.app_callbacks ++ (cb ∷ [])) c.app_callbacks;
        })
        topic

  unfoldable pub set_node_status_callback : Client V C → Client V C
  set_node_status_callback c = record c { has_status_cb = true }

  -- A DISCONNECT is written as it is, on a WebSocket too.
  unfoldable pub stop : Client V C → Client V C
  stop c =
      if c.running
      then record c { running = false; sent = c.sent ++ ((0xe0 ∷ 0x00 ∷ []) ∷ []) }
      else c

  unfoldable pub resolve_node : Client V C → Text → Text → Option (NodeInfo V) × Client V C
  resolve_node c role worker =
      let found = local_candidates role worker c.local_nodes in
      let key = role ++ (b':' ∷ worker) in
      let idx = local_index key c.rr_indices % length found in
      if length found == 0 then (none, c) else (
        get_elem? found idx,
        record c { rr_indices = insert key ((idx + 1) % length found) c.rr_indices },
      )

  unfoldable pub get_local_registry : Client V C → List (NodeInfo V)
  get_local_registry c = map (λ entry. entry.1) c.local_nodes

  unfoldable pub apply_node_event : Client V C → NodeInfo V → Client V C
  apply_node_event c node = record c {
    local_nodes = apply_status node c.local_nodes;
    calls = if c.has_status_cb then c.calls ++ (status_changed node ∷ []) else c.calls;
  }

  unfoldable pub apply_events : Client V C → List (NodeInfo V) → Client V C
  apply_events c [] = c
  apply_events c (n ∷ ns) = apply_events (apply_node_event c n) ns

  unfoldable pub reconcile_queue : Client V C → Client V C
  reconcile_queue c = record (apply_events c c.sync_queue) { sync_queue = []; reconciled = true }

  unfoldable pub queue_or_apply : Client V C → NodeInfo V → Client V C
  queue_or_apply c node =
      if not c.reconciled
      then record c { sync_queue = c.sync_queue ++ (node ∷ []) }
      else apply_node_event c node

module _ {V : Type 0} (J : Json V) (stoul : Text → Option ℕ) where
  -- What a payload of the topology's topics says; `none` is an exception, which is caught.
  unfoldable pub read_node : Text → Option (NodeInfo V)
  read_node payload = elim (J.parse payload) [
    | none ↦ none
    | some j ↦ node_from_json J stoul j default_node
  ]

module _ {V : Type 0} {C : Type 0} (J : Json V) (stoul : Text → Option ℕ) where
  unfoldable pub publish_extra : Client V C → Text → V → Client V C
  publish_extra c worker extra =
      send_publish c (codes "apr/node/extra")
        (J.dump (J.object ((codes "worker", J.of_string worker) ∷ (codes "extra", extra) ∷ [])))

  unfoldable pub metadata : Client V C → V
  metadata c = J.object (
      (codes "role", J.of_string c.opts.role)
      ∷ (codes "workers", J.of_strings c.opts.workers)
      ∷ (codes "endpoint", endpoint_or_null J stoul c.opts.endpoint)
      ∷ [])

  unfoldable pub publish_metadata : Client V C → Client V C
  publish_metadata c = send_publish c (codes "apr/node/meta") (J.dump (metadata c))

  unfoldable pub handle_publish : Client V C → Text → Text → Client V C
  handle_publish c topic payload =
      if starts_with (codes "apr/") topic
      then elim (read_node J stoul payload) [ none ↦ c | some node ↦ queue_or_apply c node ]
      else if starts_with (codes "app/") topic
      then record c {
        calls =
            c.calls ++ map (λ cb. app_event cb payload topic) (callbacks_of topic c.app_callbacks);
      }
      else c
