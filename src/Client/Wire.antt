-- ===== src/Client/Wire.antt =====
-- The messages of the server of src/mqtt/mqtt_server.cpp on the registry's events, at a client of
-- sdk/cpp/src/apr_client.cpp.
use lightapr.Prelude.{
  ℕ, ◌≡◌, refl, ap, ◌∙◌, arith, true, Option, some, List, [], ◌∷◌, ◌++◌, map, All,
}
use lightapr.Prelude.Text.{Text, codes}
use lightapr.Http.{starts_with}
use lightapr.Json.{Json, IsLawful}
use lightapr.Node.{NodeInfo}
use lightapr.Node.Json.{node_to_json, default_node}
use lightapr.Node.RoundTrip.{PortFits, TimeFits, node_from_json-to_json}
use lightapr.Registry.{Registry}
use lightapr.Registry.Validity.{Command, run, IsValid}
use lightapr.MqttServer.{Server, broadcast, notify}
use lightapr.Client.{Client}
use lightapr.Client.Batches.{handle_all}
use lightapr.Client.Session.{
  read_node, queue_or_apply, apply_node_event, apply_events, handle_publish, resolve_node,
}
use lightapr.Client.Replica.{Mirrors}
use lightapr.Client.Following.{run_events}
use lightapr.Client.Resolving.{Answers, resolve_node-apply_events}

module _ {V : Type 0} (J : Json V) (stoul : Text → Option ℕ) (L : IsLawful J) where
  -- The topic and the payload that the server sends on an event.
  abbrev pub announcement : NodeInfo V → Text × Text
  announcement n = (codes "apr/" ++ n.role, J.dump (node_to_json J stoul n))

  -- A node whose numbers fit their types and whose text is parsed as what was written.
  pub record IsWritable (n : NodeInfo V) : Type 0 where
    pub port : PortFits n.endpoint
    pub added : TimeFits (some n.added_at)
    pub active : TimeFits (some n.active_at)
    pub expires : TimeFits n.expires_in
    pub order : J.entries (J.object n.extra) ≡ n.extra
    pub parsed : J.parse (J.dump (node_to_json J stoul n)) ≡ some (node_to_json J stoul n)

  pub read_node-announcement :
      (n : NodeInfo V) → IsWritable n → read_node J stoul (announcement n).1 ≡ some n
  unfolding read_node
  read_node-announcement n w =
      rw (read_node, w.parsed)
        (node_from_json-to_json J stoul L n default_node w.port w.added w.active w.expires w.order)

  is_apr : (role : Text) → starts_with (codes "apr/") (codes "apr/" ++ role) ≡ true
  unfolding starts_with
  is_apr role = refl

  module _ {C : Type 0} where
    handle_publish-announcement :
        (c : Client V C) (n : NodeInfo V)
        → c.reconciled ≡ true
        → IsWritable n
        → handle_publish J stoul c (announcement n).0 (announcement n).1 ≡ apply_node_event c n
    unfolding handle_publish queue_or_apply
    handle_publish-announcement c n ready w =
        ground (arith, ready, is_apr n.role, read_node-announcement n w)

    handle_all-announcements :
        (ns : List (NodeInfo V)) (c : Client V C)
        → c.reconciled ≡ true
        → All IsWritable ns
        → handle_all J stoul c (map announcement ns) ≡ apply_events c ns
    unfolding handle_all apply_events apply_node_event
    handle_all-announcements [] c ready w = refl
    handle_all-announcements (n ∷ ns) c ready w =
        ap (λ (x : Client V C). handle_all J stoul x (map announcement ns))
          (handle_publish-announcement c n ready w.0)
        ∙ handle_all-announcements ns (apply_node_event c n) ready w.1

    -- On each event the server broadcasts the announcement of its node. A client that is done with
    -- its start and has the copy of a valid registry, and that gets the announcements of the calls
    -- that follow, in their order, with nothing between them: its resolve_node answers with none
    -- exactly where the registry then has no candidate, and else with a candidate as the registry
    -- has it. The numbers of the nodes fit their types, and the JSON library keeps what it is given
    -- and parses what it has written of them.
    pub handle_all-Answers :
        (max_bytes node_size : ℕ) (ds : List (Command V)) (r : Registry V) (c : Client V C)
        (role worker : Text)
        → IsValid J.dump max_bytes node_size r
        → Mirrors r.nodes c.local_nodes
        → c.reconciled ≡ true
        → All IsWritable (run_events J.dump max_bytes node_size r ds)
        → let messages = map announcement (run_events J.dump max_bytes node_size r ds) in
          ((s : Server V) (n : NodeInfo V)
            → notify J stoul s n ≡ broadcast s (announcement n).0 (announcement n).1)
          × Answers
              (run J.dump max_bytes node_size r ds)
              role
              worker
              (resolve_node (handle_all J stoul c messages) role worker).0
    unfolding notify
    handle_all-Answers max_bytes node_size ds r c role worker v p ready w = (
      λ s n. refl,
      rw (handle_all-announcements (run_events J.dump max_bytes node_size r ds) c ready w)
          (resolve_node-apply_events J.dump max_bytes node_size ds r c role worker v p),
    )
