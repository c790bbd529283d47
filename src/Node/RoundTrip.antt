-- ===== src/Node/RoundTrip.antt =====
-- A node of include/apr/node.hpp read back from its JSON form.
use lightapr.Prelude.{ℕ, ◌≡◌, ◌<◌, refl, ◌∙◌, Bool, true, false, Option, none, some, []}
use lightapr.Prelude.Text.{Text, codes, text_eq}
use lightapr.Prelude.Dict.{Dict, lookup}
use lightapr.Json.{Json, IsLawful}
use lightapr.Node.{EndpointInfo, NodeInfo, NodeStatus, to_string, from_string-to_string}
use lightapr.Node.Json.{
  endpoint_to_json, read_if, read_port, endpoint_from_json, endpoint_or_null, number_or_null,
  node_to_json, read_endpoint, read_optional, get_status, node_from_json, default_endpoint,
}

-- A port fits 16 bits, where there is an endpoint.
abbrev pub PortFits : Option EndpointInfo → Type 0
PortFits none = Unit {0}
PortFits (some ep) = ep.port < 65536

-- A time fits an int64_t.
abbrev pub TimeFits : Option ℕ → Type 0
TimeFits none = Unit {0}
TimeFits (some n) = n < 9223372036854775808

module _ {V : Type 0} (J : Json V) (stoul : Text → Option ℕ) (L : IsLawful J) where
  -- A member that is there and of the type asked for.
  read_if-object {ℓ} :
      {A : Type ℓ} (is_t : V → Bool) (get : V → Option A) (key : Text) (m : Dict V) (absent : A)
      (v : V)
      → lookup key m ≡ some v
      → is_t v ≡ true
      → read_if J stoul is_t get key (J.object m) absent ≡ get v
  unfolding read_if
  read_if-object is_t get key m absent v e h = rw (read_if, L.find-object key m, e, h) refl

  read_port-object :
      (m : Dict V) (port d : ℕ)
      → lookup (codes "port") m ≡ some (J.of_number port)
      → port < 65536
      → read_port J stoul (J.object m) d ≡ some port
  unfolding read_port
  read_port-object m port d e h =
      rw
        (
          read_port,
          L.find-object (codes "port") m,
          e,
          L.number-number port,
          L.get_uint16-of_number port h,
        )
        refl

  read_string-object :
      (key : Text) (m : Dict V) (absent t : Text)
      → lookup key m ≡ some (J.of_string t)
      → read_if J stoul J.is_string J.get_string key (J.object m) absent ≡ some t
  read_string-object key m absent t e =
      read_if-object J.is_string J.get_string key m absent (J.of_string t) e (L.string-string t)
      ∙ L.get-of_string t

  read_time-object :
      (key : Text) (m : Dict V) (absent n : ℕ)
      → lookup key m ≡ some (J.of_number n)
      → n < 9223372036854775808
      → read_if J stoul J.is_number J.get_int64 key (J.object m) absent ≡ some n
  read_time-object key m absent n e h =
      read_if-object J.is_number J.get_int64 key m absent (J.of_number n) e (L.number-number n)
      ∙ L.get_int64-of_number n h

  endpoint_from_json-to_json :
      (ep d : EndpointInfo)
      → ep.port < 65536
      → endpoint_from_json J stoul (endpoint_to_json J stoul ep) d ≡ some ep
  unfolding endpoint_from_json endpoint_to_json lookup text_eq
  endpoint_from_json-to_json ep d h =
      rw
        (
          read_string-object (codes "addr") _ d.addr ep.addr refl,
          read_port-object _ ep.port d.port refl h,
          read_string-object (codes "scheme") _ (codes "http") ep.scheme refl,
        )
        refl

  read_endpoint-object :
      (m : Dict V) (ep : Option EndpointInfo)
      → lookup (codes "endpoint") m ≡ some (endpoint_or_null J stoul ep)
      → PortFits ep
      → read_endpoint J stoul (J.object m) ≡ some ep
  unfolding endpoint_or_null read_endpoint
  read_endpoint-object m none e h =
      rw (read_endpoint, L.find-object (codes "endpoint") m, e, L.null-null) refl
  read_endpoint-object m (some ep) e h =
      let full : J.is_null (endpoint_to_json J stoul ep) ≡ false =
        unfold endpoint_to_json in L.object-null _ in
      rw
        (
          read_endpoint,
          L.find-object (codes "endpoint") m,
          e,
          full,
          endpoint_from_json-to_json ep default_endpoint h,
        )
        refl

  read_optional-object :
      (m : Dict V) (t : Option ℕ)
      → lookup (codes "expires_in") m ≡ some (number_or_null J stoul t)
      → TimeFits t
      → read_optional J stoul (J.object m) ≡ some t
  unfolding number_or_null read_optional
  read_optional-object m none e h =
      rw (read_optional, L.find-object (codes "expires_in") m, e, L.null-number) refl
  read_optional-object m (some n) e h =
      rw
        (
          read_optional,
          L.find-object (codes "expires_in") m,
          e,
          L.number-number n,
          L.get_int64-of_number n h,
        )
        refl

  read_status-object :
      (m : Dict V) (absent s : NodeStatus)
      → lookup (codes "status") m ≡ some (J.of_string (to_string s))
      → read_if J stoul J.is_string (get_status J stoul) (codes "status") (J.object m) absent
        ≡ some s
  unfolding get_status
  read_status-object m absent s e =
      read_if-object J.is_string (get_status J stoul) (codes "status") m absent
        (J.of_string (to_string s)) e (L.string-string (to_string s))
      ∙ rw (L.get-of_string (to_string s), from_string-to_string s) refl

  -- A node is read back from its JSON form, whatever the node was that it is read into: the JSON
  -- library keeps what it is given, the port and the times fit their types, and the entries of the
  -- extra data are in the order in which the library has them.
  pub node_from_json-to_json :
      (node d : NodeInfo V)
      → PortFits node.endpoint
      → TimeFits (some node.added_at)
      → TimeFits (some node.active_at)
      → TimeFits node.expires_in
      → J.entries (J.object node.extra) ≡ node.extra
      → node_from_json J stoul (node_to_json J stoul node) d ≡ some node
  unfolding node_from_json node_to_json lookup text_eq
  node_from_json-to_json node d port added active expires order =
      rw
        (
          read_string-object (codes "id") _ d.id node.id refl,
          read_string-object (codes "role") _ d.role node.role refl,
          read_if-object J.is_array J.get_strings (codes "workers") _ d.workers
              (J.of_strings node.workers) refl (L.strings-array node.workers),
          L.get-of_strings node.workers,
          read_endpoint-object _ node.endpoint refl port,
          read_status-object _ d.status node.status refl,
          read_time-object (codes "added_at") _ d.added_at node.added_at refl added,
          read_time-object (codes "active_at") _ d.active_at node.active_at refl active,
          read_optional-object _ node.expires_in refl expires,
          read_if-object J.is_object (λ v. some (J.entries v)) (codes "extra") _ []
              (J.object node.extra) refl (L.object-object node.extra),
          order,
        )
        refl
