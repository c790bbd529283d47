-- ===== src/Node/Json.antt =====
-- The JSON form of a node in include/apr/node.hpp. `none` is an exception of the JSON library or of
-- std::stoul.
use lightapr.Prelude.{ℕ, ◌%◌, ◌^◌, Bool, true, false, Option, none, some, [], ◌∷◌}
use lightapr.Prelude.Text.{Text, codes}
use lightapr.Json.{Json}
use lightapr.Node.{EndpointInfo, NodeInfo, NodeStatus, ok, to_string, node_status_from_string}

-- What follows a read that may throw.
infixl 5 ◌>>=◌
abbrev pub ◌>>=◌ {ℓ κ} : {A : Type ℓ} {B : Type κ} → Option A → (A → Option B) → Option B
none >>= f = none
some a >>= f = f a

-- The members as they are initialised.
unfoldable pub default_endpoint : EndpointInfo
default_endpoint = record { addr = []; port = 80; scheme = codes "http" }

unfoldable pub default_node : {V : Type 0} → NodeInfo V
default_node = record {
  id = [];
  role = [];
  workers = [];
  endpoint = none;
  status = ok;
  added_at = 0;
  active_at = 0;
  expires_in = none;
  extra = [];
}

module _ {V : Type 0} (J : Json V) (stoul : Text → Option ℕ) where
  unfoldable pub endpoint_to_json : EndpointInfo → V
  endpoint_to_json ep = J.object (
      (codes "addr", J.of_string ep.addr)
      ∷ (codes "port", J.of_number ep.port)
      ∷ (codes "scheme", J.of_string ep.scheme)
      ∷ [])

  -- `if (j.contains(key) && j[key].is_t()) x = j[key].get<T>();`, or the value `absent` if not.
  unfoldable pub read_if {ℓ} : {A : Type ℓ} → (V → Bool) → (V → Option A) → Text → V → A → Option A
  read_if is_t get key j absent = elim (J.find key j) [
    | none ↦ some absent
    | some v ↦ elim (is_t v) [ true ↦ get v | false ↦ some absent ]
  ]

  unfoldable pub read_port : V → ℕ → Option ℕ
  read_port j port = elim (J.find (codes "port") j) [
    | none ↦ some 80
    | some v ↦ elim (J.is_number v) [
      | true ↦ J.get_uint16 v
      | false ↦ elim (J.is_string v) [
        | true ↦ do t ← J.get_string v; n ← stoul t; some (n % 2 ^ 16)
        | false ↦ some port
      ]
    ]
  ]

  unfoldable pub endpoint_from_json : V → EndpointInfo → Option EndpointInfo
  endpoint_from_json j ep = do
    addr ← read_if J.is_string J.get_string (codes "addr") j ep.addr
    port ← read_port j ep.port
    scheme ← read_if J.is_string J.get_string (codes "scheme") j (codes "http")
    some (record { addr = addr; port = port; scheme = scheme })

  -- `node.endpoint.has_value() ? json(node.endpoint.value()) : nullptr`
  unfoldable pub endpoint_or_null : Option EndpointInfo → V
  endpoint_or_null none = J.null
  endpoint_or_null (some ep) = endpoint_to_json ep

  unfoldable pub number_or_null : Option ℕ → V
  number_or_null none = J.null
  number_or_null (some n) = J.of_number n

  unfoldable pub node_to_json : NodeInfo V → V
  node_to_json node = J.object (
      (codes "id", J.of_string node.id)
      ∷ (codes "role", J.of_string node.role)
      ∷ (codes "workers", J.of_strings node.workers)
      ∷ (codes "endpoint", endpoint_or_null node.endpoint)
      ∷ (codes "status", J.of_string (to_string node.status))
      ∷ (codes "added_at", J.of_number node.added_at)
      ∷ (codes "active_at", J.of_number node.active_at)
      ∷ (codes "extra", J.object node.extra)
      ∷ (codes "expires_in", number_or_null node.expires_in)
      ∷ [])

  -- `if (j.contains("endpoint") && !j["endpoint"].is_null())`
  unfoldable pub read_endpoint : V → Option (Option EndpointInfo)
  read_endpoint j = elim (J.find (codes "endpoint") j) [
    | none ↦ some none
    | some v ↦ elim (J.is_null v) [
      | true ↦ some none
      | false ↦ do ep ← endpoint_from_json v default_endpoint; some (some ep)
    ]
  ]

  unfoldable pub read_optional : V → Option (Option ℕ)
  read_optional j = elim (J.find (codes "expires_in") j) [
    | none ↦ some none
    | some v ↦ elim (J.is_number v) [
      | true ↦ do n ← J.get_int64 v; some (some n)
      | false ↦ some none
    ]
  ]

  -- get<node_status> by the word for it.
  unfoldable pub get_status : V → Option NodeStatus
  get_status v = do t ← J.get_string v; some (node_status_from_string t)

  unfoldable pub node_from_json : V → NodeInfo V → Option (NodeInfo V)
  node_from_json j node = do
    id ← read_if J.is_string J.get_string (codes "id") j node.id
    role ← read_if J.is_string J.get_string (codes "role") j node.role
    workers ← read_if J.is_array J.get_strings (codes "workers") j node.workers
    endpoint ← read_endpoint j
    status ← read_if J.is_string get_status (codes "status") j node.status
    added_at ← read_if J.is_number J.get_int64 (codes "added_at") j node.added_at
    active_at ← read_if J.is_number J.get_int64 (codes "active_at") j node.active_at
    expires_in ← read_optional j
    extra ← read_if J.is_object (λ v. some (J.entries v)) (codes "extra") j []
    some (record {
      id = id;
      role = role;
      workers = workers;
      endpoint = endpoint;
      status = status;
      added_at = added_at;
      active_at = active_at;
      expires_in = expires_in;
      extra = extra;
    })
