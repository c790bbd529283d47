-- ===== src/HttpServer/Nodes.antt =====
-- A node of the registry of src/core/registry.cpp as src/http/http_server.cpp shows it.
use lightapr.Prelude.{ℕ, ◌≡◌, refl, sym, ◌∙◌, Option, some, ◌++◌, arith, inl, inr}
use lightapr.Prelude.Text.{Text, codes, text_eq}
use lightapr.Prelude.Dict.{lookup}
use lightapr.Client.Session.{read_node}
use lightapr.Client.Wire.{IsWritable, read_node-announcement}
use lightapr.Http.{HttpRequest, starts_with}
use lightapr.Json.{Json, IsLawful}
use lightapr.Node.{NodeInfo, ok, grace}
use lightapr.Registry.{Registry, get_node}
use lightapr.Registry.Methods.{register-IsValid}
use lightapr.Registry.Registered.{register-IsRegistered}
use lightapr.Registry.Updates.{Registration, register_or_update_node}
use lightapr.Registry.Validity.{IsValid, found}
use lightapr.HttpServer.{
  HttpResponse, HttpSettings, Surroundings, default_response, json_body, show_node, route_request,
}

module _ {V : Type 0} (J : Json V) (stoul : Text → Option ℕ) (L : IsLawful J) where
  -- The route of the path "/registry/" and an id.
  node_route :
      (c : HttpSettings) (e : Surroundings) (r : Registry V) (req : HttpRequest) (id : Text)
      → req.path ≡ codes "/registry/" ++ id
      → route_request J stoul c e r req ≡ some (show_node J stoul r id e.now, r)
  unfolding route_request text_eq starts_with
  node_route c e r req id p = rw p (ground arith)

  -- A response that shows the node to who reads it as the client does.
  abbrev pub Shows : NodeInfo V → HttpResponse → Type 0
  Shows n res = (res.status_code ≡ 200) × (read_node J stoul res.body ≡ some n)

  shown :
      (r : Registry V) (now : ℕ) (id : Text) (n : NodeInfo V)
      → get_node r now id ≡ some n
      → IsWritable J stoul L n
      → Shows n (show_node J stoul r id now)
  unfolding show_node json_body default_response
  shown r now id n e w = rw (show_node, e) (refl, read_node-announcement J stoul L n w)

  -- A node that is OK has no expiry to bring up to date.
  ok_node :
      (max_bytes node_size : ℕ) (r : Registry V) (now : ℕ) (id : Text) (n : NodeInfo V)
      → IsValid J.dump max_bytes node_size r
      → lookup id r.nodes ≡ some n
      → n.status ≡ ok
      → get_node r now id ≡ some n
  unfolding get_node
  ok_node max_bytes node_size r now id n v e h =
      elim ((found J.dump max_bytes node_size r.nodes r.extra_bytes id n v e).status_fits) [
        | inl (s, x) ↦ simp (get_node, e, x)
        | inr (s, x) ↦ absurd (ok-ne_grace (sym h ∙ s))
      ]
    where
      ok-ne_grace : ok ≡ grace → ⊥
      ok-ne_grace p = cc

  -- The node that a registration returns, in a valid registry, is the one that a request of its id
  -- is then answered with: 200, and the body is read as the same node, in every member, and the
  -- registry stays as it was. The numbers of the node fit their types, and the JSON library keeps
  -- what it is given and parses what it has written of them.
  pub register-Shows :
      (max_bytes node_size : ℕ) (c : HttpSettings) (e : Surroundings) (r : Registry V)
      (q : Registration V) (now id_now : ℕ) (req : HttpRequest)
      → let t = register_or_update_node J.dump max_bytes node_size r q now id_now in
        IsValid J.dump max_bytes node_size r
        → req.path ≡ codes "/registry/" ++ t.1.id
        → IsWritable J stoul L t.1
        → (res : HttpResponse) × (route_request J stoul c e t.0 req ≡ some (res, t.0))
          × Shows t.1 res
  register-Shows max_bytes node_size c e r q now id_now req v p w =
      let t = register_or_update_node J.dump max_bytes node_size r q now id_now in
      let there = register-IsRegistered J.dump max_bytes node_size r q now id_now v in
      let valid = register-IsValid J.dump max_bytes node_size r q now id_now v in
      (
        show_node J stoul t.0 t.1.id e.now,
        node_route c e t.0 req t.1.id p,
        shown t.0 e.now t.1.id t.1
            (ok_node max_bytes node_size t.0 e.now t.1.id t.1 valid there.found_at there.is_ok) w,
      )
