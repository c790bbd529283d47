-- ===== src/HttpServer/Answers.antt =====
-- What the route /resolve of src/http/http_server.cpp answers.
use lightapr.Prelude.{ℕ, ◌≡◌, true, Option, length, ◌⊎◌}
use lightapr.Prelude.Text.{Text, empty}
use lightapr.Prelude.Dict.{Dict}
use lightapr.Json.{Json}
use lightapr.Node.{NodeInfo}
use lightapr.Registry.{Registry, candidates, is_candidate}
use lightapr.HttpServer.{HttpResponse, resolved}

module _ {V : Type 0} (J : Json V) (stoul : Text → Option ℕ) where
  -- The three answers of /resolve: to a request that names no role 400; to one for which the registry
  -- has no candidate 404; and in neither case is the round robin moved. Else 200, with the JSON form
  -- of one of the candidates: a node that is OK, of the role, and with the worker if one is named.
  abbrev pub Resolved : Text → Text → Registry V → HttpResponse → Registry V → Type 0
  Resolved role worker r res r' =
      ((empty role ≡ true) × (res.status_code ≡ 400) × (r' ≡ r))
      ⊎ (((length (candidates role worker r.nodes) ≡ 0) × (res.status_code ≡ 404) × (r' ≡ r))
          ⊎ ((n : NodeInfo V) × (is_candidate role worker n ≡ true)
              × (res.status_code ≡ 200)
              × (res.body ≡ J.dump (resolved J stoul worker n))))
