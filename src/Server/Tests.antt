-- ===== src/Server/Tests.antt =====
-- The registration of papago.c on a server without routes, whose user data is a number.
use libpapago.Prelude.{ℕ, ◌+◌, ◌≤◌, ◌<◌, ◌≡◌, ◌⊎◌, true, false, [], ◌∷◌, some, arith}
use libpapago.Prelude.Text.{CString, codes}
use libpapago.Kv.{success, failure}
use libpapago.Method.{get}
use libpapago.Route.{count_route_params, max_route_params}
use libpapago.Config.{config_new}
use libpapago.Server.{Handler, Middleware, Server, max_routes, has_no_capture, route}
use libpapago.Server.Registration.{IsValid, route_lem}

abbrev count_call : Handler ℕ
count_call req s = record s { world = s.world + 1 }

abbrev server : Server ℕ
server = record { config = config_new; routes = []; middleware = [] }

server-IsValid : IsValid server
server-IsValid = record {
  routes_bound = omega arith;
  middleware_bound = omega arith;
  routable = tt;
}

abbrev text : CString
text = codes "/u/:id"

route_lem_example :
    let (rc, out, rest) = route server get (some text) (some count_call) [] in
    IsValid out
    × (((rc ≡ success)
          × (out ≡ record server {
            routes =
                record {
                  method = get;
                  path = text;
                  handler = count_call;
                  is_static = has_no_capture text;
                }
                ∷ [];
          })
          × (0 < 9)
          × (0 < max_routes)
          × (count_route_params text ≤ max_route_params)
          × (true ≡ true))
        ⊎ ((rc ≡ failure)
            × (out ≡ server)
            × ((9 ≤ 0)
                ⊎ ((max_routes ≤ 0)
                    ⊎ ((max_route_params < count_route_params text) ⊎ (true ≡ false))))))
route_lem_example = route_lem server get text count_call [] server-IsValid

abbrev pass : Middleware ℕ
pass = record { before = some (λ req s. (true, s)); after = some count_call }
