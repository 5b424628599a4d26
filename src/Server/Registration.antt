-- ===== src/Server/Registration.antt =====
-- What a server's tables hold after any sequence of registrations.
use libpapago.Prelude.{
  ◌≤◌, ◌<◌, ◌≡◌, refl, true, false, [], ◌∷◌, ◌++◌, Option, some, arith, ◌⊎◌, inl, inr, length,
  length-append, All, All-append, Bool-cases, Option-cases, ltb, leb, ◌||◌,
}
use libpapago.Prelude.Text.{CString}
use libpapago.Alloc.{Alloc, malloc}
use libpapago.Kv.{success, failure}
use libpapago.Method.{Method, number}
use libpapago.Route.{count_route_params, max_route_params}
use libpapago.Server.{
  Handler, Server, Route, Slot, Middleware, max_routes, max_middleware, has_no_capture, add_route,
  route, add_slot, middleware_path_add, dup_path,
}

module _ {W : Type 0} where
  -- A route that the router can serve: a method that a request can have, at most 16 parameters, and
  -- the flag for exact comparison set exactly when the pattern captures nothing.
  pub record IsRoutable (r : Route W) : Type 0 where
    pub method_known : number r.method < 9
    pub params_fit : count_route_params r.path ≤ max_route_params
    pub static_flag : r.is_static ≡ has_no_capture r.path

  -- The tables stay within their bounds, and every route can be served.
  pub record IsValid (server : Server W) : Type 0 where
    pub routes_bound : length server.routes ≤ max_routes
    pub middleware_bound : length server.middleware ≤ max_middleware
    pub routable : All IsRoutable server.routes

  new_route : Method → CString → Handler W → Route W
  new_route method path handler = record {
    method = method;
    path = path;
    handler = handler;
    is_static = has_no_capture path;
  }

  push_route-IsValid :
      (server : Server W) (r : Route W)
      → IsValid server
      → length server.routes < max_routes
      → IsRoutable r
      → IsValid (record server { routes = server.routes ++ r ∷ [] })
  push_route-IsValid server r v room ok = record {
    routes_bound = omega (arith, length-append server.routes (r ∷ []));
    middleware_bound = v.middleware_bound;
    routable = All-append IsRoutable server.routes (r ∷ []) v.routable (ok, tt);
  }

  -- papago_route either fails and leaves the server as it was, or appends one route with the given
  -- method, path and handler, which can be served; it succeeds exactly when the method is one of the
  -- nine that a request can have, there is room, the pattern has at most 16 parameters and the copy of
  -- the path can be allocated. It keeps the tables valid.
  pub route_lem :
      (server : Server W) (method : Method) (path : CString) (handler : Handler W) (a : Alloc)
      → IsValid server
      → let (rc, out, rest) = route server method (some path) (some handler) a in
        IsValid out
        × (((rc ≡ success)
              × (out ≡ record server {
                routes =
                    server.routes
                    ++ record {
                      method = method;
                      path = path;
                      handler = handler;
                      is_static = has_no_capture path;
                    }
                      ∷ [];
              })
              × (number method < 9)
              × (length server.routes < max_routes)
              × (count_route_params path ≤ max_route_params)
              × ((malloc a).0 ≡ true))
            ⊎ ((rc ≡ failure)
                × (out ≡ server)
                × ((9 ≤ number method)
                    ⊎ ((max_routes ≤ length server.routes)
                        ⊎ ((max_route_params < count_route_params path)
                            ⊎ ((malloc a).0 ≡ false))))))
  unfolding route add_route new_route
  route_lem server method path handler a v =
      elim (Bool-cases (leb 9 (number method) || leb max_routes (length server.routes))) [
        | inl e ↦ rw e (v, inr (refl, refl, ground arith))
        | inr e ↦ elim (Bool-cases (ltb max_route_params (count_route_params path))) [
          | inl f ↦ rw (e, f) (v, inr (refl, refl, ground arith))
          | inr f ↦ elim (Bool-cases (malloc a).0) [
            | inl g ↦
                let room : length server.routes < max_routes = ground arith in
                let fits : count_route_params path ≤ max_route_params = ground arith in
                let known : number method < 9 = ground arith in
                rw (e, f, g)
                  (
                    push_route-IsValid server (new_route method path handler) v room
                        (record { method_known = known; params_fit = fits; static_flag = refl }),
                    inl (refl, refl, known, room, fits, refl),
                  )
            | inr g ↦ rw (e, f, g) (v, inr (refl, refl, inr (inr (inr refl))))
          ]
        ]
      ]

  add_slot_lem :
      (server : Server W) (slot : Slot W) (a : Alloc)
      → IsValid server
      → let (rc, out, rest) = add_slot server slot a in
        IsValid out
        × (((rc ≡ failure) × (out ≡ server))
            ⊎ ((rc ≡ success)
                × (out ≡ record server { middleware = server.middleware ++ slot ∷ [] })))
  unfolding add_slot
  add_slot_lem server slot a v = elim (Bool-cases (leb max_middleware (length server.middleware))) [
    | inl e ↦ rw e (v, inl (refl, refl))
    | inr e ↦ elim (Bool-cases (dup_path slot.path a).0) [
      | inl f ↦
          rw (e, f)
            (
              record {
                routes_bound = v.routes_bound;
                middleware_bound = ground (arith, length-append server.middleware (slot ∷ []));
                routable = v.routable;
              },
              inr (refl, refl),
            )
      | inr f ↦ rw (e, f) (v, inl (refl, refl))
    ]
  ]

  -- papago_middleware_path_add either fails and leaves the server as it was, or appends one slot; it
  -- keeps the tables valid. A middleware with no `before` function is refused.
  pub middleware_path_add_lem :
      (server : Server W) (path : Option CString) (m : Middleware W) (a : Alloc)
      → IsValid server
      → let (rc, out, rest) = middleware_path_add server path (some m) a in
        IsValid out
        × (((rc ≡ failure) × (out ≡ server))
            ⊎ ((slot : Slot W) × (rc ≡ success)
                × (out ≡ record server { middleware = server.middleware ++ slot ∷ [] })
                × (slot.path ≡ path)
                × (m.before ≡ some slot.before)
                × (slot.after ≡ m.after)))
  unfolding middleware_path_add
  middleware_path_add_lem server path m a v = elim (Option-cases m.before) [
    | inl e ↦ rw e (v, inl (refl, refl))
    | inr (before, e) ↦
        let slot : Slot W = record { path = path; before = before; after = m.after } in
        let (valid, outcome) = add_slot_lem server slot a v in
        rw e (
          valid,
          elim outcome [
            | inl h ↦ inl h
            | inr (done, same) ↦ inr (slot, done, same, refl, refl, refl)
          ],
        )
  ]
