-- ===== src/Server.antt =====
-- papago.c, what a server holds of routes and middleware, and papago_route, papago_middleware_add and
-- papago_middleware_path_add. Handlers and middleware are code of the user: functions on a state that
-- holds the response, the world of the user's own data, and the outcomes of allocations to come.
pub mod Registration
mod Tests
use libpapago.Prelude.{
  ℕ, Bool, true, false, not, ◌&&◌, ◌||◌, List, [], ◌∷◌, ◌++◌, Option, none, some, ltb, leb, ◌==◌,
  if◌then◌else◌, length,
}
use libpapago.Prelude.Text.{CString, contains}
use libpapago.Alloc.{Alloc, malloc}
use libpapago.Kv.{Status, success, failure}
use libpapago.Method.{Method, number}
use libpapago.Route.{count_route_params, max_route_params}
use libpapago.Response.{Response}
use libpapago.Request.{Request}
use libpapago.Config.{Config}

-- What a handler can change.
pub record State (W : Type 0) : Type 0 where
  pub res : Response
  pub world : W
  pub alloc : Alloc

-- `papago_handler_t`, and the `after` function of a middleware.
abbrev pub Handler : Type 0 → Type 0
Handler W = Request → State W → State W

-- The `before` function: false ends the request.
abbrev pub Before : Type 0 → Type 0
Before W = Request → State W → Bool × State W

-- `papago_route_t`
pub record Route (W : Type 0) : Type 0 where
  pub method : Method
  pub path : CString
  pub handler : Handler W
  pub is_static : Bool

-- `papago_middleware_t`; a NULL function is `none`.
pub record Middleware (W : Type 0) : Type 0 where
  pub before : Option (Before W)
  pub after : Option (Handler W)

-- `papago_middleware_slot_t` with the middleware that it points to.
pub record Slot (W : Type 0) : Type 0 where
  pub path : Option CString
  pub before : Before W
  pub after : Option (Handler W)

pub record Server (W : Type 0) : Type 0 where
  pub config : Config
  pub routes : List (Route W)
  pub middleware : List (Slot W)

-- PAPAGO_MAX_ROUTES and PAPAGO_MAX_MIDDLEWARE
abbrev pub max_routes : ℕ
max_routes = 512

abbrev pub max_middleware : ℕ
max_middleware = 256

-- `strchr(path, ':') == NULL && strchr(path, '*') == NULL`
abbrev pub has_no_capture : CString → Bool
has_no_capture path = not (contains b':' path) && not (contains b'*' path)

-- `slot->path`: the copy of the path, and whether it is there when a path was given.
unfoldable pub dup_path : Option CString → Alloc → Bool × Alloc
dup_path none a = (true, a)
dup_path (some path) a = malloc a

module _ {W : Type 0} where
  -- papago_route once the path and the handler are given.
  unfoldable pub add_route :
      Server W → Method → CString → Handler W → Alloc → Status × Server W × Alloc
  add_route server method path handler a =
      let (done, a') = malloc a in
      let route : Route W = record {
        method = method;
        path = path;
        handler = handler;
        is_static = has_no_capture path;
      } in
      if leb 9 (number method) || leb max_routes (length server.routes)
      then (failure, server, a)
      else if ltb max_route_params (count_route_params path)
      then (failure, server, a)
      else if done
      then (success, record server { routes = server.routes ++ route ∷ [] }, a')
      else (failure, server, a')

  -- papago_route; NULL is `none`.
  unfoldable pub route :
      Server W → Method → Option CString → Option (Handler W) → Alloc → Status × Server W × Alloc
  route server method none handler a = (failure, server, a)
  route server method (some path) none a = (failure, server, a)
  route server method (some path) (some handler) a = add_route server method path handler a

  -- papago_middleware_path_add once the middleware and its `before` are given.
  unfoldable pub add_slot : Server W → Slot W → Alloc → Status × Server W × Alloc
  add_slot server slot a =
      let (done, a') = dup_path slot.path a in
      if leb max_middleware (length server.middleware)
      then (failure, server, a)
      else if done
      then (success, record server { middleware = server.middleware ++ slot ∷ [] }, a')
      else (failure, server, a')

  unfoldable pub middleware_path_add :
      Server W → Option CString → Option (Middleware W) → Alloc → Status × Server W × Alloc
  middleware_path_add server path none a = (failure, server, a)
  middleware_path_add server path (some m) a = elim m.before [
    | none ↦ (failure, server, a)
    | some before ↦ add_slot server (record { path = path; before = before; after = m.after }) a
  ]

  unfoldable pub middleware_add :
      Server W → Option (Middleware W) → Alloc → Status × Server W × Alloc
  middleware_add server m a = middleware_path_add server none m a
