-- ===== src/Dispatch.antt =====
-- papago.c, mhd_handler from the point where the request is complete: the `before` functions, the body
-- limit, the search for a route, the answers 404 and 405, and the `after` functions. The label
-- `send_response` is the end of these functions.

pub mod Selection
pub mod Allowed
pub mod Answers
pub mod Order
pub mod Good
pub mod Valid
mod Tests
use libpapago.Prelude.{
  ℕ, zero, suc, Bool, true, false, not, ◌&&◌, ◌||◌, List, [], ◌∷◌, Option, none, some, ◌==◌,
  is_none, if◌then◌else◌, length, get_elem?,
}
use libpapago.Prelude.Text.{CString, codes, starts_with}
use libpapago.Kv.{Kv, success, failure}
use libpapago.Method.{Method, unknown, number, set_bit, allow_value}
use libpapago.Route.{Span, route_matches, commit_params}
use libpapago.Response.{Response, set_status, res_header, res_json}
use libpapago.Request.{Request}
use libpapago.Server.{State, Handler, Route, Slot, Server}

abbrev pub same_method : Method → Method → Bool
same_method m n = number m == number n

-- Does a slot's path, if it has one, start the path of the request?
unfoldable pub applies : Option CString → CString → Bool
applies none path = true
applies (some prefix) path = starts_with prefix path

module _ {W : Type 0} where
  -- papago_res_json on the response of a state.
  unfoldable pub json : CString → State W → State W
  json text s =
      let (rc, res, a) = res_json s.res (some text) s.alloc in record s { res = res; alloc = a }

  -- papago_res_set_status, then papago_res_json.
  unfoldable pub answer : ℕ → CString → State W → State W
  answer status text s = json text (record s { res = set_status s.res status })

  -- The loop over the `before` functions; false is the jump to `send_response`.
  unfoldable pub run_before : List (Slot W) → Request → State W → Bool × State W
  run_before [] req s = (true, s)
  run_before (slot ∷ slots) req s =
      let skipped = run_before slots req s in
      let called = slot.before req s in
      let rest = run_before slots req called.1 in
      if applies slot.path req.path then (if called.0 then rest else (false, called.1)) else skipped

  -- One round of the loop over the `after` functions.
  unfoldable pub call_after : Slot W → Request → State W → State W
  call_after slot req s = elim slot.after [
    | none ↦ s
    | some after ↦ if applies slot.path req.path then after req s else s
  ]

  -- `for (i = count - 1; i >= 0; i--)`: the number of slots still to come.
  unfoldable pub run_after : List (Slot W) → ℕ → Request → State W → State W
  run_after slots zero req s = s
  run_after slots (suc i) req s = elim (get_elem? slots i) [
    | none ↦ run_after slots i req s
    | some slot ↦ run_after slots i req (call_after slot req s)
  ]

  -- The first route with the method of the request that matches its path, and the captures.
  unfoldable pub find_route : List (Route W) → Method → CString → Option (Route W × List Span)
  find_route [] method path = none
  find_route (r ∷ routes) method path =
      let rest = find_route routes method path in
      let here = route_matches (some r.path) r.is_static (some path) true in
      if same_method r.method method
      then (elim here [ none ↦ rest | some spans ↦ some (r, spans) ])
      else rest

  -- The matching route: its captures are stored and its handler runs, or memory is exhausted.
  unfoldable pub call_route : Route W → List Span → Request → State W → Request × State W
  call_route r spans req s =
      let (rc, params, a) = commit_params req.params spans s.alloc in
      let req' = record req { params = params } in
      let s' = record s { alloc = a } in
      elim rc [
        | success ↦ (req', r.handler req' s')
        | failure ↦ (req', answer 500 (codes "{\"error\":\"out of memory\"}") s')
      ]

  -- The methods other than the request's that have a route for its path.
  unfoldable pub allowed_from : List (Route W) → Method → CString → ℕ → ℕ
  allowed_from [] method path allowed = allowed
  allowed_from (r ∷ routes) method path allowed =
      let matched = not (is_none (route_matches (some r.path) r.is_static (some path) false)) in
      allowed_from routes method path
        (if not (same_method r.method method) && matched then set_bit allowed r.method else allowed)

  -- The answer when no route was found.
  unfoldable pub answer_no_route : List (Route W) → Request → State W → State W
  answer_no_route routes req s =
      let allowed = allowed_from routes req.method req.path 0 in
      let (res, a) =
        res_header (set_status s.res 405) (some (codes "Allow")) (some (allow_value allowed))
          s.alloc in
      if not (allowed == 0) || same_method req.method unknown
      then json (codes "{\"error\":\"method not allowed\"}") (record s { res = res; alloc = a })
      else answer 404 (codes "{\"error\":\"not found\"}") s

  -- The route's handler, or the answer that there is none.
  unfoldable pub run_route : List (Route W) → Request → State W → Request × State W
  run_route routes req s =
      let found : Option (Route W × List Span) =
        if same_method req.method unknown then none else find_route routes req.method req.path in
      elim found [
        | none ↦ (req, answer_no_route routes req s)
        | some (r, spans) ↦ call_route r spans req s
      ]

  -- What runs for a request whose certificate, if one is wanted, was accepted.
  unfoldable pub respond : Server W → Request → State W → Request × State W
  respond server req s =
      let (go, s1) = run_before server.middleware req s in
      let (req', s2) = run_route server.routes req s1 in
      if not go
      then (req, s1)
      else if req.body_too_large
      then (req, answer 413 (codes "{\"error\":\"payload too large\"}") s1)
      else (req', run_after server.middleware (length server.middleware) req' s2)
