-- ===== src/Dispatch/Tests.antt =====
-- Requests on a small server, whose user data is the list of what ran.
use libpapago.Prelude.{ℕ, ◌≤◌, ◌≡◌, ◌⊎◌, ◌||◌, refl, true, false, List, [], ◌∷◌, none, some, arith}
use libpapago.Prelude.Text.{codes, contains, str_eq, span_len}
use libpapago.Method.{get, put, unknown}
use libpapago.Route.{
  Span, count_route_params, max_route_params, count_params_from, next_segment, skip_slashes,
  route_matches, match_route, match_from, match_end, capture,
}
use libpapago.Config.{config_new}
use libpapago.Response.{fresh}
use libpapago.Request.{Request, new_request}
use libpapago.Server.{State, Handler, Before, Route, Slot, Server}
use libpapago.Server.Registration.{IsRoutable}
use libpapago.Dispatch.{same_method, find_route, run_route, answer_no_route, respond}
use libpapago.Dispatch.Selection.{IsFirst, find_route-IsFirst}
use libpapago.Dispatch.Order.{
  Passed, done, called, skipped, Unwound, Covers, respond-Passed, respond_refused,
}
use libpapago.Dispatch.Allowed.{any_other}
use libpapago.Dispatch.Answers.{json_type, allow_kv, answer_no_route_lem}

abbrev Log : Type 0
Log = List ℕ

abbrev note : ℕ → Handler Log
note n req s = record s { world = n ∷ s.world }

abbrev start : State Log
start = record { res = fresh; world = []; alloc = [] }

abbrev user : Route Log
user = record { method = get; path = codes "/u/:id"; handler = note 1; is_static = false }

abbrev home : Route Log
home = record { method = get; path = codes "/"; handler = note 2; is_static = true }

abbrev routes : List (Route Log)
routes = home ∷ user ∷ []

abbrev pass : Before Log
pass req s = (true, record s { world = 3 ∷ s.world })

abbrev refuse : Before Log
refuse req s = (false, record s { world = 4 ∷ s.world })

abbrev logging : Slot Log
logging = record { path = none; before = pass; after = some (note 5) }

abbrev admin : Slot Log
admin = record { path = some (codes "/admin"); before = refuse; after = none }

abbrev server : Server Log
server = record { config = config_new; routes = routes; middleware = logging ∷ admin ∷ [] }

abbrev seen : State Log
seen = record start { world = 3 ∷ [] }

abbrev request : Request
request = new_request get (codes "/u/7")

abbrev large : Request
large = record request { body_too_large = true }

abbrev forbidden : Request
forbidden = new_request get (codes "/admin/x")

few : count_route_params user.path ≤ max_route_params
unfolding count_route_params count_params_from next_segment skip_slashes span_len
few = omega arith

user-IsRoutable : IsRoutable user
user-IsRoutable = record {
  method_known = omega arith;
  params_fit = few;
  static_flag = unfold contains in refl;
}

abbrev id_span : Span
id_span = record { key = codes "id"; key_len = 2; val = codes "7"; val_len = 1; wildcard = false }

found : find_route routes get (codes "/u/7") ≡ some (user, id_span ∷ [])
unfolding find_route route_matches match_route match_from match_end capture next_segment
    skip_slashes span_len str_eq
found = refl

find_route-IsFirst_example : IsFirst routes get (codes "/u/7") user (id_span ∷ [])
find_route-IsFirst_example = find_route-IsFirst routes get (codes "/u/7") user (id_span ∷ []) found

admin-outside : ¬ Covers admin.path request.path
admin-outside (rest, e) = absurd (cc)

passes : Passed request server.middleware start seen
passes = called tt refl (skipped admin-outside done)

respond-Passed_example :
    let (req', u) = run_route routes request seen in
    (v : State Log) × Unwound req' server.middleware u v
    × (respond server request start ≡ (req', v))
respond-Passed_example = respond-Passed server request passes refl

large-passes : Passed large server.middleware start seen
large-passes = called tt refl (skipped admin-outside done)

logging-passes : Passed forbidden (logging ∷ []) start seen
logging-passes = called tt refl done

respond_refused_example :
    respond server forbidden start ≡ (forbidden, record start { world = 4 ∷ 3 ∷ [] })
respond_refused_example =
    respond_refused server forbidden (logging ∷ []) [] admin refl logging-passes (codes "/x", refl)
      refl

abbrev wrong : Request
wrong = new_request put (codes "/u/7")

answer_no_route_lem_example :
    let out = answer_no_route routes wrong start in
    let other = any_other routes put (codes "/u/7") || same_method put unknown in
    ((other ≡ true)
      × (out.res.status ≡ 405)
      × (out.res.headers ≡ allow_kv routes wrong ∷ json_type ∷ []))
    ⊎ ((other ≡ false) × (out.res.status ≡ 404) × (out.res.headers ≡ json_type ∷ []))
answer_no_route_lem_example = answer_no_route_lem routes wrong start refl
