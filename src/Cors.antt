-- ===== src/Cors.antt =====
-- papago.c, CORS: papago_cors_default_config, match_allowed_origin and papago_cors_mw; papago.h,
-- papago_cors_config_t and the names of the headers.
pub mod Origins
pub mod Preflight
pub mod Added
pub mod Headers
mod Tests
use libpapago.Prelude.{
  ℕ, Bool, true, false, not, ◌&&◌, List, [], ◌∷◌, Option, none, some, ltb, is_none, if◌then◌else◌,
}
use libpapago.Prelude.Text.{CString, codes, str_eq, decimal}
use libpapago.Alloc.{Alloc}
use libpapago.Method.{method_name}
use libpapago.Request.{Request, req_header}
use libpapago.Response.{Response, set_status, res_header, res_send}

-- `papago_cors_config_t`; NULL is `none`, and no allowed origins are the empty list. An age that is
-- not positive is 0.
pub record CorsConfig : Type 0 where
  pub allowed_origins : List CString
  pub allowed_methods : Option CString
  pub allowed_headers : Option CString
  pub exposed_headers : Option CString
  pub max_cache_age : ℕ
  pub allow_credentials : Bool

unfoldable pub cors_default_config : CorsConfig
cors_default_config = record {
  allowed_origins = [];
  allowed_methods = some (codes "GET,POST,PUT,PATCH,DELETE,OPTIONS");
  allowed_headers = none;
  exposed_headers = none;
  max_cache_age = 600;
  allow_credentials = false;
}

-- The text `*`.
abbrev pub star : CString
star = codes "*"

-- The loop of match_allowed_origin.
unfoldable pub find_origin : List CString → CString → Option CString
find_origin [] origin = none
find_origin (allowed ∷ rest) origin =
    if str_eq allowed origin
    then some origin
    else if str_eq allowed star
    then some star
    else find_origin rest origin

-- match_allowed_origin for an origin that is not NULL.
unfoldable pub match_allowed_origin : List CString → CString → Option CString
match_allowed_origin [] origin = some origin
match_allowed_origin (allowed ∷ rest) origin = find_origin (allowed ∷ rest) origin

-- A response on its way through papago_res_header.
abbrev pub Step : Type 0
Step = Response × Alloc

unfoldable pub put : CString → Option CString → Step → Step
put key value (res, a) = res_header res (some key) value a

-- `if (b) papago_res_header(...)`
unfoldable pub put_if : Bool → CString → Option CString → Step → Step
put_if b key value s = if b then put key value s else s

-- `if (value != NULL) papago_res_header(...)`
unfoldable pub put_some : CString → Option CString → Step → Step
put_some key none s = s
put_some key (some value) s = put key (some value) s

-- The origin that is sent: with credentials never `*` in place of the request's.
unfoldable pub sent_origin : CorsConfig → CString → CString → CString
sent_origin config origin allow =
    if config.allow_credentials && str_eq allow star then origin else allow

-- The headers of every request with an allowed origin.
unfoldable pub put_origin : CorsConfig → CString → Step → Step
put_origin config allow s =
    put_some (codes "Access-Control-Expose-Headers") config.exposed_headers (
      put_if config.allow_credentials (codes "Access-Control-Allow-Credentials")
        (some (codes "true"))
        (put_if (not (str_eq allow star)) (codes "Vary") (some (codes "Origin"))
          (put (codes "Access-Control-Allow-Origin") (some allow) s)))

-- `allowed_headers` of the configuration, or the headers that the request asks for.
unfoldable pub wanted_headers : CorsConfig → Request → Option CString
wanted_headers config req = elim config.allowed_headers [
  | some headers ↦ some headers
  | none ↦ req_header req (some (codes "Access-Control-Request-Headers"))
]

-- The headers of a preflight request.
unfoldable pub put_preflight : CorsConfig → Request → Step → Step
put_preflight config req s =
    put_if (ltb 0 config.max_cache_age) (codes "Access-Control-Max-Age")
      (some (decimal config.max_cache_age))
      (put_some (codes "Access-Control-Allow-Headers") (wanted_headers config req)
        (put (codes "Access-Control-Allow-Methods") config.allowed_methods s))

-- An OPTIONS request that asks for a method.
unfoldable pub is_preflight : Request → Bool
is_preflight req =
    str_eq (method_name req.method) (codes "OPTIONS")
    && not (is_none (req_header req (some (codes "Access-Control-Request-Method"))))

-- The status and the empty body of the answer to a preflight request.
unfoldable pub send_no_content : Step → Step
send_no_content (res, a) =
    let (rc, res', a') = res_send (set_status res 204) (some []) a in (res', a')

-- papago_cors_mw for an origin that is allowed.
unfoldable pub allow_request : CorsConfig → Request → CString → Step → Bool × Response × Alloc
allow_request config req allow s =
    let (r1, a1) = put_origin config allow s in
    let (r2, a2) = send_no_content (put_preflight config req (r1, a1)) in
    if is_preflight req then (false, r2, a2) else (true, r1, a1)

-- What follows match_allowed_origin.
unfoldable pub answer_origin :
    CorsConfig → Request → CString → Option CString → Step → Bool × Response × Alloc
answer_origin config req origin none (res, a) = (true, res, a)
answer_origin config req origin (some allow) s =
    allow_request config req (sent_origin config origin allow) s

-- What follows the search for the `Origin` header.
unfoldable pub answer_cors : CorsConfig → Request → Option CString → Step → Bool × Response × Alloc
answer_cors config req none (res, a) = (true, res, a)
answer_cors config req (some origin) s =
    answer_origin config req origin (match_allowed_origin config.allowed_origins origin) s

unfoldable pub cors_mw : CorsConfig → Request → Response → Alloc → Bool × Response × Alloc
cors_mw config req res a = answer_cors config req (req_header req (some (codes "Origin"))) (res, a)
