-- ===== src/Cors/Tests.antt =====
-- The CORS middleware of papago.c with one allowed origin and credentials.
use libpapago.Prelude.{◌≡◌, inr, refl, true, [], ◌∷◌, none, some}
use libpapago.Prelude.Text.{CString, codes, str_eq, str_case_eq, to_lower}
use libpapago.Kv.{find_kv}
use libpapago.Method.{options}
use libpapago.Request.{Request, new_request, req_header}
use libpapago.Response.{fresh}
use libpapago.Cors.{CorsConfig, star, cors_mw}
use libpapago.Cors.Origins.{Permits}
use libpapago.Cors.Headers.{IsAnswered, cors_mw-IsAnswered}

abbrev config : CorsConfig
config = record {
  allowed_origins = codes "http://a" ∷ star ∷ [];
  allowed_methods = some (codes "GET");
  allowed_headers = none;
  exposed_headers = none;
  max_cache_age = 600;
  allow_credentials = true;
}

abbrev strict : CorsConfig
strict = record config { allowed_origins = codes "http://a" ∷ [] }

abbrev from : CString → Request
from origin = record (new_request options (codes "/")) {
  headers =
      record { key = codes "origin"; value = origin }
      ∷ record { key = codes "Access-Control-Request-Method"; value = codes "GET" }
      ∷ [];
}

abbrev other : CString
other = codes "http://b"

origin_header : (origin : CString) → req_header (from origin) (some (codes "Origin")) ≡ some origin
unfolding req_header find_kv str_case_eq str_eq to_lower
origin_header origin = refl

other-Permits : Permits config.allowed_origins other
other-Permits = inr (λ all. all.1.0.1 refl)

cors_mw-IsAnswered_example :
    IsAnswered config (from other) other fresh (cors_mw config (from other) fresh [])
cors_mw-IsAnswered_example =
    cors_mw-IsAnswered config (from other) other fresh (origin_header other) other-Permits

none_header : req_header (new_request options (codes "/")) (some (codes "Origin")) ≡ none
unfolding req_header find_kv
none_header = refl

not_asked :
    (origin : CString)
    → req_header (new_request options (codes "/")) (some (codes "Origin")) ≡ some origin
    → ¬ Permits strict.allowed_origins origin
not_asked origin h = absurd (cc (h, none_header))
