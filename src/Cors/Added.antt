-- ===== src/Cors/Added.antt =====
-- The headers that papago_cors_mw adds to a response.
use libpapago.Prelude.{
  ◌≡◌, refl, ap, sym, ◌∙◌, Bool, true, false, not, List, [], ◌∷◌, ◌++◌, Option, none, some, ltb,
  Option-cases, inl, inr, append_assoc, append-nil,
}
use mathlib.Core.Path.{subst}
use libpapago.Prelude.Text.{CString, codes, str_eq, decimal}
use libpapago.Kv.{Kv, add_kv}
use libpapago.Kv.Laws.{add_kv_plenty}
use libpapago.Request.{Request, req_header}
use libpapago.Response.{Response, res_header}
use libpapago.Cors.{
  CorsConfig, star, Step, put, put_if, put_some, put_origin, wanted_headers, put_preflight,
}

-- A response with more headers.
abbrev pub with_headers : Response → List Kv → Response
with_headers res kvs = record res { headers = res.headers ++ kvs }

-- A header that is there on a condition, or with a value.
abbrev pub when : Bool → CString → CString → List Kv
when true key value = record { key = key; value = value } ∷ []
when false key value = []

abbrev pub maybe : CString → Option CString → List Kv
maybe key none = []
maybe key (some value) = record { key = key; value = value } ∷ []

-- The headers of every request with an allowed origin, and those that a preflight request gets
-- besides.
unfoldable pub origin_kvs : CorsConfig → CString → List Kv
origin_kvs config sent =
    ((maybe (codes "Access-Control-Allow-Origin") (some sent)
        ++ when (not (str_eq sent star)) (codes "Vary") (codes "Origin"))
      ++ when config.allow_credentials (codes "Access-Control-Allow-Credentials") (codes "true"))
    ++ maybe (codes "Access-Control-Expose-Headers") config.exposed_headers

-- A value, or else another.
unfoldable pub first_of : Option CString → Option CString → Option CString
first_of none other = other
first_of (some value) other = some value

-- The headers that a preflight request asks for.
abbrev pub requested : Request → Option CString
requested req = req_header req (some (codes "Access-Control-Request-Headers"))

unfoldable pub preflight_kvs : CorsConfig → Request → List Kv
preflight_kvs config req =
    (maybe (codes "Access-Control-Allow-Methods") config.allowed_methods
      ++ maybe (codes "Access-Control-Allow-Headers")
          (first_of config.allowed_headers (requested req)))
    ++ when (ltb 0 config.max_cache_age) (codes "Access-Control-Max-Age")
        (decimal config.max_cache_age)

with_headers-nil : (res : Response) → with_headers res [] ≡ res
with_headers-nil res = ap (λ hs. record res { headers = hs }) (append-nil res.headers)

with_headers-append :
    (res : Response) (ks ls : List Kv)
    → with_headers (with_headers res ks) ls ≡ with_headers res (ks ++ ls)
with_headers-append res ks ls =
    ap (λ hs. record res { headers = hs }) (append_assoc res.headers ks ls)

put-none : (res : Response) (key : CString) → put key none (res, []) ≡ (with_headers res [], [])
unfolding put res_header add_kv
put-none res key = ap (λ (r : Response). (r, [])) (sym (with_headers-nil res))

put-some :
    (res : Response) (key value : CString)
    → put key (some value) (res, []) ≡ (with_headers res (maybe key (some value)), [])
unfolding put res_header
put-some res key value = rw (add_kv_plenty res.headers key value)

-- A step that adds these headers, when no allocation fails.
Adds : (Step → Step) → List Kv → Type 0
Adds f ks = (res : Response) → f (res, []) ≡ (with_headers res ks, [])

put-Adds : (key : CString) (value : Option CString) → Adds (put key value) (maybe key value)
unfolding Adds
put-Adds key none res = put-none res key
put-Adds key (some v) res = put-some res key v

put_some-Adds :
    (key : CString) (value : Option CString) → Adds (put_some key value) (maybe key value)
unfolding Adds put_some
put_some-Adds key none res = ap (λ (r : Response). (r, [])) (sym (with_headers-nil res))
put_some-Adds key (some v) res = put-some res key v

put_if-Adds : (b : Bool) (key value : CString) → Adds (put_if b key (some value)) (when b key value)
unfolding Adds put_if
put_if-Adds true key value res = put-some res key value
put_if-Adds false key value res = ap (λ (r : Response). (r, [])) (sym (with_headers-nil res))

Adds-then :
    (f g : Step → Step) (ks ls : List Kv) → Adds f ks → Adds g ls → Adds (λ s. g (f s)) (ks ++ ls)
unfolding Adds
Adds-then f g ks ls hf hg res =
    ap g (hf res)
    ∙ hg (with_headers res ks)
    ∙ ap (λ (r : Response). (r, [])) (with_headers-append res ks ls)

put_origin-Adds :
    (config : CorsConfig) (sent : CString) → Adds (put_origin config sent) (origin_kvs config sent)
unfolding put_origin origin_kvs
put_origin-Adds config sent =
    let origin = put-Adds (codes "Access-Control-Allow-Origin") (some sent) in
    let vary = put_if-Adds (not (str_eq sent star)) (codes "Vary") (codes "Origin") in
    let credentials =
      put_if-Adds config.allow_credentials (codes "Access-Control-Allow-Credentials")
        (codes "true") in
    let expose = put_some-Adds (codes "Access-Control-Expose-Headers") config.exposed_headers in
    Adds-then _ _ _ _ (Adds-then _ _ _ _ (Adds-then _ _ _ _ origin vary) credentials) expose

wanted_headers-first_of :
    (config : CorsConfig) (req : Request)
    → wanted_headers config req ≡ first_of config.allowed_headers (requested req)
unfolding wanted_headers first_of
wanted_headers-first_of config req = elim (Option-cases config.allowed_headers) [
  | inl e ↦ rw e refl
  | inr (headers, e) ↦ rw e refl
]

put_preflight-Adds :
    (config : CorsConfig) (req : Request)
    → Adds (put_preflight config req) (preflight_kvs config req)
unfolding put_preflight preflight_kvs
put_preflight-Adds config req =
    let methods = put-Adds (codes "Access-Control-Allow-Methods") config.allowed_methods in
    let key = codes "Access-Control-Allow-Headers" in
    let headers =
      subst (λ o. Adds (put_some key (wanted_headers config req)) (maybe key o))
        (wanted_headers-first_of config req) (put_some-Adds key (wanted_headers config req)) in
    let age =
      put_if-Adds (ltb 0 config.max_cache_age) (codes "Access-Control-Max-Age")
        (decimal config.max_cache_age) in
    Adds-then _ _ _ _ (Adds-then _ _ _ _ methods headers) age

pub put_origin-once :
    (config : CorsConfig) (sent : CString) (res : Response)
    → put_origin config sent (res, []) ≡ (with_headers res (origin_kvs config sent), [])
unfolding Adds
put_origin-once config sent res = put_origin-Adds config sent res

pub put_both :
    (config : CorsConfig) (req : Request) (sent : CString) (res : Response)
    → put_preflight config req (put_origin config sent (res, []))
      ≡ (with_headers (with_headers res (origin_kvs config sent)) (preflight_kvs config req), [])
unfolding Adds
put_both config req sent res =
    ap (put_preflight config req) (put_origin-Adds config sent res)
    ∙ put_preflight-Adds config req (with_headers res (origin_kvs config sent))
