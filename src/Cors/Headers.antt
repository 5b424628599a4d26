-- ===== src/Cors/Headers.antt =====
-- Which headers a request with an allowed origin gets.
use libpapago.Prelude.{
  ◌≡◌, ◌⊎◌, refl, ap, ◌∙◌, Bool, true, false, [], ◌++◌, none, some, Bool-cases, Option-cases, inl,
  inr,
}
use libpapago.Prelude.Text.{CString, codes}
use libpapago.Alloc.{Alloc}
use libpapago.Request.{Request, req_header}
use libpapago.Response.{Response, res_send}
use libpapago.Cors.Origins.{Permits, not_permitted, IsSent, sent_origin-IsSent, permitted}
use libpapago.Cors.Added.{with_headers, origin_kvs, preflight_kvs, put_both, put_origin-once}
use libpapago.Cors.Preflight.{Asks, is_preflight_iff}
use libpapago.Cors.{
  CorsConfig, match_allowed_origin, Step, sent_origin, put_origin, put_preflight, is_preflight,
  send_no_content, allow_request, answer_origin, answer_cors, cors_mw,
}

send_no_content_lem :
    (res : Response)
    → let (out, a) = send_no_content (res, []) in (out.status ≡ 204) × (out.headers ≡ res.headers)
unfolding send_no_content res_send
send_no_content_lem res = elim (Bool-cases res.is_stream_file) [
  | inl h ↦ rw h (refl, refl)
  | inr h ↦ rw h (refl, refl)
]

allow_request-preflight :
    (config : CorsConfig) (req : Request) (sent : CString) (s : Step)
    → is_preflight req ≡ true
    → allow_request config req sent s ≡ (
        let out = send_no_content (put_preflight config req (put_origin config sent s)) in
        (false, out.0, out.1))
unfolding allow_request
allow_request-preflight config req sent s h = rw h

allow_request-plain :
    (config : CorsConfig) (req : Request) (sent : CString) (s : Step)
    → is_preflight req ≡ false
    → allow_request config req sent s ≡ (let out = put_origin config sent s in (true, out.0, out.1))
unfolding allow_request
allow_request-plain config req sent s h = rw h

-- What a request with an allowed origin gets, when no allocation fails.
abbrev pub IsAnswered : CorsConfig → Request → CString → Response → Bool × Response × Alloc → Type 0
IsAnswered config req origin res (go, out, rest) =
    (sent : CString) × IsSent config origin sent
    × ((Asks req
          × (go ≡ false)
          × (out.status ≡ 204)
          × (out.headers ≡ (res.headers ++ origin_kvs config sent) ++ preflight_kvs config req))
        ⊎ ((¬ Asks req) × (go ≡ true) × (out ≡ with_headers res (origin_kvs config sent))))

allow_request-IsAnswered :
    (config : CorsConfig) (req : Request) (origin sent : CString) (res : Response)
    → IsSent config origin sent
    → IsAnswered config req origin res (allow_request config req sent (res, []))
allow_request-IsAnswered config req origin sent res told = elim (Bool-cases (is_preflight req)) [
  | inl h ↦
      let both =
        with_headers (with_headers res (origin_kvs config sent)) (preflight_kvs config req) in
      let out = send_no_content_lem both in
      rw (allow_request-preflight config req sent (res, []) h, put_both config req sent res)
        (sent, told, inl ((is_preflight_iff req).0 h, refl, out.0, out.1))
  | inr h ↦
      let p = allow_request-plain config req sent (res, []) h in
      (
        sent,
        told,
        inr (
          λ asks. absurd (cc (h, (is_preflight_iff req).1 asks)),
          ap (λ t. t.0) p,
          ap (λ t. t.1) p ∙ ap (λ t. t.0) (put_origin-once config sent res),
        ),
      )
]

-- A request whose origin is permitted gets the headers of the configuration in their order, with its own
-- origin when credentials are allowed, the list of origins is empty or its origin comes on it before any
-- `*`, and otherwise `*`. If it is a preflight request, OPTIONS with the header
-- Access-Control-Request-Method, it is answered with 204 and its own headers besides, among them the
-- allowed headers of the configuration or else those that it asks for; any other request goes on. No
-- allocation fails.
pub cors_mw-IsAnswered :
    (config : CorsConfig) (req : Request) (origin : CString) (res : Response)
    → req_header req (some (codes "Origin")) ≡ some origin
    → Permits config.allowed_origins origin
    → IsAnswered config req origin res (cors_mw config req res [])
unfolding cors_mw answer_cors answer_origin
cors_mw-IsAnswered config req origin res h p =
    let (allow, k) = permitted config.allowed_origins origin p in
    rw (h, k)
      (allow_request-IsAnswered config req origin (sent_origin config origin allow) res
        (sent_origin-IsSent config origin allow k))

-- A request without an origin, or with one that is not permitted, goes on with its response as it was.
pub cors_mw_untouched :
    (config : CorsConfig) (req : Request) (res : Response) (a : Alloc)
    → ((origin : CString)
        → req_header req (some (codes "Origin")) ≡ some origin
        → ¬ Permits config.allowed_origins origin)
    → cors_mw config req res a ≡ (true, res, a)
unfolding cors_mw
cors_mw_untouched config req res a h =
    elim (Option-cases (req_header req (some (codes "Origin")))) [
      | inl e ↦ rw e (unfold answer_cors in refl)
      | inr (origin, e) ↦
          let n : match_allowed_origin config.allowed_origins origin ≡ none =
            not_permitted config.allowed_origins origin (h origin e) in
          rw e (unfold answer_cors in rw n (unfold answer_origin in refl))
    ]
