-- ===== src/Dispatch/Answers.antt =====
-- The answers when no route is found: 404 when no method has a route for the path, 405 with an Allow
-- header when another method has one or the method of the request is not known.
use libpapago.Prelude.{
  append_assoc, ◌≡◌, refl, ap, ◌∙◌, true, false, ◌||◌, List, [], ◌∷◌, ◌++◌, Option, some,
  Bool-cases, inl, inr, ◌⊎◌,
}
use libpapago.Prelude.Text.{CString, codes}
use libpapago.Alloc.{Alloc}
use libpapago.Kv.{Kv}
use libpapago.Kv.Laws.{add_kv_plenty}
use libpapago.Method.{unknown, methods, allow_value}
use libpapago.Method.Allow.{allow_value_lem, comma_list}
use libpapago.Response.{Response, set_status, res_header, res_send, res_json}
use libpapago.Request.{Request}
use libpapago.Server.{State, Route}
use libpapago.Dispatch.Allowed.{
  not-not, any_other, other_names, allowed_from_lem, allowed_names-other_names,
}
use libpapago.Dispatch.{same_method, json, answer, allowed_from, answer_no_route}

-- The Content-Type of an answer in JSON.
abbrev pub json_type : Kv
json_type = record { key = codes "Content-Type"; value = codes "application/json" }

res_send_rest :
    (res : Response) (body : Option CString) (a : Alloc)
    → ((res_send res body a).1.status ≡ res.status)
      × ((res_send res body a).1.headers ≡ res.headers)
unfolding res_send
res_send_rest res body a = elim (Bool-cases res.is_stream_file) [
  | inl e ↦ rw e (refl, refl)
  | inr e ↦ rw e (refl, refl)
]

res_header_status :
    (res : Response) (key value : Option CString) (a : Alloc)
    → (res_header res key value a).0.status ≡ res.status
unfolding res_header
res_header_status res key value a = refl

res_header_fresh :
    (res : Response) (k v : CString)
    → res_header res (some k) (some v) []
      ≡ (record res { headers = res.headers ++ record { key = k; value = v } ∷ [] }, [])
unfolding res_header
res_header_fresh res k v = rw (add_kv_plenty res.headers k v)

module _ {W : Type 0} where
  json_status : (text : CString) (s : State W) → (json text s).res.status ≡ s.res.status
  unfolding json res_json
  json_status text s =
      let (res, a) =
        res_header s.res (some (codes "Content-Type")) (some (codes "application/json")) s.alloc in
      (res_send_rest res (some text) a).0
      ∙ res_header_status s.res (some (codes "Content-Type")) (some (codes "application/json"))
          s.alloc

  json_headers :
      (text : CString) (s : State W)
      → s.alloc ≡ []
      → (json text s).res.headers ≡ s.res.headers ++ json_type ∷ []
  unfolding json res_json
  json_headers text s e =
      let (res, a) =
        res_header s.res (some (codes "Content-Type")) (some (codes "application/json")) s.alloc in
      (res_send_rest res (some text) a).1
      ∙ ap (λ (x : Response × Alloc). x.0.headers)
          (ap (res_header s.res (some (codes "Content-Type")) (some (codes "application/json"))) e
            ∙ res_header_fresh s.res (codes "Content-Type") (codes "application/json"))

  -- The Allow header of an answer: the other methods with a route for the path.
  abbrev pub allow_kv : List (Route W) → Request → Kv
  allow_kv routes req = record {
    key = codes "Allow";
    value = comma_list (other_names routes req.method req.path methods);
  }

  -- The state in which the answer 405 is written: the status and the Allow header are set.
  with_allow : List (Route W) → Request → State W → State W
  with_allow routes req s =
      let allowed = allowed_from routes req.method req.path 0 in
      let (res, a) =
        res_header (set_status s.res 405) (some (codes "Allow")) (some (allow_value allowed))
          s.alloc in
      record s { res = res; alloc = a }

  answer_405 :
      (routes : List (Route W)) (req : Request) (s : State W)
      → (any_other routes req.method req.path || same_method req.method unknown) ≡ true
      → answer_no_route routes req s
        ≡ json (codes "{\"error\":\"method not allowed\"}") (with_allow routes req s)
  unfolding answer_no_route with_allow
  answer_405 routes req s h = rw (
    (allowed_from_lem routes req.method req.path unknown).1,
    not-not (any_other routes req.method req.path),
    h,
  )

  answer_404 :
      (routes : List (Route W)) (req : Request) (s : State W)
      → (any_other routes req.method req.path || same_method req.method unknown) ≡ false
      → answer_no_route routes req s
        ≡ json (codes "{\"error\":\"not found\"}") (record s { res = set_status s.res 404 })
  unfolding answer_no_route answer
  answer_404 routes req s h = rw (
    (allowed_from_lem routes req.method req.path unknown).1,
    not-not (any_other routes req.method req.path),
    h,
  )

  with_allow_lem :
      (routes : List (Route W)) (req : Request) (s : State W)
      → s.alloc ≡ []
      → let t = with_allow routes req s in
        (t.res.status ≡ 405)
        × (t.alloc ≡ [])
        × (t.res.headers ≡ s.res.headers ++ allow_kv routes req ∷ [])
  unfolding with_allow
  with_allow_lem routes req s e =
      let allowed = allowed_from routes req.method req.path 0 in
      let value : allow_value allowed
          ≡ comma_list (other_names routes req.method req.path methods) =
        allow_value_lem allowed
        ∙ ap comma_list (allowed_names-other_names routes req.method req.path methods) in
      let write = res_header (set_status s.res 405) (some (codes "Allow")) in
      let added =
        ap (write (some (allow_value allowed))) e
        ∙ res_header_fresh (set_status s.res 405) (codes "Allow") (allow_value allowed) in
      (
        ap (λ (x : Response × Alloc). x.0.status) added,
        ap (λ (x : Response × Alloc). x.1) added,
        ap (λ (x : Response × Alloc). x.0.headers) added
            ∙ ap (λ v. s.res.headers ++ record { key = codes "Allow"; value = v } ∷ []) value,
      )

  -- The answer when no route is found, while no allocation fails: 405 with an Allow header that lists
  -- exactly the other methods with a route for the path, if there is one or the method of the request
  -- is not known, and 404 otherwise.
  pub answer_no_route_lem :
      (routes : List (Route W)) (req : Request) (s : State W)
      → s.alloc ≡ []
      → let out = answer_no_route routes req s in
        let other = any_other routes req.method req.path || same_method req.method unknown in
        ((other ≡ true)
          × (out.res.status ≡ 405)
          × (out.res.headers ≡ s.res.headers ++ allow_kv routes req ∷ json_type ∷ []))
        ⊎ ((other ≡ false)
            × (out.res.status ≡ 404)
            × (out.res.headers ≡ s.res.headers ++ json_type ∷ []))
  answer_no_route_lem routes req s e =
      elim (Bool-cases (any_other routes req.method req.path || same_method req.method unknown)) [
        | inl other ↦
            let text = codes "{\"error\":\"method not allowed\"}" in
            let t = with_allow routes req s in
            let (status, plenty, headers) = with_allow_lem routes req s e in
            let same = answer_405 routes req s other in
            inl (
              other,
              ap (λ u. u.res.status) same ∙ json_status text t ∙ status,
              ap (λ u. u.res.headers) same
                  ∙ json_headers text t plenty
                  ∙ ap (λ kvs. kvs ++ json_type ∷ []) headers
                  ∙ append_assoc s.res.headers (allow_kv routes req ∷ []) (json_type ∷ []),
            )
        | inr nobody ↦
            let text = codes "{\"error\":\"not found\"}" in
            let t = record s { res = set_status s.res 404 } in
            let same = answer_404 routes req s nobody in
            inr (
              nobody,
              ap (λ u. u.res.status) same ∙ json_status text t,
              ap (λ u. u.res.headers) same ∙ json_headers text t e,
            )
      ]
