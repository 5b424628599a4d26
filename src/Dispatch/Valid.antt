-- ===== src/Dispatch/Valid.antt =====
-- A request ends with a valid response, whatever the routes and the middleware do, if the functions of
-- the user keep responses valid.
use libpapago.Prelude.{
  ℕ, zero, suc, ◌≡◌, refl, ap, ◌∙◌, not, ◌||◌, List, [], ◌∷◌, ◌++◌, some, ◌==◌, All, get_elem?,
  length, Bool-cases, Option-cases, inl, inr, map,
}
use mathlib.Core.Path.{subst}
use mathlib.Core.Option.{some-injective}
use libpapago.Prelude.Text.{codes}
use libpapago.Method.{unknown, allow_value}
use libpapago.Route.{Span, commit_params}
use libpapago.Route.Matching.{span_kv}
use libpapago.Route.Params.{commit_params_fresh}
use libpapago.Response.{set_status, res_header}
use libpapago.Request.{Request}
use libpapago.Server.{State, Handler, Route, Slot, Server}
use libpapago.Dispatch.Selection.{find_route-IsFirst}
use libpapago.Dispatch.{
  same_method, applies, run_before, call_after, run_after, find_route, call_route, allowed_from,
  answer_no_route, run_route, respond,
}
use libpapago.Dispatch.Good.{IsGood, header-IsGood, json-IsGood, status-IsGood, answer-IsGood}

module _ {W : Type 0} where
  -- A handler keeps the response valid.
  abbrev pub IsKeeping : Handler W → Type 0
  IsKeeping f = (req : Request) (s : State W) → IsGood s → IsGood (f req s)

  -- So does a middleware: its `before`, and its `after` if there is one.
  pub record IsKeepingSlot (slot : Slot W) : Type 0 where
    pub before : (req : Request) (s : State W) → IsGood s → IsGood (slot.before req s).1
    pub after : (f : Handler W) → slot.after ≡ some f → IsKeeping f

  -- So do all functions of a server.
  pub record IsKeepingServer (server : Server W) : Type 0 where
    pub routes : All (λ r. IsKeeping r.handler) server.routes
    pub slots : All IsKeepingSlot server.middleware

  run_before-IsGood :
      (slots : List (Slot W)) (req : Request) (s : State W)
      → All IsKeepingSlot slots
      → IsGood s
      → IsGood (run_before slots req s).1
  unfolding run_before
  run_before-IsGood [] req s keep g = g
  run_before-IsGood (slot ∷ slots) req s keep g =
      let called = slot.before req s in
      let ran = keep.0.before req s g in
      let skipped = run_before-IsGood slots req s keep.1 g in
      let rest = run_before-IsGood slots req called.1 keep.1 ran in
      elim (Bool-cases (applies slot.path req.path)) [
        | inr e ↦ rw e skipped
        | inl e ↦ elim (Bool-cases called.0) [ inl f ↦ rw (e, f) rest | inr f ↦ rw (e, f) ran ]
      ]

  call_after-IsGood :
      (slot : Slot W) (req : Request) (s : State W)
      → IsKeepingSlot slot
      → IsGood s
      → IsGood (call_after slot req s)
  unfolding call_after
  call_after-IsGood slot req s keep g = elim (Option-cases slot.after) [
    | inl e ↦ rw (e, call_after) g
    | inr (f, e) ↦ elim (Bool-cases (applies slot.path req.path)) [
      | inl h ↦ rw (e, h, call_after) (keep.after f e req s g)
      | inr h ↦ rw (e, h, call_after) g
    ]
  ]

  slot_at :
      (slots : List (Slot W)) (i : ℕ) (slot : Slot W)
      → All IsKeepingSlot slots
      → get_elem? slots i ≡ some slot
      → IsKeepingSlot slot
  slot_at [] i slot keep e = absurd (cc)
  slot_at (first ∷ slots) zero slot keep e =
      subst IsKeepingSlot (some-injective first slot e) keep.0
  slot_at (first ∷ slots) (suc i) slot keep e = slot_at slots i slot keep.1 e

  run_after-IsGood :
      (slots : List (Slot W)) (n : ℕ) (req : Request) (s : State W)
      → All IsKeepingSlot slots
      → IsGood s
      → IsGood (run_after slots n req s)
  unfolding run_after
  run_after-IsGood slots zero req s keep g = g
  run_after-IsGood slots (suc i) req s keep g = elim (Option-cases (get_elem? slots i)) [
    | inl e ↦ rw (e, run_after) (run_after-IsGood slots i req s keep g)
    | inr (slot, e) ↦
        rw (e, run_after)
          (run_after-IsGood slots i req (call_after slot req s) keep
            (call_after-IsGood slot req s (slot_at slots i slot keep e) g))
  ]

  find_route-IsKeeping :
      (routes : List (Route W)) (req : Request) (r : Route W) (spans : List Span)
      → All (λ r. IsKeeping r.handler) routes
      → find_route routes req.method req.path ≡ some (r, spans)
      → IsKeeping r.handler
  find_route-IsKeeping routes req r spans keep e =
      let found = find_route-IsFirst routes req.method req.path r spans e in
      All-middle found.before found.behind
        (subst (All (λ (q : Route W). IsKeeping q.handler)) found.split keep)
    where
      All-middle :
          (before behind : List (Route W))
          → All (λ (q : Route W). IsKeeping q.handler) (before ++ r ∷ behind)
          → IsKeeping r.handler
      All-middle [] behind h = h.0
      All-middle (q ∷ before) behind h = All-middle before behind h.1

  call_route-IsGood :
      (r : Route W) (spans : List Span) (req : Request) (s : State W)
      → IsKeeping r.handler
      → IsGood s
      → IsGood (call_route r spans req s).1
  unfolding call_route
  call_route-IsGood r spans req s keep g =
      let stored =
        ap (commit_params req.params spans) g.plenty ∙ commit_params_fresh req.params spans in
      let params = req.params ++ map span_kv spans in
      simp (stored, call_route)
        (keep (record req { params = params }) (record s { alloc = [] })
          (record { valid = g.valid; plenty = refl }))

  answer_no_route-IsGood :
      (routes : List (Route W)) (req : Request) (s : State W)
      → IsGood s
      → IsGood (answer_no_route routes req s)
  unfolding answer_no_route
  answer_no_route-IsGood routes req s g =
      let allowed = allowed_from routes req.method req.path 0 in
      let t = record s { res = set_status s.res 405 } in
      let (res, a) = res_header t.res (some (codes "Allow")) (some (allow_value allowed)) t.alloc in
      let other =
        json-IsGood (codes "{\"error\":\"method not allowed\"}") (record s { res = res; alloc = a })
          (header-IsGood t (codes "Allow") (allow_value allowed) (status-IsGood s 405 g)) in
      let nobody = answer-IsGood 404 (codes "{\"error\":\"not found\"}") s g in
      elim (Bool-cases (not (allowed == 0) || same_method req.method unknown)) [
        | inl e ↦ rw (e, answer_no_route) other
        | inr e ↦ rw (e, answer_no_route) nobody
      ]

  run_route-IsGood :
      (routes : List (Route W)) (req : Request) (s : State W)
      → All (λ r. IsKeeping r.handler) routes
      → IsGood s
      → IsGood (run_route routes req s).1
  unfolding run_route
  run_route-IsGood routes req s keep g = elim (Bool-cases (same_method req.method unknown)) [
    | inl e ↦ rw (e, run_route) (answer_no_route-IsGood routes req s g)
    | inr e ↦ elim (Option-cases (find_route routes req.method req.path)) [
      | inl f ↦ rw (e, f, run_route) (answer_no_route-IsGood routes req s g)
      | inr ((r, spans), f) ↦
          rw (e, f, run_route)
            (call_route-IsGood r spans req s (find_route-IsKeeping routes req r spans keep f) g)
    ]
  ]

  -- If the functions of the user keep the response valid, so does the whole of what runs for a request,
  -- whichever middleware stops it and whichever route it has.
  pub respond-IsGood :
      (server : Server W) (req : Request) (s : State W)
      → IsKeepingServer server
      → IsGood s
      → IsGood (respond server req s).1
  unfolding respond
  respond-IsGood server req s keep g =
      let (go, s1) = run_before server.middleware req s in
      let (req', s2) = run_route server.routes req s1 in
      let begun = run_before-IsGood server.middleware req s keep.slots g in
      let ran = run_route-IsGood server.routes req s1 keep.routes begun in
      let over =
        run_after-IsGood server.middleware (length server.middleware) req' s2 keep.slots ran in
      let large = answer-IsGood 413 (codes "{\"error\":\"payload too large\"}") s1 begun in
      elim (Bool-cases (not go)) [
        | inl e ↦ simp (e, respond) begun
        | inr e ↦ elim (Bool-cases req.body_too_large) [
          | inl f ↦ simp (e, f, respond) large
          | inr f ↦ simp (e, f, respond) over
        ]
      ]
