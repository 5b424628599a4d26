-- ===== src/Dispatch/Selection.antt =====
-- Which route is chosen: the first with the method of the request that matches its path.
use libpapago.Prelude.{
  ℕ, ◌≡◌, ◌≢◌, ◌↔◌, refl, ap, sym, ◌∙◌, true, false, List, [], ◌∷◌, ◌++◌, Option, none, some, arith,
  All, Bool-cases, Option-cases, inl, inr, ◌==◌, ==_iff,
}
use mathlib.Core.Path.{subst}
use mathlib.Core.Option.{some-injective}
use libpapago.Prelude.Text.{CString}
use libpapago.Method.{Method, number}
use libpapago.Route.{Span, route_matches}
use libpapago.Server.{Route}
use libpapago.Dispatch.{same_method, find_route}

ne_of_false : (a b : ℕ) → (a == b) ≡ false → a ≢ b
ne_of_false a b h = ground arith

some_ne_none {ℓ} : {A : Type ℓ} {x : A} → some x ≡ none → ⊥
some_ne_none h = cc

module _ {W : Type 0} where
  -- The match that the search asks for.
  abbrev pub attempt : Route W → CString → Option (List Span)
  attempt r path = route_matches (some r.path) r.is_static (some path) true

  -- What the search returns is the first route with the method that matches.
  pub record IsFirst (routes : List (Route W)) (method : Method) (path : CString) (r : Route W)
      (spans : List Span) : Type 0 where
    pub before : List (Route W)
    pub behind : List (Route W)
    pub split : routes ≡ before ++ r ∷ behind
    pub method_same : number r.method ≡ number method
    pub matched : attempt r path ≡ some spans
    pub none_before : All (λ q. number q.method ≡ number method → attempt q path ≡ none) before

  IsFirst-cons :
      {routes : List (Route W)} {method : Method} {path : CString} {r : Route W} {spans : List Span}
      (q : Route W)
      → (number q.method ≡ number method → attempt q path ≡ none)
      → IsFirst routes method path r spans
      → IsFirst (q ∷ routes) method path r spans
  IsFirst-cons q miss f = record {
    before = q ∷ f.before;
    behind = f.behind;
    split = ap (λ rs. q ∷ rs) f.split;
    method_same = f.method_same;
    matched = f.matched;
    none_before = (miss, f.none_before);
  }

  -- One round of the search.
  find_route-hit :
      (q : Route W) (routes : List (Route W)) (method : Method) (path : CString) (spans : List Span)
      → same_method q.method method ≡ true
      → attempt q path ≡ some spans
      → find_route (q ∷ routes) method path ≡ some (q, spans)
  unfolding find_route
  find_route-hit q routes method path spans same hit = rw (same, hit)

  find_route-miss :
      (q : Route W) (routes : List (Route W)) (method : Method) (path : CString)
      → same_method q.method method ≡ true
      → attempt q path ≡ none
      → find_route (q ∷ routes) method path ≡ find_route routes method path
  unfolding find_route
  find_route-miss q routes method path same miss = rw (same, miss)

  find_route-other :
      (q : Route W) (routes : List (Route W)) (method : Method) (path : CString)
      → same_method q.method method ≡ false
      → find_route (q ∷ routes) method path ≡ find_route routes method path
  unfolding find_route
  find_route-other q routes method path other = rw other

  -- The route that is found is the first one with the method of the request whose pattern matches.
  pub find_route-IsFirst :
      (routes : List (Route W)) (method : Method) (path : CString) (r : Route W) (spans : List Span)
      → find_route routes method path ≡ some (r, spans)
      → IsFirst routes method path r spans
  find_route-IsFirst [] method path r spans e = absurd (unfold find_route in cc)
  find_route-IsFirst (q ∷ routes) method path r spans e =
      elim (Bool-cases (same_method q.method method)) [
        | inl same ↦ elim (Option-cases (attempt q path)) [
          | inl missed ↦
              IsFirst-cons q (λ _. missed)
                (find_route-IsFirst routes method path r spans
                  (sym (find_route-miss q routes method path same missed) ∙ e))
          | inr (found, hit) ↦
              subst (λ x. IsFirst (q ∷ routes) method path x.0 x.1)
                (some-injective _ _ (sym (find_route-hit q routes method path found same hit) ∙ e))
                (record {
                  before = [];
                  behind = routes;
                  split = refl;
                  method_same = (==_iff _ _).0 same;
                  matched = hit;
                  none_before = tt;
                })
        ]
        | inr other ↦
            IsFirst-cons q (λ same. absurd (ne_of_false _ _ other same))
              (find_route-IsFirst routes method path r spans
                (sym (find_route-other q routes method path other) ∙ e))
      ]

  -- No route is found exactly when none with the method of the request matches.
  pub find_route-none :
      (routes : List (Route W)) (method : Method) (path : CString)
      → (find_route routes method path ≡ none)
        ↔ All (λ r. number r.method ≡ number method → attempt r path ≡ none) routes
  find_route-none [] method path = (λ h. tt, λ h. unfold find_route in refl)
  find_route-none (r ∷ routes) method path =
      let ih = find_route-none routes method path in
      elim (Bool-cases (same_method r.method method)) [
        | inl same ↦ elim (Option-cases (attempt r path)) [
          | inl missed ↦
              let step = find_route-miss r routes method path same missed in
              (λ h. (λ _. missed, ih.0 (sym step ∙ h)), λ h. step ∙ ih.1 h.1)
          | inr (found, hit) ↦
              let step = find_route-hit r routes method path found same hit in
              (
                λ h. absurd (some_ne_none (sym step ∙ h)),
                λ h. absurd (some_ne_none (sym hit ∙ h.0 ((==_iff _ _).0 same))),
              )
        ]
        | inr other ↦
            let step = find_route-other r routes method path other in
            (
              λ h. (λ same. absurd (ne_of_false _ _ other same), ih.0 (sym step ∙ h)),
              λ h. step ∙ ih.1 h.1,
            )
      ]
