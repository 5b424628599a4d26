-- ===== src/Cors/Preflight.antt =====
-- Which requests papago_cors_mw takes for preflight requests.
use libpapago.Prelude.{◌≡◌, ◌↔◌, &&-cases, is_none, ◌&&◌, refl, Bool, true, not, Option, none, some}
use libpapago.Prelude.Text.{CString, codes, str_eq}
use libpapago.Method.{
  Method, get, post, put, delete, patch, head, connect, options, trace, unknown, method_name,
}
use libpapago.Request.{Request, req_header}
use libpapago.Cors.{is_preflight}

-- A preflight request: OPTIONS, with a method that it asks for.
abbrev pub Asks : Request → Type 0
Asks req =
    (req.method ≡ options)
    × ((method : CString) × (req_header req (some (codes "Access-Control-Request-Method"))
          ≡ some method))

method_name-options :
    (m : Method) → (str_eq (method_name m) (codes "OPTIONS") ≡ true) ↔ (m ≡ options)
unfolding method_name str_eq
method_name-options get = (λ h. absurd (cc), λ h. absurd (cc))
method_name-options post = (λ h. absurd (cc), λ h. absurd (cc))
method_name-options put = (λ h. absurd (cc), λ h. absurd (cc))
method_name-options delete = (λ h. absurd (cc), λ h. absurd (cc))
method_name-options patch = (λ h. absurd (cc), λ h. absurd (cc))
method_name-options head = (λ h. absurd (cc), λ h. absurd (cc))
method_name-options connect = (λ h. absurd (cc), λ h. absurd (cc))
method_name-options options = (λ h. refl, λ h. refl)
method_name-options trace = (λ h. absurd (cc), λ h. absurd (cc))
method_name-options unknown = (λ h. absurd (cc), λ h. absurd (cc))

not_none_iff :
    (o : Option CString) → (not (is_none o) ≡ true) ↔ ((value : CString) × (o ≡ some value))
not_none_iff none = (λ h. absurd (cc), λ h. absurd (none_ne_some h.1))
  where
    none_ne_some : {value : CString} → none ≡ some value → ⊥
    none_ne_some e = cc
not_none_iff (some value) = (λ h. (value, refl), λ h. refl)

pub is_preflight_iff : (req : Request) → (is_preflight req ≡ true) ↔ Asks req
unfolding is_preflight
is_preflight_iff req =
    let method = method_name-options req.method in
    let asked = not_none_iff (req_header req (some (codes "Access-Control-Request-Method"))) in
    (
      λ h.
          let (is_options, has_method) = &&-cases _ _ h in
          (method.0 is_options, asked.0 has_method),
      λ h. both (method.1 h.0) (asked.1 h.1),
    )
  where
    both : {b c : Bool} → b ≡ true → c ≡ true → (b && c) ≡ true
    both h k = rw (h, k) refl
