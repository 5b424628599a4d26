-- ===== src/WsServer/Handshake.antt =====
-- Which handshakes end in a connection.
use libpapago.Prelude.{
  ◌≡◌, ◌≢◌, &&-cases, ◌⊎◌, refl, ap, sym, ◌∙◌, Bool, true, false, not, ◌&&◌, List, [], ◌∷◌, Option,
  none, some, Bool-cases, Option-cases, inl, inr, if◌then◌else◌, arith,
}
use mathlib.Core.Option.{some-injective}
use libpapago.Prelude.Text.{CString, str_eq, str_eq_iff}
use libpapago.WsServer.{
  Endpoint, Answers, cert_accepted, has_name, find_endpoint, settle_endpoint, established,
}

-- The client has a verified certificate with a common name that is not empty.
abbrev pub IsVerified : Answers → Type 0
IsVerified w =
    (w.has_ssl ≡ true)
    × (w.has_cert ≡ true)
    × (w.verified ≡ true)
    × ((cn : CString) × (w.common_name ≡ some cn) × (cn ≢ []))

has_name-some :
    (name : Option CString) → has_name name ≡ true → (cn : CString) × (name ≡ some cn) × (cn ≢ [])
unfolding has_name
has_name-some none h = absurd (cc)
has_name-some (some []) h = absurd (cc)
has_name-some (some (c ∷ cn)) h = (c ∷ cn, refl, λ e. absurd (cc))

cert_accepted-IsVerified : (w : Answers) → cert_accepted w ≡ true → IsVerified w
unfolding cert_accepted
cert_accepted-IsVerified w h =
    let (rest, named) =
      &&-cases (w.has_ssl && w.has_cert && w.verified) (has_name w.common_name) h in
    let (others, verified) = &&-cases (w.has_ssl && w.has_cert) w.verified rest in
    let (ssl, cert) = &&-cases w.has_ssl w.has_cert others in
    (ssl, cert, verified, has_name-some w.common_name named)

module _ {K : Type 0} where
  no_endpoint : (e : Endpoint K) → none ≡ some e → ⊥
  no_endpoint e h = absurd (cc)

  no_result : (r : Option (Endpoint K)) → none ≡ some r → ⊥
  no_result r h = absurd (cc)

  find_endpoint-path :
      (endpoints : List (Endpoint K)) (uri : CString) (e : Endpoint K)
      → find_endpoint endpoints uri ≡ some (some e)
      → e.path ≡ some uri
  unfolding find_endpoint
  find_endpoint-path [] uri e h = absurd (no_endpoint e (some-injective none (some e) h))
  find_endpoint-path (x ∷ endpoints) uri e h = elim (Option-cases x.path) [
    | inl null ↦ absurd (no_result (some e) (sym (null_path x endpoints uri null) ∙ h))
    | inr (path, q) ↦ elim (Bool-cases (str_eq path uri)) [
      | inl same ↦
          let here : x ≡ e =
            some-injective x e (
              some-injective (some x) (some e)
                (sym (first_path x endpoints path uri q same) ∙ h)) in
          ap (λ (y : Endpoint K). y.path) (sym here) ∙ q ∙ ap some ((str_eq_iff path uri).0 same)
      | inr other ↦
          find_endpoint-path endpoints uri e (sym (other_path x endpoints path uri q other) ∙ h)
    ]
  ]
    where
      null_path :
          (x : Endpoint K) (xs : List (Endpoint K)) (uri : CString)
          → x.path ≡ none
          → find_endpoint (x ∷ xs) uri ≡ none
      null_path x xs uri q = simp (q, find_endpoint)

      first_path :
          (x : Endpoint K) (xs : List (Endpoint K)) (path uri : CString)
          → x.path ≡ some path
          → str_eq path uri ≡ true
          → find_endpoint (x ∷ xs) uri ≡ some (some x)
      first_path x xs path uri q same = simp (q, same, find_endpoint)

      other_path :
          (x : Endpoint K) (xs : List (Endpoint K)) (path uri : CString)
          → x.path ≡ some path
          → str_eq path uri ≡ false
          → find_endpoint (x ∷ xs) uri ≡ find_endpoint xs uri
      other_path x xs path uri q other = simp (q, other, find_endpoint)

  settle_endpoint-some :
      (w : Answers) (found : Option (Endpoint K)) (e : Endpoint K)
      → settle_endpoint w found ≡ some e
      → (found ≡ some e) × (w.mutex_done ≡ true) × (w.cond_done ≡ true)
  unfolding settle_endpoint
  settle_endpoint-some w none e h = absurd (no_endpoint e h)
  settle_endpoint-some w (some x) e h = elim (Bool-cases (w.mutex_done && w.cond_done)) [
    | inl done ↦
        let same : (if (w.mutex_done && w.cond_done) then some x else none) ≡ some x =
          rw done refl in
        (sym same ∙ h, ground arith, ground arith)
    | inr failed ↦
        let gone : (if (w.mutex_done && w.cond_done) then some x else none) ≡ none =
          rw failed refl in
        absurd (no_endpoint e (sym gone ∙ h))
  ]

  established-refused :
      (mtls : Bool) (endpoints : List (Endpoint K)) (w : Answers)
      → (mtls && not (cert_accepted w)) ≡ true
      → established mtls endpoints w ≡ some none
  unfolding established
  established-refused mtls endpoints w e = rw (e, established) refl

  established-uri :
      (mtls : Bool) (endpoints : List (Endpoint K)) (w : Answers) (uri : CString)
      (found : Option (Endpoint K))
      → (mtls && not (cert_accepted w)) ≡ false
      → w.uri ≡ some uri
      → find_endpoint endpoints uri ≡ some found
      → established mtls endpoints w ≡ some (settle_endpoint w found)
  unfolding established
  established-uri mtls endpoints w uri found e f g = simp (e, f, g, established)

  established-no_uri :
      (mtls : Bool) (endpoints : List (Endpoint K)) (w : Answers)
      → (mtls && not (cert_accepted w)) ≡ false
      → w.uri ≡ none
      → established mtls endpoints w ≡ some none
  unfolding established
  established-no_uri mtls endpoints w e f = simp (e, f, established)

  established-null :
      (mtls : Bool) (endpoints : List (Endpoint K)) (w : Answers) (uri : CString)
      → (mtls && not (cert_accepted w)) ≡ false
      → w.uri ≡ some uri
      → find_endpoint endpoints uri ≡ none
      → established mtls endpoints w ≡ none
  unfolding established
  established-null mtls endpoints w uri e f g = simp (e, f, g, established)

  -- A handshake that ends in a connection to an endpoint: the server asks for no certificate of the
  -- client, or there is TLS and the client has a certificate that was verified and has a common name that
  -- is not empty; the mutex and the condition variable were made; and the path of the endpoint is that of
  -- the request, byte for byte. So a verified certificate without a common name is refused, which
  -- papago.h documents as authenticated, with an empty name.
  pub established_lem :
      (mtls : Bool) (endpoints : List (Endpoint K)) (w : Answers) (e : Endpoint K)
      → established mtls endpoints w ≡ some (some e)
      → ((mtls ≡ false) ⊎ IsVerified w)
        × (w.mutex_done ≡ true)
        × (w.cond_done ≡ true)
        × ((uri : CString) × (w.uri ≡ some uri) × (e.path ≡ some uri))
  established_lem mtls endpoints w e h = elim (Bool-cases (mtls && not (cert_accepted w))) [
    | inl bad ↦ absurd (
        no_endpoint e
          (some-injective none (some e) (sym (established-refused mtls endpoints w bad) ∙ h)))
    | inr good ↦ elim (Option-cases w.uri) [
      | inl no_uri ↦ absurd (
          no_endpoint e (
            some-injective none (some e)
              (sym (established-no_uri mtls endpoints w good no_uri) ∙ h)))
      | inr (uri, u) ↦ elim (Option-cases (find_endpoint endpoints uri)) [
        | inl null ↦
            absurd
              (no_result (some e) (sym (established-null mtls endpoints w uri good u null) ∙ h))
        | inr (found, f) ↦
            let settled =
              some-injective (settle_endpoint w found) (some e)
                (sym (established-uri mtls endpoints w uri found good u f) ∙ h) in
            let (same, m, c) = settle_endpoint-some w found e settled in
            (
              certified w mtls good,
              m,
              c,
              (uri, u, find_endpoint-path endpoints uri e (f ∙ ap some same)),
            )
      ]
    ]
  ]
    where
      certified :
          (w : Answers) (m : Bool)
          → (m && not (cert_accepted w)) ≡ false
          → (m ≡ false) ⊎ IsVerified w
      certified w false h = inl refl
      certified w true h = elim (Bool-cases (cert_accepted w)) [
        | inl e ↦ inr (cert_accepted-IsVerified w e)
        | inr e ↦ absurd (cc (h, e))
      ]
