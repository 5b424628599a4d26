-- ===== src/Cors/Origins.antt =====
-- Which origins are allowed, and which origin is sent.
use libpapago.Prelude.{
  ◌≡◌, ◌≢◌, ◌↔◌, ◌⊎◌, refl, ap, sym, ◌∙◌, ◌++◌, Bool, true, false, List, [], ◌∷◌, none, some, arith,
  if◌then◌else◌, All, Bool-cases, Option-cases, inl, inr,
}
use mathlib.Core.Option.{some-injective}
use libpapago.Prelude.Text.{CString, str_eq, str_eq_iff, str_eq_refl}
use libpapago.Cors.{CorsConfig, star, find_origin, match_allowed_origin, sent_origin}

-- The origins that a list of entries lets in: any for an empty list, those on it, and any where `*` is
-- on it.
abbrev pub Permits : List CString → CString → Type 0
Permits origins origin =
    (origins ≡ []) ⊎ (¬ All (λ allowed. (allowed ≢ origin) × (allowed ≢ star)) origins)

find_origin-none :
    (origins : List CString) (origin : CString)
    → (find_origin origins origin ≡ none)
      ↔ All (λ allowed. (allowed ≢ origin) × (allowed ≢ star)) origins
unfolding find_origin
find_origin-none [] origin = (λ h. tt, λ h. refl)
find_origin-none (o ∷ os) origin = elim (Bool-cases (str_eq o origin)) [
  | inl p ↦ rw p (λ h. absurd (cc), λ h. absurd (h.0.0 ((str_eq_iff o origin).0 p)))
  | inr p ↦ elim (Bool-cases (str_eq o star)) [
    | inl q ↦ rw (p, q) (λ h. absurd (cc), λ h. absurd (h.0.1 ((str_eq_iff o star).0 q)))
    | inr q ↦
        let ne : o ≢ origin = λ e. absurd (cc (p, (str_eq_iff o origin).1 e)) in
        let ns : o ≢ star = λ e. absurd (cc (q, (str_eq_iff o star).1 e)) in
        rw (p, q)
          (
            λ h. ((ne, ns), (find_origin-none os origin).0 h),
            λ h. (find_origin-none os origin).1 h.1,
          )
  ]
]

find_origin-some :
    (origins : List CString) (origin allow : CString)
    → find_origin origins origin ≡ some allow
    → (allow ≡ origin) ⊎ (allow ≡ star)
unfolding find_origin
find_origin-some [] origin allow h = absurd (cc)
find_origin-some (o ∷ os) origin allow h = ground (arith, h, find_origin-some os origin allow)

permitted_not_none :
    (o : CString) (os : List CString) (origin : CString)
    → Permits (o ∷ os) origin
    → All (λ allowed. (allowed ≢ origin) × (allowed ≢ star)) (o ∷ os)
    → ⊥
permitted_not_none o os origin (inl e) all = absurd (cc)
permitted_not_none o os origin (inr n) all = n all

-- An origin is let through exactly when the configuration permits it, and then the value sent is the
-- origin itself or `*`.
pub match_allowed_origin_lem :
    (origins : List CString) (origin : CString)
    → ((match_allowed_origin origins origin ≢ none) ↔ Permits origins origin)
      × ((allow : CString)
          → match_allowed_origin origins origin ≡ some allow
          → (allow ≡ origin) ⊎ (allow ≡ star))
unfolding match_allowed_origin
match_allowed_origin_lem [] origin =
    ((λ h. inl refl, λ h e. absurd (cc)), λ allow e. inl (sym (some-injective _ _ e)))
match_allowed_origin_lem (o ∷ os) origin = (
  (
    λ h. inr (λ all. h ((find_origin-none (o ∷ os) origin).1 all)),
    λ h e. permitted_not_none o os origin h ((find_origin-none (o ∷ os) origin).0 e),
  ),
  λ allow e. find_origin-some (o ∷ os) origin allow e,
)

pub not_permitted :
    (origins : List CString) (origin : CString)
    → (¬ Permits origins origin)
    → match_allowed_origin origins origin ≡ none
not_permitted origins origin n = elim (Option-cases (match_allowed_origin origins origin)) [
  | inl e ↦ e
  | inr (allow, e) ↦
      absurd (n ((match_allowed_origin_lem origins origin).0.0 (λ z. absurd (cc (e, z)))))
]

same_either : (b : Bool) (s : CString) → (if b then s else s) ≡ s
same_either true s = refl
same_either false s = refl

-- An entry of a list before which neither the origin nor `*` is on it.
abbrev pub ComesFirst : List CString → CString → CString → Type 0
ComesFirst origins origin entry =
    (before : List CString) × (behind : List CString) × (origins ≡ before ++ entry ∷ behind)
    × All (λ allowed. (allowed ≢ origin) × (allowed ≢ star)) before

-- The origin that a request is told: its own with credentials, for an empty list, and where it comes
-- before any `*` on the list; `*` without credentials, where `*` comes first.
abbrev pub IsSent : CorsConfig → CString → CString → Type 0
IsSent config origin sent =
    ((sent ≡ origin)
      × ((config.allow_credentials ≡ true)
          ⊎ ((config.allowed_origins ≡ []) ⊎ ComesFirst config.allowed_origins origin origin)))
    ⊎ ((sent ≡ star)
        × (config.allow_credentials ≡ false)
        × ComesFirst config.allowed_origins origin star)

ComesFirst-cons :
    (o : CString) (origins : List CString) (origin entry : CString)
    → o ≢ origin
    → o ≢ star
    → ComesFirst origins origin entry
    → ComesFirst (o ∷ origins) origin entry
ComesFirst-cons o origins origin entry other no_star (before, behind, split, none_before) =
    (o ∷ before, behind, ap (λ os. o ∷ os) split, ((other, no_star), none_before))

find_origin-ComesFirst :
    (origins : List CString) (origin allow : CString)
    → find_origin origins origin ≡ some allow
    → ((allow ≡ origin) × ComesFirst origins origin origin)
      ⊎ ((allow ≡ star) × ComesFirst origins origin star)
unfolding find_origin
find_origin-ComesFirst [] origin allow h = absurd (cc)
find_origin-ComesFirst (o ∷ os) origin allow h = elim (Bool-cases (str_eq o origin)) [
  | inl p ↦
      let first : find_origin (o ∷ os) origin ≡ some origin = rw (p, find_origin) refl in
      inl (
        some-injective allow origin (sym h ∙ first),
        ([], os, ap (λ x. x ∷ os) ((str_eq_iff o origin).0 p), tt),
      )
  | inr p ↦ elim (Bool-cases (str_eq o star)) [
    | inl q ↦
        let first : find_origin (o ∷ os) origin ≡ some star = rw (p, q, find_origin) refl in
        inr (
          some-injective allow star (sym h ∙ first),
          ([], os, ap (λ x. x ∷ os) ((str_eq_iff o star).0 q), tt),
        )
    | inr q ↦
        let ne : o ≢ origin = λ e. absurd (cc (p, (str_eq_iff o origin).1 e)) in
        let ns : o ≢ star = λ e. absurd (cc (q, (str_eq_iff o star).1 e)) in
        let later : find_origin (o ∷ os) origin ≡ find_origin os origin =
          rw (p, q, find_origin) refl in
        elim (find_origin-ComesFirst os origin allow (sym later ∙ h)) [
          | inl (e, f) ↦ inl (e, ComesFirst-cons o os origin origin ne ns f)
          | inr (e, f) ↦ inr (e, ComesFirst-cons o os origin star ne ns f)
        ]
  ]
]

match_allowed_origin-ComesFirst :
    (origins : List CString) (origin allow : CString)
    → match_allowed_origin origins origin ≡ some allow
    → ((allow ≡ origin) × ((origins ≡ []) ⊎ ComesFirst origins origin origin))
      ⊎ ((allow ≡ star) × ComesFirst origins origin star)
unfolding match_allowed_origin
match_allowed_origin-ComesFirst [] origin allow h =
    inl (sym (some-injective origin allow h), inl refl)
match_allowed_origin-ComesFirst (o ∷ os) origin allow h =
    elim (find_origin-ComesFirst (o ∷ os) origin allow h) [
      | inl (e, f) ↦ inl (e, inr f)
      | inr f ↦ inr f
    ]

-- With credentials the origin that is sent is that of the request, never `*` in its place.
pub sent_origin_credentials :
    (config : CorsConfig) (origin allow : CString)
    → config.allow_credentials ≡ true
    → match_allowed_origin config.allowed_origins origin ≡ some allow
    → sent_origin config origin allow ≡ origin
unfolding sent_origin
sent_origin_credentials config origin allow c h =
    elim ((match_allowed_origin_lem config.allowed_origins origin).1 allow h) [
      | inl e ↦ rw (c, e) (same_either (str_eq origin star) origin)
      | inr e ↦ rw (c, e, str_eq_refl star)
    ]

-- The origin that is sent is the one described by `IsSent`.
pub sent_origin-IsSent :
    (config : CorsConfig) (origin allow : CString)
    → match_allowed_origin config.allowed_origins origin ≡ some allow
    → IsSent config origin (sent_origin config origin allow)
sent_origin-IsSent config origin allow h = elim (Bool-cases config.allow_credentials) [
  | inl c ↦ inl (sent_origin_credentials config origin allow c h, inl c)
  | inr c ↦
      let same : sent_origin config origin allow ≡ allow = unfold sent_origin in (rw c refl) in
      elim (match_allowed_origin-ComesFirst config.allowed_origins origin allow h) [
        | inl (e, f) ↦ inl (same ∙ e, inr f)
        | inr (e, f) ↦ inr (same ∙ e, c, f)
      ]
]

-- What a permitted origin gets.
pub permitted :
    (origins : List CString) (origin : CString)
    → Permits origins origin
    → (allow : CString) × (match_allowed_origin origins origin ≡ some allow)
permitted origins origin p = elim (Option-cases (match_allowed_origin origins origin)) [
  | inl e ↦ absurd ((match_allowed_origin_lem origins origin).0.1 p e)
  | inr found ↦ found
]
