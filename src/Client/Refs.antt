-- ===== src/Client/Refs.antt =====
-- papago_client.c: how often libcurl is in use (ref_inc, ref_dec), and the clients (papago_client_new,
-- papago_client_destroy, the setters). What curl_global_init answers is an argument.
use libpapago.Prelude.{
  ℕ, ◌+◌, ◌-◌, ◌≡◌, refl, ap, sym, ◌∙◌, Bool, true, false, Option, none, some, arith, ltb, ◌==◌,
  if◌then◌else◌, Bool-cases, inl, inr, ◌⊎◌,
}
use mathlib.Core.Path.{subst}
use libpapago.Prelude.Text.{CString}
use libpapago.Alloc.{Alloc, malloc}
use libpapago.Kv.{Status, success, failure}
use libpapago.Client.{HttpClient}

-- `refs`, and whether curl_global_init has run without curl_global_cleanup.
pub record Refs : Type 0 where
  pub refs : ℕ
  pub initialised : Bool

unfoldable pub ref_inc : Bool → Refs → Status × Refs
ref_inc init r =
    if r.refs == 0
    then (if init then (success, record { refs = 1; initialised = true }) else (failure, r))
    else (success, record r { refs = r.refs + 1 })

unfoldable pub ref_dec : Refs → Refs
ref_dec r =
    if r.refs == 0
    then r
    else (if r.refs - 1 == 0
        then record { refs = 0; initialised = false }
        else record r { refs = r.refs - 1 })

abbrev pub new_client : HttpClient
new_client = record { ca_cert_file = none; ca_cert_path = none; verify_ssl = true }

-- papago_client_new behind ref_inc.
abbrev pub client_made : Status × Refs → Alloc → Option HttpClient × Refs × Alloc
client_made (failure, r) a = (none, r, a)
client_made (success, r) a =
    let (done, a') = malloc a in if done then (some new_client, r, a') else (none, ref_dec r, a')

-- papago_client_new
unfoldable pub client_new : Bool → Refs → Alloc → Option HttpClient × Refs × Alloc
client_new init r a = client_made (ref_inc init r) a

-- papago_client_set_ca_file with a client; the old path is gone even when the copy fails.
unfoldable pub set_ca_file : HttpClient → Option CString → Alloc → Status × HttpClient × Alloc
set_ca_file client none a = (success, record client { ca_cert_file = none }, a)
set_ca_file client (some path) a =
    let (done, a') = malloc a in
    if done
    then (success, record client { ca_cert_file = some path }, a')
    else (failure, record client { ca_cert_file = none }, a')

-- papago_client_set_ca_path with a client.
unfoldable pub set_ca_path : HttpClient → Option CString → Alloc → Status × HttpClient × Alloc
set_ca_path client none a = (success, record client { ca_cert_path = none }, a)
set_ca_path client (some path) a =
    let (done, a') = malloc a in
    if done
    then (success, record client { ca_cert_path = some path }, a')
    else (failure, record client { ca_cert_path = none }, a')

-- libcurl is initialised exactly while it is in use.
pub record IsCounted (r : Refs) : Type 0 where
  pub same : r.initialised ≡ ltb 0 r.refs

-- ref_inc fails and changes nothing, or it can be undone.
ref_inc_lem :
    (init : Bool) (r : Refs)
    → IsCounted r
    → (ref_inc init r ≡ (failure, r))
      ⊎ ((r' : Refs) × (ref_inc init r ≡ (success, r'))
          × IsCounted r'
          × IsCounted (ref_dec r')
          × ((ref_dec r').refs ≡ r.refs))
unfolding ref_inc ref_dec
ref_inc_lem init r c = elim (Bool-cases (r.refs == 0)) [
  | inl unused ↦ elim (Bool-cases init) [
    | inl e ↦ inr (
      record { refs = 1; initialised = true },
      simp (unused, e, ref_inc),
      record { same = refl },
      record { same = refl },
      ground arith,
    )
    | inr e ↦ inl (simp (unused, e, ref_inc))
  ]
  | inr used ↦
      let more : Refs = record r { refs = r.refs + 1 } in
      let again : (r.refs + 1 == 0) ≡ false = ground arith in
      let still : (r.refs + 1 - 1 == 0) ≡ false = ground arith in
      inr (
        more,
        simp (used, ref_inc),
        record { same = ground (arith, c.same) },
        rw (again, still) (record { same = ground (arith, c.same) }),
        rw (again, still) (omega arith),
      )
]

-- The count behind papago_client_new, and when the client is destroyed again.
abbrev pub Made : Refs → Option HttpClient × Refs × Alloc → Type 0
Made r (none, r', a) = IsCounted r' × (r'.refs ≡ r.refs)
Made r (some client, r', a) = IsCounted r' × ((ref_dec r').refs ≡ r.refs)

-- Whatever the outcomes of curl_global_init and of the allocation, libcurl stays initialised exactly
-- while clients use it, and destroying a client that was just made, or failing to make one, leaves the
-- count as it was.
pub client_new_lem :
    (init : Bool) (r : Refs) (a : Alloc) → IsCounted r → Made r (client_new init r a)
client_new_lem init r a c = elim (ref_inc_lem init r c) [
  | inl e ↦
      let q : client_new init r a ≡ (none, r, a) = by_ref_inc (failure, r) e in
      subst (Made r) (sym q) (c, refl)
  | inr (r', e, counted, undone, same) ↦ elim (Bool-cases (malloc a).0) [
    | inl done ↦
        let q : client_new init r a ≡ (some new_client, r', (malloc a).1) =
          by_ref_inc (success, r') e ∙ rw done refl in
        subst (Made r) (sym q) (counted, same)
    | inr failed ↦
        let q : client_new init r a ≡ (none, ref_dec r', (malloc a).1) =
          by_ref_inc (success, r') e ∙ rw failed refl in
        subst (Made r) (sym q) (undone, same)
  ]
]
  where
    by_ref_inc :
        (out : Status × Refs) → ref_inc init r ≡ out → client_new init r a ≡ client_made out a
    by_ref_inc out e = unfold client_new in ap (λ o. client_made o a) e
