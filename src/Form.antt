-- ===== src/Form.antt =====
-- papago.c, form_body_parser: the pairs of an application/x-www-form-urlencoded body.
pub mod RoundTrip
mod Tests
use libpapago.Prelude.{ℕ, Bool, true, false, List, [], ◌∷◌, Option, none, some, ◌==◌, if◌then◌else◌}
use libpapago.Prelude.Text.{CString, cstr, tokens}
use libpapago.Alloc.{Alloc, malloc}
use libpapago.Kv.{Kv, add_kv}
use libpapago.Url.{url_decode}
use mathlib.Core.Option

-- `strchr(pair, '=')`: the bytes before the first `=` and those behind it.
unfoldable pub split_eq : CString → Option (CString × CString)
split_eq [] = none
split_eq (c ∷ s) =
    let rest = Option.map (λ (kv : CString × CString). (c ∷ kv.0, kv.1)) (split_eq s) in
    if c == b'=' then some ([], s) else rest

-- `add_kv` stores each decoded string up to its first NUL; NULL stores nothing.
unfoldable pub store : List Kv → Option CString → Option CString → Alloc → List Kv × Alloc
store form none value a = (form, a)
store form (some key) none a = (form, a)
store form (some key) (some value) a =
    let (rc, form', a') = add_kv form (some (cstr key)) (some (cstr value)) a in (form', a')

-- One round of the loop. A bare key is stored with an empty value.
unfoldable pub form_pair : List Kv → CString → Alloc → List Kv × Alloc
form_pair form pair a = elim (split_eq pair) [
  | some (k, v) ↦
      let (key, a1) = url_decode (some k) a in
      let (value, a2) = url_decode (some v) a1 in store form key value a2
  | none ↦ let (key, a1) = url_decode (some pair) a in store form key (some []) a1
]

unfoldable pub form_pairs : List Kv → List CString → Alloc → List Kv × Alloc
form_pairs form [] a = (form, a)
form_pairs form (pair ∷ pairs) a =
    let (form', a') = form_pair form pair a in form_pairs form' pairs a'

-- `body` is NULL or the bytes of the request body, of which `_strdup` copies those up to a NUL.
unfoldable pub form_body_parser : List Kv → Option (List ℕ) → ℕ → Alloc → List Kv × Alloc
form_body_parser form none body_length a = (form, a)
form_body_parser form (some body) body_length a =
    if body_length == 0
    then (form, a)
    else let (done, a') = malloc a in
      if done then form_pairs form (tokens b'&' (cstr body)) a' else (form, a')
