-- ===== src/Request/Lookup.antt =====
-- What a handler finds of the headers and the query that MHD hands over one by one.
use libpapago.Prelude.{
  ◌≡◌, refl, true, List, [], ◌∷◌, ◌++◌, none, some, Option, Option-cases, inl, inr, if◌then◌else◌,
}
use libpapago.Prelude.Text.{CString, str_case_eq}
use libpapago.Kv.{Kv, find_kv}
use libpapago.Kv.Laws.{add_kv_plenty, find_kv-append}
use libpapago.Request.{Request, req_header, req_query, header_iterator, query_string_parser}

-- The value found before, or that of a new pair.
abbrev pub or_new : Option CString → CString → CString → CString → Option CString
or_new (some v) key value wanted = some v
or_new none key value wanted = if str_case_eq key wanted then some value else none

find_kv-or_new :
    (arr : List Kv) (key value wanted : CString)
    → find_kv (arr ++ record { key = key; value = value } ∷ []) (some wanted)
      ≡ or_new (find_kv arr (some wanted)) key value wanted
find_kv-or_new arr key value wanted = elim (Option-cases (find_kv arr (some wanted))) [
  | inl e ↦ rw (find_kv-append arr (record { key = key; value = value }) wanted, e)
  | inr (v, e) ↦ rw (find_kv-append arr (record { key = key; value = value }) wanted, e)
]

-- A header or a query value handed over by MHD is found under its name in any letter case, unless an
-- earlier one has that name, and hides no other; when no allocation fails.
pub req_header-header_iterator :
    (req : Request) (key value wanted : CString)
    → let (go, out, rest) = header_iterator req (some key) (some value) [] in
      let (go', out', rest') = query_string_parser req (some key) (some value) [] in
      (go ≡ true)
      × (go' ≡ true)
      × (req_header out (some wanted) ≡ or_new (req_header req (some wanted)) key value wanted)
      × (req_query out' (some wanted) ≡ or_new (req_query req (some wanted)) key value wanted)
unfolding header_iterator query_string_parser req_header req_query
req_header-header_iterator req key value wanted =
    rw (add_kv_plenty req.headers key value, add_kv_plenty req.query key value)
      (
        refl,
        refl,
        find_kv-or_new req.headers key value wanted,
        find_kv-or_new req.query key value wanted,
      )
