-- ===== src/Multipart/Requested.antt =====
-- papago.c, papago_req_files and papago_req_file.
use libpapago.Prelude.{
  ℕ, suc, ◌-◌, List, [], ◌∷◌, Option, none, some, ltb, ◌==◌, if◌then◌else◌, set,
}
use libpapago.Prelude.Text.{CString, str_eq}
use libpapago.Multipart.{FileUpload}

-- papago_req_files: the first loop.
unfoldable pub count_named : List FileUpload → CString → ℕ
count_named [] name = 0
count_named (f ∷ files) name =
    if str_eq f.field_name name then suc (count_named files name) else count_named files name

-- The second loop; `out` has room for `max_out` entries.
unfoldable pub fill :
    List FileUpload → CString → ℕ → ℕ → List (Option FileUpload) → List (Option FileUpload)
fill [] name idx max_out out = out
fill (f ∷ files) name idx max_out out =
    let skipped = fill files name idx max_out out in
    let out' = if ltb (idx - 1) max_out then set out (idx - 1) (some f) else out in
    let filled = fill files name (idx - 1) max_out out' in
    if str_eq f.field_name name then filled else skipped

-- papago_req_files with a request, a name and an `out`: the number of entries, and `out`.
unfoldable pub req_files :
    List FileUpload → CString → ℕ → List (Option FileUpload) → ℕ × List (Option FileUpload)
req_files files name max_out out =
    let count = count_named files name in
    if max_out == 0
    then (count, out)
    else (if ltb max_out count then max_out else count, fill files name count max_out out)

-- papago_req_file with a request and a name.
unfoldable pub req_file : List FileUpload → CString → Option FileUpload
req_file files name =
    let (count, out) = req_files files name 1 (none ∷ []) in
    if count == 0 then none else elim out [ [] ↦ none | first ∷ rest ↦ first ]
