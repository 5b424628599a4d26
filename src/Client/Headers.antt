-- ===== src/Client/Headers.antt =====
-- The headers of a response, line by line.
use libpapago.Prelude.{
  ℕ, ◌<◌, ◌≤◌, ◌≡◌, ◌≢◌, refl, ap, sym, ◌∙◌, Bool, true, false, ◌||◌, List, [], ◌∷◌, ◌++◌, map,
  Option, none, some, arith, All, length, length-append, ltb, ◌==◌, append_assoc,
}
use libpapago.Prelude.Text.{CString, codes, cstr, cstr_text, starts_with, starts_with_iff}
use libpapago.Alloc.{Alloc}
use libpapago.Client.{
  Header, split_colon, skip_blanks, trim_end, keep, is_eol, starts_eol, is_skipped, store,
  header_cb,
}

-- A byte of a name: no colon, no slash, no end of a line.
abbrev pub IsKeyByte : ℕ → Type 0
IsKeyByte c = (0 < c) × (c ≢ b':') × (c ≢ b'/') × (is_eol c ≡ false)

abbrev pub IsValueByte : ℕ → Type 0
IsValueByte c = (0 < c) × (is_eol c ≡ false)

abbrev pub starts_blank : CString → Bool
starts_blank [] = false
starts_blank (c ∷ s) = c == 32 || c == 9

-- A header as a server may send it.
pub record IsHeader (h : Header) : Type 0 where
  pub key_bytes : All IsKeyByte h.key
  pub value_bytes : All IsValueByte h.value
  pub no_blank : starts_blank h.value ≡ false

-- The line of a header.
abbrev pub header_line : Header → List ℕ
header_line h = h.key ++ (b':' ∷ 32 ∷ (h.value ++ (13 ∷ 10 ∷ [])))

split_colon-append :
    (key rest : List ℕ) → All IsKeyByte key → split_colon (key ++ b':' ∷ rest) ≡ some (key, rest)
unfolding split_colon
split_colon-append [] rest h = refl
split_colon-append (c ∷ key) rest h =
    let ih = split_colon-append key rest h.1 in
    let (positive, no_colon, no_slash, others) = h.0 in
    let ne : (c == b':') ≡ false = ground arith in rw (ne, ih) refl

skip_blanks-value :
    (value : List ℕ)
    → starts_blank value ≡ false
    → skip_blanks (32 ∷ value ++ 13 ∷ 10 ∷ []) ≡ some (value ++ 13 ∷ 10 ∷ [])
unfolding skip_blanks
skip_blanks-value [] h = refl
skip_blanks-value (c ∷ value) h = rw h refl

trim_end-value : (value : List ℕ) → All IsValueByte value → trim_end (value ++ 13 ∷ 10 ∷ []) ≡ value
unfolding trim_end
trim_end-value [] h = refl
trim_end-value (c ∷ value) h = ap (keep c) (trim_end-value value h.1) ∙ keep-byte c value h.0.1
  where
    keep-byte : (c : ℕ) (s : List ℕ) → is_eol c ≡ false → keep c s ≡ c ∷ s
    keep-byte c [] h = rw h refl
    keep-byte c (d ∷ s) h = refl

-- No header is a status line.
no_status_line :
    (p key rest : List ℕ)
    → All (λ c. c ≢ b':') p
    → All IsKeyByte key
    → starts_with (p ++ b'/' ∷ []) (key ++ b':' ∷ rest) ≡ false
unfolding starts_with
no_status_line [] [] rest hp hk = refl
no_status_line [] (c ∷ key) rest hp hk =
    let (positive, no_colon, no_slash, others) = hk.0 in ground arith
no_status_line (q ∷ p) [] rest hp hk = let ne = hp.0 in ground arith
no_status_line (q ∷ p) (c ∷ key) rest hp hk =
    let ih = no_status_line p key rest hp.1 hk.1 in ground arith

starts_eol-key : (key rest : List ℕ) → All IsKeyByte key → starts_eol (key ++ b':' ∷ rest) ≡ false
starts_eol-key [] rest h = refl
starts_eol-key (c ∷ key) rest h = h.0.3

is_skipped-line :
    (key rest : List ℕ)
    → All IsKeyByte key
    → 2 ≤ length rest
    → is_skipped (key ++ b':' ∷ rest) ≡ false
unfolding is_skipped
is_skipped-line key rest h long =
    let letters : All (λ c. c ≢ b':') (codes "HTTP") =
      (omega arith, (omega arith, (omega arith, (omega arith, tt)))) in
    let a = no_status_line (codes "HTTP") key rest letters h in
    let b = starts_eol-key key rest h in
    let n = length-append key (b':' ∷ rest) in
    let short : ltb (length (key ++ b':' ∷ rest)) 3 ≡ false = ground (arith, n) in
    rw (short, a, b) refl

header_cb-parts :
    (list : List Header) (line key rest value : List ℕ)
    → is_skipped line ≡ false
    → split_colon line ≡ some (key, rest)
    → skip_blanks rest ≡ some value
    → header_cb list line [] ≡ some (store list key (trim_end value) [])
unfolding header_cb
header_cb-parts list line key rest value go split skip = rw (go, split, skip, header_cb) refl

store-text :
    (list : List Header) (key value : CString)
    → cstr key ≡ key
    → cstr value ≡ value
    → store list key value [] ≡ (record { key = key; value = value } ∷ list, [])
unfolding store
store-text list key value k v = simp (k, v, store)

-- One line.
pub header_cb-header_line :
    (list : List Header) (h : Header)
    → IsHeader h
    → header_cb list (header_line h) [] ≡ some (h ∷ list, [])
header_cb-header_line list h i =
    let rest : List ℕ = 32 ∷ h.value ++ 13 ∷ 10 ∷ [] in
    let n = length-append h.value (13 ∷ 10 ∷ []) in
    let go = is_skipped-line h.key rest i.key_bytes (omega (arith, n)) in
    let split = split_colon-append h.key rest i.key_bytes in
    let skip = skip_blanks-value h.value i.no_blank in
    let trim = trim_end-value h.value i.value_bytes in
    let k = cstr_text h.key (All-pos h.key i.key_bytes) in
    let v = cstr_text h.value (All-value h.value i.value_bytes) in
    header_cb-parts list (header_line h) h.key rest (h.value ++ 13 ∷ 10 ∷ []) go split skip
    ∙ ap (λ value. some (store list h.key value [])) trim
    ∙ ap some (store-text list h.key h.value k v)
  where
    All-pos : (s : CString) → All IsKeyByte s → All (λ c. 0 < c) s
    All-pos [] h = tt
    All-pos (c ∷ s) h = (h.0.0, All-pos s h.1)

    All-value : (s : CString) → All IsValueByte s → All (λ c. 0 < c) s
    All-value [] h = tt
    All-value (c ∷ s) h = (h.0.0, All-value s h.1)

-- What libcurl passes to the callback: the status line, a header, or the empty line behind the headers.
pub data ServerLine : Type 0 where
  status : List ℕ → ServerLine
  field : Header → ServerLine
  blank : ServerLine

abbrev pub line_bytes : ServerLine → List ℕ
line_bytes (status text) = codes "HTTP/" ++ text
line_bytes (field h) = header_line h
line_bytes blank = 13 ∷ 10 ∷ []

abbrev pub IsLine : ServerLine → Type 0
IsLine (status text) = Unit
IsLine (field h) = IsHeader h
IsLine blank = Unit

-- The headers among some lines, in their order.
unfoldable pub fields_of : List ServerLine → List Header
fields_of [] = []
fields_of (status text ∷ ls) = fields_of ls
fields_of (field h ∷ ls) = h ∷ fields_of ls
fields_of (blank ∷ ls) = fields_of ls

header_cb_skipped :
    (list : List Header) (line : List ℕ)
    → is_skipped line ≡ true
    → header_cb list line [] ≡ some (list, [])
unfolding header_cb
header_cb_skipped list line skip = rw (skip, header_cb) refl

is_skipped-status : (text : List ℕ) → is_skipped (codes "HTTP/" ++ text) ≡ true
unfolding is_skipped
is_skipped-status text =
    let here : starts_with (codes "HTTP/") (codes "HTTP/" ++ text) ≡ true =
      (starts_with_iff (codes "HTTP/") (codes "HTTP/" ++ text)).1 (text, refl) in
    ground (arith, here)

is_skipped-blank : is_skipped (13 ∷ 10 ∷ []) ≡ true
unfolding is_skipped
is_skipped-blank = refl

-- header_cb for some lines.
unfoldable pub header_cbs : List Header → List (List ℕ) → Alloc → Option (List Header × Alloc)
header_cbs list [] a = some (list, a)
header_cbs list (line ∷ lines) a = elim (header_cb list line a) [
  | none ↦ none
  | some (list', a') ↦ header_cbs list' lines a'
]

-- The headers in the order of the list, the last one first.
unfoldable pub newest_first : List Header → List Header
newest_first [] = []
newest_first (h ∷ hs) = newest_first hs ++ h ∷ []

-- Status lines, headers that a server may send and empty lines leave exactly the headers in the list, the
-- last one first, in front of what was there; no line is read past its end. No allocation fails.
pub header_cbs-line_bytes :
    (list : List Header) (ls : List ServerLine)
    → All IsLine ls
    → header_cbs list (map line_bytes ls) [] ≡ some (newest_first (fields_of ls) ++ list, [])
unfolding header_cbs newest_first fields_of
header_cbs-line_bytes list [] i = refl
header_cbs-line_bytes list (status text ∷ ls) i =
    let first = header_cb_skipped list (codes "HTTP/" ++ text) (is_skipped-status text) in
    rw (first, header_cbs) (header_cbs-line_bytes list ls i.1)
header_cbs-line_bytes list (field h ∷ ls) i =
    let first = header_cb-header_line list h i.0 in
    let rest = header_cbs-line_bytes (h ∷ list) ls i.1 in
    rw (first, header_cbs)
      (rest
        ∙ ap (λ (all : List Header). some (all, []))
            (sym (append_assoc (newest_first (fields_of ls)) (h ∷ []) list)))
header_cbs-line_bytes list (blank ∷ ls) i =
    let first = header_cb_skipped list (13 ∷ 10 ∷ []) is_skipped-blank in
    rw (first, header_cbs) (header_cbs-line_bytes list ls i.1)
