-- ===== src/Client.antt =====
-- papago_client.c, the HTTP client: its headers, the callbacks for libcurl, the options of a transfer
-- and its result. What libcurl does with the options is an argument.
pub mod Headers
pub mod Download
pub mod Refs
pub mod Send
pub mod Transfer
mod Tests
use libpapago.Prelude.{
  ℕ, zero, suc, ◌+◌, ◌*◌, ◌%◌, ◌^◌, Bool, true, false, not, ◌&&◌, ◌||◌, List, [], ◌∷◌, ◌++◌, Option,
  none, some, ltb, ◌==◌, if◌then◌else◌, length, take,
}
use libpapago.Prelude.Text.{CString, codes, cstr, starts_with, str_case_eq, truncated}
use libpapago.Alloc.{Alloc, malloc}
use libpapago.Growth.{grown}
use libpapago.Method.{Method, get, post, put, delete, patch, head, options}

-- `papago_http_header_t`; the list of a `next` chain is in its order.
pub record Header : Type 0 where
  pub key : CString
  pub value : CString

-- papago_header_new with a key and a value.
unfoldable pub header_new : CString → CString → Alloc → Option Header × Alloc
header_new key value a =
    let (node, a1) = malloc a in
    let (key_done, a2) = malloc a1 in
    let (value_done, a3) = malloc a2 in
    if not node
    then (none, a1)
    else (if key_done && value_done then some (record { key = key; value = value }) else none, a3)

-- papago_header_append with a key and a value; NULL is the empty list.
unfoldable pub header_append : List Header → CString → CString → Alloc → List Header × Alloc
header_append [] key value a = ([], a)
header_append (h ∷ hs) key value a =
    let (node, a') = header_new key value a in
    (elim node [ none ↦ h ∷ hs | some new ↦ h ∷ hs ++ new ∷ [] ], a')

-- papago_header_get
unfoldable pub header_get : List Header → CString → Option CString
header_get [] key = none
header_get (h ∷ hs) key = if str_case_eq h.key key then some h.value else header_get hs key

-- `memchr(ptr, ':', len)`: what is before and behind the colon.
unfoldable pub split_colon : List ℕ → Option (List ℕ × List ℕ)
split_colon [] = none
split_colon (c ∷ s) =
    let rest = split_colon s in
    if c == b':'
    then some ([], s)
    else elim rest [ none ↦ none | some (key, value) ↦ some (c ∷ key, value) ]

-- Spaces and tabs; `none` is a read behind the line.
unfoldable pub skip_blanks : List ℕ → Option (List ℕ)
skip_blanks [] = none
skip_blanks (c ∷ s) = let rest = skip_blanks s in if c == 32 || c == 9 then rest else some (c ∷ s)

abbrev pub is_eol : ℕ → Bool
is_eol c = c == 13 || c == 10

abbrev pub keep : ℕ → List ℕ → List ℕ
keep c [] = if is_eol c then [] else c ∷ []
keep c (d ∷ s) = c ∷ d ∷ s

-- The bytes before the carriage returns and line feeds at the end.
unfoldable pub trim_end : List ℕ → List ℕ
trim_end [] = []
trim_end (c ∷ s) = keep c (trim_end s)

abbrev pub starts_eol : List ℕ → Bool
starts_eol [] = false
starts_eol (c ∷ s) = is_eol c

-- The status line, and the empty line at the end.
unfoldable pub is_skipped : List ℕ → Bool
is_skipped line = ltb (length line) 3 || (starts_with (codes "HTTP/") line || starts_eol line)

-- A new node at the head of the list; the copies are C strings.
unfoldable pub store : List Header → List ℕ → List ℕ → Alloc → List Header × Alloc
store list key value a =
    let (value_done, a1) = malloc a in
    let (node, a2) = malloc a1 in
    if not value_done
    then (list, a1)
    else (if node then record { key = cstr key; value = cstr value } ∷ list else list, a2)

-- header_cb with the bytes of a line: the list; `none` is a read behind the line. It always returns
-- the number of bytes.
unfoldable pub header_cb : List Header → List ℕ → Alloc → Option (List Header × Alloc)
header_cb list line a =
    let (key_done, a') = malloc a in
    if is_skipped line then some (list, a) else elim (split_colon line) [
      | none ↦ some (list, a)
      | some (key, rest) ↦ if not key_done then some (list, a') else elim (skip_blanks rest) [
        | none ↦ none
        | some value ↦ some (store list key (trim_end value) a')
      ]
    ]

-- `req_body_t`; `bytes` are those at `data`.
pub record Body : Type 0 where
  pub bytes : List ℕ
  pub len : ℕ
  pub cap : ℕ

abbrev pub add_long : ℕ → ℕ → ℕ
add_long a b = (a + b) % 2 ^ 64

-- The capacity for a need, with the outcome of realloc.
unfoldable pub make_room : Body → ℕ → Alloc → Option (Bool × ℕ × Alloc)
make_room b need a =
    let (done, a') = malloc a in
    if ltb b.cap need
    then elim (grown 8192 b.cap need) [ none ↦ none | some cap ↦ some (done, cap, a') ]
    else some (true, b.cap, a)

-- write_cb: the number of bytes that it took; `none` is a loop that does not end.
unfoldable pub write_cb : Body → List ℕ → Alloc → Option (ℕ × Body × Alloc)
write_cb b bytes a =
    let len = add_long b.len (length bytes) in
    elim (make_room b (add_long len 1) a) [
      | none ↦ none
      | some (false, cap, a') ↦ some (0, b, a')
      | some (true, cap, a') ↦
          some
            (length bytes, record { bytes = take b.len b.bytes ++ bytes; len = len; cap = cap }, a')
    ]

-- The fields of `struct papago_http_client` that a transfer reads.
pub record HttpClient : Type 0 where
  pub ca_cert_file : Option CString
  pub ca_cert_path : Option CString
  pub verify_ssl : Bool

-- `papago_http_request_t` with a URL.
pub record HttpRequest : Type 0 where
  pub url : CString
  pub method : Method
  pub body : Option CString
  pub body_len : ℕ
  pub content_type : Option CString
  pub headers : List Header
  pub timeout_ms : ℕ
  pub follow_redirects : Bool

-- papago_request_default with a URL.
unfoldable pub request_default : CString → HttpRequest
request_default url = record {
  url = url;
  method = get;
  body = none;
  body_len = 0;
  content_type = none;
  headers = [];
  timeout_ms = 30000;
  follow_redirects = true;
}
