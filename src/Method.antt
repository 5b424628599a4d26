-- ===== src/Method.antt =====
-- papago.h, papago_method_t, and in papago.c the table of methods with parse_method,
-- papago_req_method and set_allow_header.
pub mod Allow
mod Tests
use libpapago.Prelude.{
  ℕ, ◌+◌, ◌-◌, ◌/◌, ◌%◌, ◌^◌, Bool, true, false, List, [], ◌∷◌, ◌++◌, Option, none, some, ltb, leb,
  ◌==◌, if◌then◌else◌, length, take,
}
use libpapago.Prelude.Text.{CString, str_eq, codes}

-- `papago_method_t`
pub data Method : Type 0 where
  get post put delete patch head connect options trace unknown : Method

-- The value of the enumeration constant.
abbrev pub number : Method → ℕ
number get = 0
number post = 1
number put = 2
number delete = 3
number patch = 4
number head = 5
number connect = 6
number options = 7
number trace = 8
number unknown = 9

-- papago_req_method
unfoldable pub method_name : Method → CString
method_name get = codes "GET"
method_name post = codes "POST"
method_name put = codes "PUT"
method_name delete = codes "DELETE"
method_name patch = codes "PATCH"
method_name head = codes "HEAD"
method_name options = codes "OPTIONS"
method_name connect = codes "CONNECT"
method_name trace = codes "TRACE"
method_name unknown = codes "UNKNOWN"

-- `methods[]`
abbrev pub methods : List (CString × Method)
methods =
    (codes "GET", get)
    ∷ (codes "POST", post)
    ∷ (codes "PUT", put)
    ∷ (codes "DELETE", delete)
    ∷ (codes "PATCH", patch)
    ∷ (codes "HEAD", head)
    ∷ (codes "OPTIONS", options)
    ∷ (codes "CONNECT", connect)
    ∷ (codes "TRACE", trace)
    ∷ []

-- The loop of parse_method.
unfoldable pub find_method : List (CString × Method) → CString → Method
find_method [] method = unknown
find_method ((name, m) ∷ rest) method = if str_eq method name then m else find_method rest method

unfoldable pub parse_method : Option CString → Method
unfolding find_method
parse_method none = unknown
parse_method (some method) = find_method methods method

-- `allowed & (1u << m)` is not 0
unfoldable pub test_bit : ℕ → Method → Bool
test_bit allowed m = (allowed / 2 ^ number m) % 2 == 1

-- `allowed | 1u << m`
unfoldable pub set_bit : ℕ → Method → ℕ
unfolding test_bit
set_bit allowed m = if test_bit allowed m then allowed else allowed + 2 ^ number m

-- The size of `buf` in set_allow_header.
abbrev pub allow_size : ℕ
allow_size = 64

-- The loop of set_allow_header: `buf` holds the text so far, of length `off`. A text that does not fit
-- with its NUL ends the loop, and what `snprintf` wrote of it stays in the buffer.
unfoldable pub allow_from : List (CString × Method) → ℕ → CString → CString
allow_from [] allowed buf = buf
allow_from ((name, m) ∷ rest) allowed buf =
    let text = (if ltb 0 (length buf) then codes ", " else []) ++ name in
    let skipped = allow_from rest allowed buf in
    let appended = allow_from rest allowed (buf ++ text) in
    if test_bit allowed m
    then (if leb (allow_size - length buf) (length text)
        then buf ++ take (allow_size - length buf - 1) text
        else appended)
    else skipped

unfoldable pub allow_value : ℕ → CString
allow_value allowed = allow_from methods allowed []
