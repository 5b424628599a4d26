-- ===== src/Url.antt =====
-- papago.c, URL encoding and decoding: papago_url_encode and papago_url_decode. NULL is `none`; the
-- bytes written before the final NUL are a list.
pub mod Bounds
pub mod RoundTrip
mod Tests
use libpapago.Prelude.{
  ℕ, ◌+◌, ◌-◌, ◌*◌, ◌/◌, ◌%◌, ◌^◌, Bool, true, false, ◌&&◌, ◌||◌, List, [], ◌∷◌, ◌++◌, Option, none,
  some, ltb, leb, ◌==◌, if◌then◌else◌,
}
use libpapago.Prelude.Text.{CString}
use libpapago.Alloc.{Alloc, malloc}
use mathlib.Core.Option

-- `isalnum` in the C locale
unfoldable pub is_alnum : ℕ → Bool
is_alnum c = (leb b'0' c && leb c b'9') || (leb b'A' c && leb c b'Z') || (leb b'a' c && leb c b'z')

-- The bytes that are copied as they are.
unfoldable pub is_unreserved : ℕ → Bool
unfolding is_alnum
is_unreserved c = is_alnum c || c == b'-' || c == b'_' || c == b'.' || c == b'~'

-- A digit as `%X` prints it.
unfoldable pub hex_digit : ℕ → ℕ
hex_digit x = if ltb x 10 then 48 + x else 55 + x

-- One round of the encoder's loop.
unfoldable pub encode_byte : ℕ → CString
unfolding is_unreserved hex_digit
encode_byte c =
    if is_unreserved c
    then c ∷ []
    else if c == 32
    then b'+' ∷ []
    else b'%' ∷ hex_digit (c / 16) ∷ hex_digit (c % 16) ∷ []

unfoldable pub encode : CString → CString
unfolding encode_byte
encode [] = []
encode (c ∷ s) = encode_byte c ++ encode s

unfoldable pub url_encode : Option CString → Alloc → Option CString × Alloc
unfolding encode
url_encode none a = (none, a)
url_encode (some str) a =
    let (done, a') = malloc a in (if done then some (encode str) else none, a')

-- `isspace` in the C locale
unfoldable pub is_space : ℕ → Bool
is_space c = c == 32 || (leb 9 c && leb c 13)

unfoldable pub hex_value : ℕ → Option ℕ
hex_value c =
    if leb b'0' c && leb c b'9'
    then some (c - 48)
    else if leb b'A' c && leb c b'F'
    then some (c - 55)
    else if leb b'a' c && leb c b'f'
    then some (c - 87)
    else none

-- `%2x` of sscanf as the C standard has it: white space is skipped, then at most two characters are
-- read, a sign and an `0x` prefix among them. A sign or a prefix with no digit is a failure.
unfoldable pub scan_one : CString → Option ℕ
unfolding hex_value
scan_one [] = none
scan_one (c ∷ s) = hex_value c

unfoldable pub scan_second : ℕ → ℕ → CString → Option ℕ
unfolding hex_value
scan_second c d [] = some d
scan_second c d (e ∷ s) =
    if c == b'0' && (e == b'x' || e == b'X')
    then none
    else elim (hex_value e) [ none ↦ some d | some f ↦ some (d * 16 + f) ]

unfoldable pub scan_field : CString → Option ℕ
unfolding scan_one scan_second
scan_field [] = none
scan_field (c ∷ s) =
    if c == b'+'
    then scan_one s
    else if c == b'-'
    then Option.map (λ d. (2 ^ 32 - d) % 2 ^ 32) (scan_one s)
    else elim (hex_value c) [ none ↦ none | some d ↦ scan_second c d s ]

unfoldable pub scan_hex : CString → Option ℕ
unfolding is_space scan_field
scan_hex [] = none
scan_hex (c ∷ s) = elim (is_space c) [ true ↦ scan_hex s | false ↦ scan_field (c ∷ s) ]

-- What a byte other than an escape decodes to.
unfoldable pub decode_plain : ℕ → ℕ
decode_plain c = if c == b'+' then 32 else c

-- The decoder's loop; `i + 2 < len` holds when two more bytes follow.
unfoldable pub decode : CString → CString
decode [] = []
decode (c ∷ []) = decode_plain c ∷ []
decode (c ∷ x ∷ []) = decode_plain c ∷ decode (x ∷ [])
decode (c ∷ x ∷ y ∷ s) = elim (c == b'%') [
  | true ↦ elim (scan_hex (x ∷ y ∷ s)) [
    | some value ↦ (value % 256) ∷ decode s
    | none ↦ c ∷ decode (x ∷ y ∷ s)
  ]
  | false ↦ decode_plain c ∷ decode (x ∷ y ∷ s)
]

unfoldable pub url_decode : Option CString → Alloc → Option CString × Alloc
unfolding decode
url_decode none a = (none, a)
url_decode (some str) a =
    let (done, a') = malloc a in (if done then some (decode str) else none, a')
