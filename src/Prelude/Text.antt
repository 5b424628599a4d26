-- ===== src/Prelude/Text.antt =====
-- C strings as the list of their bytes before the terminating NUL, and what <string.h>,
-- <strings.h> and <ctype.h> do with them in the C locale.
use Prim.Native.Char.{code}
use Prim.Native.String.{String}
use Prim.Native.Nat.{zero, ◌-◌, ◌/◌, ◌%◌, ◌<◌, ◌≤◌, suc, ℕ, ◌+◌}
use mathlib.Core.Path.{sym, ap₂, ap, ◌∙◌, ◌≡◌, refl}
use mathlib.Core.Logic.{◌≢◌, inl, inr, ◌↔◌}
use mathlib.Core.Bool.{not, Bool, true, false, ◌&&◌, ◌||◌}
use mathlib.Core.List.{◌++◌, List, [], ◌∷◌, map}
use native.Mathlib.Omega.{arith}
use libpapago.Prelude.Tests.{==_iff, &&-cases, ltb, ◌==◌, leb, if◌then◌else◌, Bool-cases}
use libpapago.Prelude.Lists.{take, drop, length, All}

abbrev pub CString : Type 0
CString = List ℕ

-- The bytes of an ASCII literal. `String` has its own `[]` and `∷`.
abbrev pub codes : String → CString
codes String.[] = []
codes (String.◌∷◌ c s) = code c ∷ codes s

-- `strcmp(s, t) == 0`
unfoldable pub str_eq : CString → CString → Bool
str_eq [] [] = true
str_eq [] (d ∷ t) = false
str_eq (c ∷ s) [] = false
str_eq (c ∷ s) (d ∷ t) = c == d && str_eq s t

pub str_eq_iff : (s t : CString) → (str_eq s t ≡ true) ↔ (s ≡ t)
unfolding str_eq
str_eq_iff [] [] = ground arith
str_eq_iff [] (d ∷ t) = ground arith
str_eq_iff (c ∷ s) [] = ground arith
str_eq_iff (c ∷ s) (d ∷ t) = ground (arith, str_eq_iff s t)

pub str_eq_refl : (s : CString) → str_eq s s ≡ true
str_eq_refl s = (str_eq_iff s s).1 refl

-- `tolower`
unfoldable pub to_lower : ℕ → ℕ
to_lower c = if leb b'A' c && leb c b'Z' then c + 32 else c

-- `strcasecmp(s, t) == 0`
unfoldable pub str_case_eq : CString → CString → Bool
unfolding str_eq to_lower
str_case_eq s t = str_eq (map to_lower s) (map to_lower t)

-- `strncmp(s, prefix, strlen(prefix)) == 0`
unfoldable pub starts_with : CString → CString → Bool
starts_with [] s = true
starts_with (c ∷ p) [] = false
starts_with (c ∷ p) (d ∷ s) = c == d && starts_with p s

pub starts_with_iff :
    (p s : CString) → (starts_with p s ≡ true) ↔ ((rest : CString) × (s ≡ p ++ rest))
unfolding starts_with
starts_with_iff [] s = (λ h. (s, refl), λ h. refl)
starts_with_iff (c ∷ p) [] = (λ h. absurd (cc), λ h. absurd (cc))
starts_with_iff (c ∷ p) (d ∷ s) = (
  λ h.
      let (e, k) = &&-cases (c == d) (starts_with p s) h in
      let (rest, q) = (starts_with_iff p s).0 k in
      (rest, ap₂ (λ x y. x ∷ y) (sym ((==_iff c d).0 e)) q),
  λ h.
      let (rest, q) = h in
      let tail : s ≡ p ++ rest = cc in
      let head : d ≡ c = cc in
      let k : starts_with p s ≡ true = (starts_with_iff p s).1 (rest, tail) in
      ground (arith, head, k),
)

-- `strchr(s, c) != NULL`, for a byte c other than NUL
unfoldable pub contains : ℕ → CString → Bool
contains c [] = false
contains c (d ∷ s) = c == d || contains c s

-- The C string in a buffer: its bytes up to the first NUL.
unfoldable pub cstr : List ℕ → CString
cstr [] = []
cstr (c ∷ s) = if c == 0 then [] else c ∷ cstr s

-- Does a string start with a byte other than the delimiter?
unfoldable pub in_token : ℕ → CString → Bool
in_token d [] = false
in_token d (c ∷ s) = not (c == d)

-- Put a byte in front of the first token, or start a token with it.
unfoldable pub push_byte : ℕ → Bool → List CString → List CString
push_byte c true (t ∷ ts) = (c ∷ t) ∷ ts
push_byte c true [] = (c ∷ []) ∷ []
push_byte c false ts = (c ∷ []) ∷ ts

-- The pieces between delimiters, the empty ones left out: what repeated calls of `strtok_r` return.
unfoldable pub tokens : ℕ → CString → List CString
unfolding in_token push_byte
tokens d [] = []
tokens d (c ∷ s) = let ts = tokens d s in if c == d then ts else push_byte c (in_token d s) ts

-- Tokens with one delimiter between them.
unfoldable pub join : ℕ → List CString → CString
join d [] = []
join d (t ∷ []) = t
join d (t ∷ u ∷ ts) = t ++ d ∷ join d (u ∷ ts)

-- `strcspn(s, d)`: how many bytes stand before the first delimiter.
unfoldable pub span_len : ℕ → CString → ℕ
span_len d [] = 0
span_len d (c ∷ s) = let n = span_len d s in if c == d then 0 else suc n

-- A string that starts inside a token has that token first.
pub tokens-span_len :
    (d : ℕ) (s : CString)
    → in_token d s ≡ true
    → tokens d s ≡ take (span_len d s) s ∷ tokens d (drop (span_len d s) s)
unfolding tokens span_len
tokens-span_len d [] h = cc
tokens-span_len d (c ∷ []) h = ground arith
tokens-span_len d (c ∷ e ∷ s) h = elim (Bool-cases (e == d)) [
  | inl p ↦ ground arith
  | inr p ↦ ground (arith, tokens-span_len d (e ∷ s))
]

pub span_len-le-length : (d : ℕ) (s : CString) → span_len d s ≤ length s
unfolding span_len
span_len-le-length d [] = omega arith
span_len-le-length d (c ∷ s) = ground (arith, span_len-le-length d s)

-- `join` of a token that is continued by what follows.
unfoldable pub join_tail : ℕ → List CString → CString
join_tail d [] = []
join_tail d (t ∷ ts) = d ∷ join d (t ∷ ts)

-- A number as `%d`, `%ju` or `%u` prints it: the digits above the last, with fuel, and the last.
unfoldable pub decimal_from : ℕ → ℕ → CString
decimal_from zero n = []
decimal_from (suc fuel) n =
    let high = decimal_from fuel (n / 10) in
    if ltb n 10 then (48 + n) ∷ [] else high ++ (48 + n % 10) ∷ []

unfoldable pub decimal : ℕ → CString
unfolding decimal_from
decimal n = decimal_from (suc n) n

-- `snprintf(buf, size, "%s", s)`: the bytes that fit before the NUL.
abbrev pub truncated : ℕ → CString → CString
truncated size s = take (size - 1) s

-- A string of bytes other than NUL.
abbrev pub IsText : CString → Type 0
IsText s = All (λ c. (0 < c) × (c < 256)) s

pub cstr_text : (s : CString) → All (λ c. 0 < c) s → cstr s ≡ s
unfolding cstr
cstr_text [] h = refl
cstr_text (c ∷ s) h = ground (arith, cstr_text s h.1)

pub IsText-bytes : (s : CString) → IsText s → All (λ c. c < 256) s
IsText-bytes [] h = tt
IsText-bytes (c ∷ s) h = (h.0.1, IsText-bytes s h.1)

pub IsText-pos : (s : CString) → IsText s → All (λ c. 0 < c) s
IsText-pos [] h = tt
IsText-pos (c ∷ s) h = (h.0.0, IsText-pos s h.1)

tokens-append :
    (d : ℕ) (c : ℕ) (t s : CString)
    → c ≢ d
    → All (λ b. b ≢ d) t
    → tokens d (c ∷ t ++ d ∷ s) ≡ (c ∷ t) ∷ tokens d s
unfolding tokens
tokens-append d c [] s h k = ground arith
tokens-append d c (b ∷ t) s h k = ground (arith, tokens-append d b t s k.0 k.1)

tokens-one :
    (d : ℕ) (c : ℕ) (t : CString) → c ≢ d → All (λ b. b ≢ d) t → tokens d (c ∷ t) ≡ (c ∷ t) ∷ []
unfolding tokens
tokens-one d c [] h k = ground arith
tokens-one d c (b ∷ t) h k = ground (arith, tokens-one d b t k.0 k.1)

-- A token: not empty, and without the delimiter.
abbrev pub IsToken : ℕ → CString → Type 0
IsToken d [] = ⊥
IsToken d (c ∷ t) = (c ≢ d) × All (λ b. b ≢ d) t

-- Splitting takes back what was joined.
pub tokens-join : (d : ℕ) (ts : List CString) → All (IsToken d) ts → tokens d (join d ts) ≡ ts
unfolding join
tokens-join d [] h = unfold tokens in refl
tokens-join d ([] ∷ ts) h = absurd h.0
tokens-join d ((c ∷ t) ∷ []) h = tokens-one d c t h.0.0 h.0.1
tokens-join d ((c ∷ t) ∷ u ∷ ts) h =
    tokens-append d c t (join d (u ∷ ts)) h.0.0 h.0.1
    ∙ ap (λ us. (c ∷ t) ∷ us) (tokens-join d (u ∷ ts) h.1)
