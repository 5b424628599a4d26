-- ===== src/Route/Segments.antt =====
-- next_segment walks through the pieces of a string between slashes, and count_route_params counts
-- those that capture.
use libpapago.Prelude.{
  ℕ, zero, suc, ◌+◌, ◌-◌, ◌≤◌, ◌<◌, ◌≡◌, refl, Bool, true, ◌||◌, List, [], ◌∷◌, arith, ◌==◌,
  if◌then◌else◌, length, take, drop, length-drop, inl, inr, ◌⊎◌,
}
use libpapago.Prelude.Text.{
  CString, str_eq, in_token, tokens, span_len, tokens-span_len, span_len-le-length, codes,
}
use libpapago.Route.{
  skip_slashes, next_segment, head_is, is_star, count_params_from, count_route_params,
}

-- The segments that a position and the length of its segment stand for.
abbrev pub segments_at : CString → ℕ → List CString
segments_at seg len = if len == 0 then [] else take len seg ∷ tokens b'/' (drop len seg)

skip_slashes-in_token :
    (s : CString) → (skip_slashes s ≡ []) ⊎ (in_token b'/' (skip_slashes s) ≡ true)
unfolding skip_slashes in_token
skip_slashes-in_token [] = inl refl
skip_slashes-in_token (c ∷ s) = ground (arith, skip_slashes-in_token s)

tokens-skip_slashes : (s : CString) → tokens b'/' (skip_slashes s) ≡ tokens b'/' s
unfolding skip_slashes tokens
tokens-skip_slashes [] = refl
tokens-skip_slashes (c ∷ s) = ground (arith, tokens-skip_slashes s)

length-skip_slashes : (s : CString) → length (skip_slashes s) ≤ length s
unfolding skip_slashes
length-skip_slashes [] = omega arith
length-skip_slashes (c ∷ s) = ground (arith, length-skip_slashes s)

in_token-span_len : (s : CString) → in_token b'/' s ≡ true → 0 < span_len b'/' s
unfolding in_token span_len
in_token-span_len [] h = cc
in_token-span_len (c ∷ s) h = ground arith

span_len-nil : span_len b'/' [] ≡ 0
unfolding span_len
span_len-nil = refl

tokens-nil : tokens b'/' [] ≡ []
unfolding tokens
tokens-nil = refl

-- The segments from the position that next_segment returns are those of the string.
pub segments_at-next_segment :
    (s : CString) → let (seg, len) = next_segment s in segments_at seg len ≡ tokens b'/' s
unfolding next_segment
segments_at-next_segment s = elim (skip_slashes-in_token s) [
  | inl e ↦ ground (arith, tokens-skip_slashes s, span_len-nil, tokens-nil)
  | inr e ↦ ground (
    arith,
    tokens-skip_slashes s,
    in_token-span_len (skip_slashes s) e,
    tokens-span_len b'/' (skip_slashes s) e,
  )
]

pub next_segment_bounds :
    (s : CString) → let (seg, len) = next_segment s in (len ≤ length seg) × (length seg ≤ length s)
unfolding next_segment
next_segment_bounds s = (span_len-le-length b'/' (skip_slashes s), length-skip_slashes s)

-- The position after a segment is nearer to the end.
pub next_segment-drop :
    (seg : CString) (len : ℕ)
    → let (next, n) = next_segment (drop len seg) in
      (n ≤ length next) × (length next ≤ length seg - len)
next_segment-drop seg len = omega (arith, next_segment_bounds (drop len seg), length-drop len seg)

-- Tests on a segment in place, and on its text.
pub head_is-take :
    (c : ℕ) (seg : CString) (len : ℕ) → 0 < len → head_is c (take len seg) ≡ head_is c seg
head_is-take c seg zero h = absurd (omega arith)
head_is-take c [] (suc len) h = refl
head_is-take c (d ∷ seg) (suc len) h = refl

abbrev pub is_wildcard : CString → Bool
is_wildcard t = str_eq t (codes "*")

pub is_star-take :
    (seg : CString) (len : ℕ) → len ≤ length seg → is_wildcard (take len seg) ≡ is_star seg len
unfolding str_eq
is_star-take seg zero h = ground arith
is_star-take [] (suc len) h = absurd (omega arith)
is_star-take (c ∷ seg) (suc zero) h = ground arith
is_star-take (c ∷ []) (suc (suc len)) h = absurd (omega arith)
is_star-take (c ∷ d ∷ seg) (suc (suc len)) h = ground arith

-- The segments that capture: those that start with a colon, and `*`.
abbrev pub captures : CString → Bool
captures t = head_is b':' t || is_wildcard t

unfoldable pub param_count : List CString → ℕ
param_count [] = 0
param_count (t ∷ ts) = if captures t then suc (param_count ts) else param_count ts

count_params_from_lem :
    (fuel n : ℕ) (seg : CString) (len : ℕ)
    → length seg < fuel
    → len ≤ length seg
    → count_params_from fuel n seg len ≡ n + param_count (segments_at seg len)
unfolding count_params_from param_count
count_params_from_lem zero n seg len h k = absurd (omega arith)
count_params_from_lem (suc fuel) n seg len h k =
    let next = next_segment (drop len seg) in
    let n' : ℕ = if head_is b':' seg || is_star seg len then n + 1 else n in
    ground (
      arith,
      next_segment-drop seg len,
      segments_at-next_segment (drop len seg),
      head_is-take b':' seg len,
      is_star-take seg len k,
      count_params_from_lem fuel n' next.0 next.1,
    )

-- count_route_params is the number of segments of the pattern that capture.
pub count_route_params_lem :
    (pattern : CString) → count_route_params pattern ≡ param_count (tokens b'/' pattern)
unfolding count_route_params
count_route_params_lem pattern =
    let next = next_segment pattern in
    ground (
      arith,
      next_segment_bounds pattern,
      segments_at-next_segment pattern,
      count_params_from_lem (suc (length pattern)) 0 next.0 next.1,
    )

pub tokens-next_segment : (s : CString) → tokens b'/' (next_segment s).0 ≡ tokens b'/' s
unfolding next_segment
tokens-next_segment s = tokens-skip_slashes s
