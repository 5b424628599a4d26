-- ===== src/Route.antt =====
-- papago.c, path parameter matching: next_segment, count_route_params, match_route, route_matches,
-- collapse_slashes and commit_params. A pointer into a string is the rest of the string from there.
pub mod Segments
pub mod Matching
pub mod Keep
pub mod Collapse
pub mod Params
mod Tests
use libpapago.Prelude.{
  ℕ, zero, suc, ◌+◌, ◌-◌, Bool, true, false, not, ◌&&◌, ◌||◌, List, [], ◌∷◌, ◌++◌, Option, none,
  some, ltb, ◌==◌, if◌then◌else◌, length, take, drop,
}
use libpapago.Prelude.Text.{CString, str_eq, span_len, codes}
use libpapago.Alloc.{Alloc, malloc}
use libpapago.Kv.{Kv, Status, success, failure, add_kv_n}

-- PAPAGO_MAX_ROUTE_PARAMS
abbrev pub max_route_params : ℕ
max_route_params = 16

-- `param_span_t`
pub record Span : Type 0 where
  pub key : CString
  pub key_len : ℕ
  pub val : CString
  pub val_len : ℕ
  pub wildcard : Bool

unfoldable pub skip_slashes : CString → CString
skip_slashes [] = []
skip_slashes (c ∷ s) = if c == b'/' then skip_slashes s else c ∷ s

-- The first segment at or after `s`, and its length.
unfoldable pub next_segment : CString → CString × ℕ
next_segment s = let s' = skip_slashes s in (s', span_len b'/' s')

-- `s[0] == c`
abbrev pub head_is : ℕ → CString → Bool
head_is c [] = false
head_is c (d ∷ s) = d == c

abbrev pub is_star : CString → ℕ → Bool
is_star s len = len == 1 && head_is b'*' s

-- The loop of count_route_params.
unfoldable pub count_params_from : ℕ → ℕ → CString → ℕ → ℕ
count_params_from zero n seg len = n
count_params_from (suc fuel) n seg len =
    let n' = if head_is b':' seg || is_star seg len then n + 1 else n in
    let next = next_segment (drop len seg) in
    let rest = count_params_from fuel n' next.0 next.1 in if len == 0 then n else rest

-- Each round uses up a byte of the pattern.
unfoldable pub count_route_params : CString → ℕ
count_route_params pattern =
    let (seg, len) = next_segment pattern in count_params_from (suc (length pattern)) 0 seg len

-- `spans != NULL && n < PAPAGO_MAX_ROUTE_PARAMS`, and the capture written if so. The captures so far
-- are a list, whose length is `n`; nothing is kept when `spans` is NULL.
unfoldable pub capture : Bool → List Span → Span → List Span
capture keep spans s =
    if keep && ltb (length spans) max_route_params then spans ++ s ∷ [] else spans

-- What follows the loop: `none` is the result false.
unfoldable pub match_end : Bool → List Span → CString → ℕ → CString → ℕ → Option (List Span)
match_end keep spans pt plen qt qlen =
    if ltb 0 qlen || (ltb 0 plen && not (is_star pt plen))
    then none
    else if is_star pt plen
    then some (
        capture keep spans
          (record { key = codes "*"; key_len = 1; val = qt; val_len = 0; wildcard = true }))
    else some spans

-- The loop of match_route.
unfoldable pub match_from : ℕ → Bool → List Span → CString → ℕ → CString → ℕ → Option (List Span)
match_from zero keep spans pt plen qt qlen = none
match_from (suc fuel) keep spans pt plen qt qlen =
    let p = next_segment (drop plen pt) in
    let q = next_segment (drop qlen qt) in
    let named = capture keep spans (record {
      key = drop 1 pt;
      key_len = plen - 1;
      val = qt;
      val_len = qlen;
      wildcard = false;
    }) in
    let after_name = match_from fuel keep named p.0 p.1 q.0 q.1 in
    let after_literal = match_from fuel keep spans p.0 p.1 q.0 q.1 in
    if ltb 0 plen && ltb 0 qlen
    then if is_star pt plen
      then some (
          capture keep spans (record {
            key = codes "*";
            key_len = 1;
            val = qt;
            val_len = length qt;
            wildcard = true;
          }))
      else if head_is b':' pt
      then after_name
      else if not (plen == qlen) || not (str_eq (take plen pt) (take plen qt))
      then none
      else after_literal
    else match_end keep spans pt plen qt qlen

unfoldable pub match_route : CString → CString → Bool → Option (List Span)
match_route pattern path keep =
    let (pt, plen) = next_segment pattern in
    let (qt, qlen) = next_segment path in match_from (suc (length pattern)) keep [] pt plen qt qlen

-- `strcmp` for a static route, which captures nothing. NULL is `none`.
unfoldable pub route_matches : Option CString → Bool → Option CString → Bool → Option (List Span)
route_matches none is_static path keep = none
route_matches (some pattern) is_static none keep = none
route_matches (some pattern) is_static (some path) keep =
    if is_static
    then if str_eq pattern path then some [] else none
    else match_route pattern path keep

-- The loop of collapse_slashes; what is written so far is kept backwards, so that the byte last
-- written, `out[o - 1]`, is its head.
unfoldable pub collapse_from : List ℕ → CString → List ℕ
collapse_from out [] = out
collapse_from [] (c ∷ s) = collapse_from (if c == b'/' then [] else c ∷ []) s
collapse_from (o ∷ out) (c ∷ s) =
    collapse_from (if c == b'/' && o == b'/' then o ∷ out else c ∷ o ∷ out) s

-- The bytes in the order in which they were written.
unfoldable pub written : List ℕ → CString
written [] = []
written (o ∷ out) = written out ++ o ∷ []

-- The final `/` is dropped.
unfoldable pub strip_slash : List ℕ → List ℕ
strip_slash [] = []
strip_slash (o ∷ out) = if o == b'/' then out else o ∷ out

unfoldable pub collapse_slashes : CString → ℕ → Alloc → Option CString × Alloc
collapse_slashes s len a =
    let (done, a') = malloc a in
    (if done then some (written (strip_slash (collapse_from [] (take len s)))) else none, a')

-- One round of commit_params.
unfoldable pub commit_param : List Kv → Span → Alloc → Status × List Kv × Alloc
commit_param params sp a =
    if sp.wildcard
    then (let (val, a1) = collapse_slashes sp.val sp.val_len a in
        elim val [
          | none ↦ (failure, params, a1)
          | some v ↦ add_kv_n params sp.key sp.key_len v (length v) a1
        ])
    else add_kv_n params sp.key sp.key_len sp.val sp.val_len a

-- On failure no params are left behind.
unfoldable pub commit_params : List Kv → List Span → Alloc → Status × List Kv × Alloc
commit_params params [] a = (success, params, a)
commit_params params (sp ∷ spans) a =
    let (rc, params', a') = commit_param params sp a in
    elim rc [ success ↦ commit_params params' spans a' | failure ↦ (failure, [], a') ]
