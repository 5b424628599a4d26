-- ===== src/Route/Params.antt =====
-- commit_params stores the captures of the route that matched, or nothing at all.
use libpapago.Prelude.{
  ℕ, ◌≤◌, ◌≡◌, refl, sym, ◌∙◌, true, List, [], ◌∷◌, ◌++◌, map, some, arith, length, take,
  take-length, append-nil, append_assoc,
}
use libpapago.Prelude.Text.{CString, tokens}
use libpapago.Alloc.{Alloc}
use libpapago.Kv.{Kv, success, failure, add_kv_n, dup_n, append_kv}
use libpapago.Route.{
  Span, collapse_slashes, commit_param, commit_params, match_route, count_route_params,
  max_route_params,
}
use libpapago.Route.Collapse.{collapsed}
use libpapago.Route.Matching.{span_kv, bindings, match_route_refines}

add_kv_n_fresh :
    (arr : List Kv) (k v : CString) (m n : ℕ)
    → add_kv_n arr k m v n []
      ≡ (success, arr ++ record { key = take m k; value = take n v } ∷ [], [])
unfolding add_kv_n dup_n append_kv
add_kv_n_fresh arr k v m n = refl

collapse_slashes_fresh :
    (s : CString) (n : ℕ) → collapse_slashes s n [] ≡ (some (collapsed (take n s)), [])
unfolding collapse_slashes
collapse_slashes_fresh s n = refl

commit_param_fresh :
    (params : List Kv) (sp : Span)
    → commit_param params sp [] ≡ (success, params ++ span_kv sp ∷ [], [])
unfolding commit_param
commit_param_fresh params sp =
    let v = collapsed (take sp.val_len sp.val) in
    ground (
      arith,
      collapse_slashes_fresh sp.val sp.val_len,
      add_kv_n_fresh params sp.key v sp.key_len (length v),
      add_kv_n_fresh params sp.key sp.val sp.key_len sp.val_len,
      take-length v,
    )

pub commit_params_fresh :
    (params : List Kv) (spans : List Span)
    → commit_params params spans [] ≡ (success, params ++ map span_kv spans, [])
unfolding commit_params
commit_params_fresh params [] = rw append-nil
commit_params_fresh params (sp ∷ spans) = ground (
  arith,
  commit_param_fresh params sp,
  commit_params_fresh (params ++ span_kv sp ∷ []) spans,
  append_assoc params (span_kv sp ∷ []) (map span_kv spans),
)

-- When no memory is left for a capture, no params stay behind.
pub commit_params_failure :
    (spans : List Span) (params : List Kv) (a : Alloc)
    → let (rc, out, rest) = commit_params params spans a in rc ≡ failure → out ≡ []
unfolding commit_params
commit_params_failure [] params a = ground arith
commit_params_failure (sp ∷ spans) params a =
    let (rc, next, rest) = commit_param params sp a in
    ground (arith, commit_params_failure spans next rest)

-- What the handler of a matching route finds in its params, when no allocation fails: the captures
-- of the pattern's segments in the path's segments, for a pattern of at most 16 parameters.
pub commit_params-match_route :
    (pattern path : CString) (spans : List Span)
    → count_route_params pattern ≤ max_route_params
    → match_route pattern path true ≡ some spans
    → (kvs : List Kv) × (bindings (tokens b'/' pattern) (tokens b'/' path) ≡ some kvs)
      × (commit_params [] spans [] ≡ (success, kvs, []))
commit_params-match_route pattern path spans h e = (
  map span_kv spans,
  sym (match_route_refines pattern path h) ∙ rw e,
  commit_params_fresh [] spans,
)
