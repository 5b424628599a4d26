-- ===== src/Route/Tests.antt =====
-- The matcher of papago.c on concrete patterns and paths.
use libpapago.Prelude.{◌≤◌, ◌≡◌, refl, true, false, List, [], ◌∷◌, some, arith}
use libpapago.Prelude.Text.{CString, codes, tokens, in_token, push_byte, span_len, str_eq, join}
use libpapago.Kv.{Kv, success, failure, add_kv_n, dup_n, append_kv}
use libpapago.Route.{
  max_route_params, Span, skip_slashes, next_segment, count_params_from, count_route_params,
  capture, match_end, match_from, match_route, commit_params, commit_param,
}
use libpapago.Route.Matching.{bindings, stored, match_route_refines}
use libpapago.Route.Params.{commit_params-match_route}

abbrev pattern : CString
pattern = codes "/u/:id/*"

abbrev path : CString
path = codes "//u/7/a//b/"

count : count_route_params pattern ≡ 2
unfolding count_route_params count_params_from next_segment skip_slashes span_len
count = refl

few : count_route_params pattern ≤ max_route_params
few = rw count (omega arith)

bindings-values :
    bindings (tokens b'/' pattern) (tokens b'/' path)
    ≡ some (
        record { key = codes "id"; value = codes "7" }
        ∷ record { key = codes "*"; value = codes "a/b" }
        ∷ [])
unfolding bindings tokens in_token push_byte join str_eq
bindings-values = refl

match_route_refines_example :
    stored (match_route pattern path true) ≡ bindings (tokens b'/' pattern) (tokens b'/' path)
match_route_refines_example = match_route_refines pattern path few

abbrev id_span : Span
id_span = record {
  key = codes "id/*";
  key_len = 2;
  val = codes "7/a//b/";
  val_len = 1;
  wildcard = false;
}

abbrev star_span : Span
star_span = record {
  key = codes "*";
  key_len = 1;
  val = codes "a//b/";
  val_len = 5;
  wildcard = true;
}

matched : match_route pattern path true ≡ some (id_span ∷ star_span ∷ [])
unfolding match_route match_from match_end capture next_segment skip_slashes span_len str_eq
matched = refl

commit_params-match_route_example :
    (kvs : List Kv) × (bindings (tokens b'/' pattern) (tokens b'/' path) ≡ some kvs)
    × (commit_params [] (id_span ∷ star_span ∷ []) [] ≡ (success, kvs, []))
commit_params-match_route_example =
    commit_params-match_route pattern path (id_span ∷ star_span ∷ []) few matched

exhausted : (commit_params [] (id_span ∷ []) (true ∷ true ∷ false ∷ [])).0 ≡ failure
unfolding commit_params commit_param add_kv_n dup_n append_kv
exhausted = refl
