-- ===== src/Metrics.antt =====
-- papago.c, papago_metrics_t and update_metrics: the counts of requests by method, by status and by
-- endpoint. The function runs under the mutex of the metrics.
pub mod Consistent
pub mod Text
use libpapago.Prelude.{
  ℕ, zero, suc, ◌+◌, ◌%◌, ◌^◌, Bool, true, false, ◌&&◌, List, [], ◌∷◌, ◌++◌, Option, none, some,
  ltb, leb, if◌then◌else◌, length, take,
}
use libpapago.Prelude.Text.{CString, str_eq, codes, truncated}

-- One element of `endpoints`.
pub record Endpoint : Type 0 where
  pub path : CString
  pub count : ℕ
  pub total_ms : ℕ

-- `papago_metrics_t`; the endpoints in use are a list, whose length is `endpoint_count`.
pub record Metrics : Type 0 where
  pub total_requests : ℕ
  pub requests_by_method : List ℕ
  pub requests_by_status : List ℕ
  pub total_duration_ms : ℕ
  pub min_duration_ms : ℕ
  pub max_duration_ms : ℕ
  pub errors_4xx : ℕ
  pub errors_5xx : ℕ
  pub endpoints : List Endpoint

-- The sizes of `endpoints` and of its paths.
abbrev pub max_endpoints : ℕ
max_endpoints = 64

abbrev pub path_size : ℕ
path_size = 128

-- Addition of `uint64_t`.
abbrev pub add_u64 : ℕ → ℕ → ℕ
add_u64 a b = (a + b) % 2 ^ 64

-- `counts[i]++`
unfoldable pub bump : List ℕ → ℕ → List ℕ
bump [] i = []
bump (n ∷ counts) zero = add_u64 n 1 ∷ counts
bump (n ∷ counts) (suc i) = n ∷ bump counts i

-- `method_idx`
unfoldable pub method_idx : CString → ℕ
method_idx method =
    if str_eq method (codes "GET")
    then 0
    else if str_eq method (codes "POST")
    then 1
    else if str_eq method (codes "PUT")
    then 2
    else if str_eq method (codes "DELETE")
    then 3
    else if str_eq method (codes "PATCH")
    then 4
    else if str_eq method (codes "HEAD")
    then 5
    else if str_eq method (codes "OPTIONS")
    then 6
    else if str_eq method (codes "CONNECT")
    then 7
    else if str_eq method (codes "TRACE")
    then 8
    else 9

-- `low <= status && status < high`
abbrev pub is_between : ℕ → ℕ → ℕ → Bool
is_between low high status = leb low status && ltb status high

-- `status_idx`
unfoldable pub status_idx : ℕ → ℕ
status_idx status =
    if is_between 100 200 status
    then 0
    else if is_between 200 300 status
    then 1
    else if is_between 300 400 status
    then 2
    else if is_between 400 500 status
    then 3
    else if is_between 500 600 status
    then 4
    else 5

-- The search for the endpoint: true if it was found, and the endpoints after it was counted.
unfoldable pub count_endpoint : List Endpoint → CString → ℕ → Bool × List Endpoint
count_endpoint [] url duration = (false, [])
count_endpoint (e ∷ es) url duration =
    let (found, es') = count_endpoint es url duration in
    let counted : Endpoint = record e {
      count = add_u64 e.count 1;
      total_ms = add_u64 e.total_ms duration;
    } in
    if str_eq e.path url then (true, counted ∷ es) else (found, e ∷ es')

-- The endpoints: a new one is added if it was not found and there is space.
unfoldable pub update_endpoints : List Endpoint → CString → ℕ → List Endpoint
update_endpoints endpoints url duration =
    let (found, counted) = count_endpoint endpoints url duration in
    let added : Endpoint = record {
      path = truncated path_size url;
      count = 1;
      total_ms = duration;
    } in
    if found
    then counted
    else if ltb (length endpoints) max_endpoints
    then endpoints ++ added ∷ []
    else endpoints

-- update_metrics once its pointers are given.
unfoldable pub update_metrics : Metrics → CString → CString → ℕ → ℕ → Metrics
update_metrics m url method status duration = record {
  total_requests = add_u64 m.total_requests 1;
  requests_by_method = bump m.requests_by_method (method_idx method);
  requests_by_status = bump m.requests_by_status (status_idx status);
  total_duration_ms = add_u64 m.total_duration_ms duration;
  min_duration_ms = if ltb duration m.min_duration_ms then duration else m.min_duration_ms;
  max_duration_ms = if ltb m.max_duration_ms duration then duration else m.max_duration_ms;
  errors_4xx = if is_between 400 500 status then add_u64 m.errors_4xx 1 else m.errors_4xx;
  errors_5xx = if is_between 500 600 status then add_u64 m.errors_5xx 1 else m.errors_5xx;
  endpoints = update_endpoints m.endpoints url duration;
}
