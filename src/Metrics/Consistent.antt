-- ===== src/Metrics/Consistent.antt =====
-- The counts agree with each other after any sequence of requests.
use libpapago.Prelude.{
  ℕ, zero, suc, ◌+◌, ◌^◌, ◌≤◌, ◌<◌, ◌≡◌, refl, Bool, List, [], ◌∷◌, arith, ltb, ◌==◌, if◌then◌else◌,
  length, length-append, All, All-append, Bool-cases, inl, inr, length-take, take, ltb→lt, ap, sym,
  ◌∙◌,
}
use libpapago.Prelude.Text.{CString, str_eq}
use libpapago.Metrics.{
  Endpoint, Metrics, max_endpoints, path_size, add_u64, bump, method_idx, status_idx, is_between,
  count_endpoint, update_endpoints, update_metrics,
}

unfoldable pub sum : List ℕ → ℕ
sum [] = 0
sum (n ∷ ns) = n + sum ns

-- The number at a position, 0 behind the end.
unfoldable pub count_at : List ℕ → ℕ → ℕ
count_at [] i = 0
count_at (n ∷ ns) zero = n
count_at (n ∷ ns) (suc i) = count_at ns i

-- Every request is counted once by its method and once by the class of its status, the error counts
-- are those of the two error classes, and the endpoints stay within their array and their paths
-- within theirs.
pub record IsConsistent (m : Metrics) : Type 0 where
  pub methods_length : length m.requests_by_method ≡ 10
  pub status_length : length m.requests_by_status ≡ 7
  pub methods_sum : sum m.requests_by_method ≡ m.total_requests
  pub status_sum : sum m.requests_by_status ≡ m.total_requests
  pub errors_4xx : m.errors_4xx ≡ count_at m.requests_by_status 3
  pub errors_5xx : m.errors_5xx ≡ count_at m.requests_by_status 4
  pub endpoints_bound : length m.endpoints ≤ max_endpoints
  pub paths_bound : All (λ (e : Endpoint). length e.path < path_size) m.endpoints

length-bump : (ns : List ℕ) (i : ℕ) → length (bump ns i) ≡ length ns
unfolding bump
length-bump [] i = refl
length-bump (n ∷ ns) zero = refl
length-bump (n ∷ ns) (suc i) = omega (arith, length-bump ns i)

add_u64-small : (n : ℕ) → n + 1 < 2 ^ 64 → add_u64 n 1 ≡ n + 1
add_u64-small n h = omega arith

sum-bump :
    (ns : List ℕ) (i : ℕ) → i < length ns → sum ns + 1 < 2 ^ 64 → sum (bump ns i) ≡ sum ns + 1
unfolding bump sum
sum-bump [] i l h = elim l [ ]
sum-bump (n ∷ ns) zero l h = omega (arith, add_u64-small n (omega arith))
sum-bump (n ∷ ns) (suc i) l h = omega (arith, sum-bump ns i (omega arith) (omega arith))

count_at-bump :
    (ns : List ℕ) (i j : ℕ)
    → j < length ns
    → count_at (bump ns i) j ≡ (if i == j then add_u64 (count_at ns j) 1 else count_at ns j)
unfolding bump count_at
count_at-bump [] i j l = elim l [ ]
count_at-bump (n ∷ ns) zero zero l = ground arith
count_at-bump (n ∷ ns) zero (suc j) l = ground arith
count_at-bump (n ∷ ns) (suc i) zero l = ground arith
count_at-bump (n ∷ ns) (suc i) (suc j) l = ground (arith, count_at-bump ns i j (omega arith))

method_idx_bound : (method : CString) → method_idx method < 10
unfolding method_idx
method_idx_bound method = ground arith

status_idx_bound : (status : ℕ) → status_idx status < 6
unfolding status_idx
status_idx_bound status = ground arith

status_idx-3 : (status : ℕ) → (status_idx status == 3) ≡ is_between 400 500 status
unfolding status_idx
status_idx-3 status = ground arith

status_idx-4 : (status : ℕ) → (status_idx status == 4) ≡ is_between 500 600 status
unfolding status_idx
status_idx-4 status = ground arith

length-count_endpoint :
    (es : List Endpoint) (url : CString) (d : ℕ) → length (count_endpoint es url d).1 ≡ length es
unfolding count_endpoint
length-count_endpoint [] url d = refl
length-count_endpoint (e ∷ es) url d = ground (arith, length-count_endpoint es url d)

count_endpoint-paths :
    (es : List Endpoint) (url : CString) (d : ℕ)
    → All (λ (e : Endpoint). length e.path < path_size) es
    → All (λ (e : Endpoint). length e.path < path_size) (count_endpoint es url d).1
unfolding count_endpoint
count_endpoint-paths [] url d h = tt
count_endpoint-paths (e ∷ es) url d h = elim (Bool-cases (str_eq e.path url)) [
  | inl p ↦ rw p (h.0, h.1)
  | inr p ↦ rw p (h.0, count_endpoint-paths es url d h.1)
]

length-update_endpoints :
    (es : List Endpoint) (url : CString) (d : ℕ)
    → length es ≤ max_endpoints
    → length (update_endpoints es url d) ≤ max_endpoints
unfolding update_endpoints
length-update_endpoints es url d h =
    let added : Endpoint = record { path = take 127 url; count = 1; total_ms = d } in
    let counted = length-count_endpoint es url d in
    let longer = length-append es (added ∷ []) in
    elim (Bool-cases (count_endpoint es url d).0) [
      | inl p ↦ rw p (omega (arith, counted))
      | inr p ↦ elim (Bool-cases (ltb (length es) 64)) [
        | inl q ↦ rw (p, q) (omega (arith, longer, ltb→lt _ _ q))
        | inr q ↦ rw (p, q) h
      ]
    ]

update_endpoints-paths :
    (es : List Endpoint) (url : CString) (d : ℕ)
    → All (λ (e : Endpoint). length e.path < path_size) es
    → All (λ (e : Endpoint). length e.path < path_size) (update_endpoints es url d)
unfolding update_endpoints
update_endpoints-paths es url d h =
    let added : Endpoint = record { path = take 127 url; count = 1; total_ms = d } in
    let fits : length added.path < path_size = omega (arith, length-take 127 url) in
    elim (Bool-cases (count_endpoint es url d).0) [
      | inl p ↦ rw p (count_endpoint-paths es url d h)
      | inr p ↦ elim (Bool-cases (ltb (length es) 64)) [
        | inl q ↦ rw (p, q) (All-append _ es (added ∷ []) h (fits, tt))
        | inr q ↦ rw (p, q) h
      ]
    ]

-- An error count and that of its class go up together.
class_count :
    (ns : List ℕ) (status errors i : ℕ) (b : Bool)
    → i < length ns
    → errors ≡ count_at ns i
    → (status_idx status == i) ≡ b
    → (if b then add_u64 errors 1 else errors) ≡ count_at (bump ns (status_idx status)) i
class_count ns status errors i b l e h = rw (count_at-bump ns (status_idx status) i l, h, e)

-- Updating the metrics keeps them consistent, as long as the number of requests fits a `uint64_t`.
pub update_metrics-IsConsistent :
    (m : Metrics) (url method : CString) (status duration : ℕ)
    → IsConsistent m
    → m.total_requests + 1 < 2 ^ 64
    → IsConsistent (update_metrics m url method status duration)
unfolding update_metrics
update_metrics-IsConsistent m url method status duration c h =
    let total = add_u64-small m.total_requests h in
    let room4 : 3 < length m.requests_by_status = omega (arith, c.status_length) in
    let room5 : 4 < length m.requests_by_status = omega (arith, c.status_length) in
    let method_room : method_idx method < length m.requests_by_method =
      omega (arith, c.methods_length, method_idx_bound method) in
    let status_room : status_idx status < length m.requests_by_status =
      omega (arith, c.status_length, status_idx_bound status) in
    record {
      methods_length = length-bump m.requests_by_method (method_idx method) ∙ c.methods_length;
      status_length = length-bump m.requests_by_status (status_idx status) ∙ c.status_length;
      methods_sum =
          sum-bump m.requests_by_method (method_idx method) method_room
            (omega (arith, c.methods_sum))
          ∙ ap (λ n. n + 1) c.methods_sum
          ∙ sym total;
      status_sum =
          sum-bump m.requests_by_status (status_idx status) status_room
            (omega (arith, c.status_sum))
          ∙ ap (λ n. n + 1) c.status_sum
          ∙ sym total;
      errors_4xx =
          class_count m.requests_by_status status m.errors_4xx 3 (is_between 400 500 status) room4
            c.errors_4xx (status_idx-3 status);
      errors_5xx =
          class_count m.requests_by_status status m.errors_5xx 4 (is_between 500 600 status) room5
            c.errors_5xx (status_idx-4 status);
      endpoints_bound = length-update_endpoints m.endpoints url duration c.endpoints_bound;
      paths_bound = update_endpoints-paths m.endpoints url duration c.paths_bound;
    }
