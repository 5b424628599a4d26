-- ===== src/Metrics/Text/Tests.antt =====
-- The metrics after the first request, with averages that are shown as a number.
use libpapago.Prelude.{ℕ, zero, suc, ◌^◌, ◌<◌, ◌≡◌, [], ◌∷◌, some, arith, replicate}
use libpapago.Prelude.Text.{CString, codes}
use libpapago.Response.{fresh}
use libpapago.Metrics.{Endpoint, Metrics}
use libpapago.Metrics.Consistent.{count_at}
use libpapago.Metrics.Text.{sections, send_metrics, metrics_handler}
use libpapago.Metrics.Text.Format.{texts}
use libpapago.Metrics.Text.Fits.{AreShown, Lists, metrics_handler_lem}

abbrev quotient : ℕ → ℕ → CString
quotient total count = codes "3.00"

abbrev root : Endpoint
root = record { path = codes "/"; count = 1; total_ms = 3 }

abbrev first : Metrics
first = record {
  total_requests = 1;
  requests_by_method = 1 ∷ replicate 9 0;
  requests_by_status = 0 ∷ 1 ∷ replicate 5 0;
  total_duration_ms = 3;
  min_duration_ms = 3;
  max_duration_ms = 3;
  errors_4xx = 0;
  errors_5xx = 0;
  endpoints = root ∷ [];
}

zeros : (k i : ℕ) → count_at (replicate k 0) i < 2 ^ 64
unfolding count_at
zeros zero i = omega arith
zeros (suc k) zero = omega arith
zeros (suc k) (suc i) = zeros k i

methods : (i : ℕ) → count_at (1 ∷ replicate 9 0) i < 2 ^ 64
unfolding count_at
methods zero = omega arith
methods (suc i) = zeros 9 i

statuses : (i : ℕ) → count_at (0 ∷ 1 ∷ replicate 5 0) i < 2 ^ 64
unfolding count_at
statuses zero = omega arith
statuses (suc zero) = omega arith
statuses (suc (suc i)) = zeros 5 i

first-AreShown : AreShown quotient first 10
first-AreShown = record {
  total = omega arith;
  shortest = omega arith;
  longest = omega arith;
  duration = omega arith;
  methods = methods;
  statuses = statuses;
  endpoints = ground arith;
  alive = omega arith;
  averages = λ total count. omega arith;
}

metrics_handler_lem_example :
    (text : CString) × (metrics_handler quotient (some first) 10 fresh []
      ≡ (let (rc, res, a) = send_metrics fresh text [] in (res, a)))
    × Lists quotient (texts (sections quotient first 10)) (root ∷ []) text
metrics_handler_lem_example =
    metrics_handler_lem quotient first 10 fresh [] first-AreShown (ground arith)
