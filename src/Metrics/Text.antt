-- ===== src/Metrics/Text.antt =====
-- papago.c, papago_metrics_handler: the metrics as text. How printf shows the quotient of two doubles
-- with `%.2f` is an argument, as is the uptime, which is not negative.
pub mod Format
pub mod Fits
mod Tests
use libpapago.Prelude.{
  ℕ, ◌+◌, ◌-◌, List, [], ◌∷◌, ◌++◌, Option, none, some, ltb, leb, ◌==◌, if◌then◌else◌, length,
}
use libpapago.Prelude.Text.{CString, codes, decimal}
use libpapago.Alloc.{Alloc}
use libpapago.Response.{Response, res_header, res_send, set_status, content_type}
use libpapago.Metrics.{Endpoint, Metrics}
use libpapago.Metrics.Consistent.{count_at}

abbrev pub metrics_buf_size : ℕ
metrics_buf_size = 16384

-- A format of snprintf with its arguments: text, `%lu` and its kin, and `%s` or `%.2f`.
pub data Piece : Type 0 where
  lit : CString → Piece
  num : ℕ → Piece
  shown : CString → Piece

unfoldable pub format : List Piece → CString
format [] = []
format (lit s ∷ ps) = s ++ format ps
format (num n ∷ ps) = decimal n ++ format ps
format (shown s ∷ ps) = s ++ format ps

-- `avg_duration` and `ep_avg`.
unfoldable pub average : (ℕ → ℕ → CString) → ℕ → ℕ → CString
average quotient total count = if ltb 0 count then quotient total count else codes "0.00"

abbrev pub total_section : Metrics → List Piece
total_section m =
    lit (codes "# HELP http_requests_total Total number of HTTP requests\n")
    ∷ lit (codes "# TYPE http_requests_total counter\n")
    ∷ lit (codes "http_requests_total ")
    ∷ num m.total_requests
    ∷ lit (codes "\n\n")
    ∷ []

-- The minimum is compared with UINT_MAX.
abbrev pub shown_min : Metrics → ℕ
shown_min m = if m.min_duration_ms == 4294967295 then 0 else m.min_duration_ms

abbrev pub duration_section : (ℕ → ℕ → CString) → Metrics → List Piece
duration_section quotient m =
    lit (codes "# HELP http_request_duration_milliseconds HTTP request latencies\n")
    ∷ lit (codes "# TYPE http_request_duration_milliseconds summary\n")
    ∷ lit (codes "http_request_duration_milliseconds_min ")
    ∷ num (shown_min m)
    ∷ lit (codes "\nhttp_request_duration_milliseconds_max ")
    ∷ num m.max_duration_ms
    ∷ lit (codes "\nhttp_request_duration_milliseconds_avg ")
    ∷ shown (average quotient m.total_duration_ms m.total_requests)
    ∷ lit (codes "\nhttp_request_duration_milliseconds_sum ")
    ∷ num m.total_duration_ms
    ∷ lit (codes "\n\n")
    ∷ []

abbrev pub method_section : List ℕ → List Piece
method_section counts =
    lit (codes "# HELP http_requests_by_method Requests by HTTP method\n")
    ∷ lit (codes "# TYPE http_requests_by_method counter\n")
    ∷ lit (codes "http_requests_by_method{method=\"GET\"} ")
    ∷ num (count_at counts 0)
    ∷ lit (codes "\nhttp_requests_by_method{method=\"POST\"} ")
    ∷ num (count_at counts 1)
    ∷ lit (codes "\nhttp_requests_by_method{method=\"PUT\"} ")
    ∷ num (count_at counts 2)
    ∷ lit (codes "\nhttp_requests_by_method{method=\"DELETE\"} ")
    ∷ num (count_at counts 3)
    ∷ lit (codes "\nhttp_requests_by_method{method=\"PATCH\"} ")
    ∷ num (count_at counts 4)
    ∷ lit (codes "\nhttp_requests_by_method{method=\"HEAD\"} ")
    ∷ num (count_at counts 5)
    ∷ lit (codes "\nhttp_requests_by_method{method=\"OPTIONS\"} ")
    ∷ num (count_at counts 6)
    ∷ lit (codes "\nhttp_requests_by_method{method=\"CONNECT\"} ")
    ∷ num (count_at counts 7)
    ∷ lit (codes "\nhttp_requests_by_method{method=\"TRACE\"} ")
    ∷ num (count_at counts 8)
    ∷ lit (codes "\n\n")
    ∷ []

abbrev pub status_section : List ℕ → List Piece
status_section counts =
    lit (codes "# HELP http_requests_by_status Requests by status code class\n")
    ∷ lit (codes "# TYPE http_requests_by_status counter\n")
    ∷ lit (codes "http_requests_by_status{status=\"1xx\"} ")
    ∷ num (count_at counts 0)
    ∷ lit (codes "\nhttp_requests_by_status{status=\"2xx\"} ")
    ∷ num (count_at counts 1)
    ∷ lit (codes "\nhttp_requests_by_status{status=\"3xx\"} ")
    ∷ num (count_at counts 2)
    ∷ lit (codes "\nhttp_requests_by_status{status=\"4xx\"} ")
    ∷ num (count_at counts 3)
    ∷ lit (codes "\nhttp_requests_by_status{status=\"5xx\"} ")
    ∷ num (count_at counts 4)
    ∷ lit (codes "\nhttp_requests_by_status{status=\"other\"} ")
    ∷ num (count_at counts 5)
    ∷ lit (codes "\n\n")
    ∷ []

abbrev pub uptime_section : ℕ → List Piece
uptime_section uptime =
    lit (codes "# HELP process_uptime_seconds Process uptime in seconds\n")
    ∷ lit (codes "# TYPE process_uptime_seconds gauge\n")
    ∷ lit (codes "process_uptime_seconds ")
    ∷ num uptime
    ∷ lit (codes "\n\n")
    ∷ []

abbrev pub endpoint_lines : (ℕ → ℕ → CString) → Endpoint → List Piece
endpoint_lines quotient e =
    lit (codes "http_requests_by_endpoint{endpoint=\"")
    ∷ shown e.path
    ∷ lit (codes "\"} ")
    ∷ num e.count
    ∷ lit (codes "\nhttp_request_duration_by_endpoint{endpoint=\"")
    ∷ shown e.path
    ∷ lit (codes "\"} ")
    ∷ shown (average quotient e.total_ms e.count)
    ∷ lit (codes "\n")
    ∷ []

-- The sections before the endpoints.
abbrev pub sections : (ℕ → ℕ → CString) → Metrics → ℕ → List (List Piece)
sections quotient m uptime =
    total_section m
    ∷ duration_section quotient m
    ∷ method_section m.requests_by_method
    ∷ status_section m.requests_by_status
    ∷ uptime_section uptime
    ∷ []

-- One snprintf to the rest of the buffer, which must hold the NUL too.
unfoldable pub print : CString → List Piece → Option CString
print out pieces =
    let text = format pieces in
    if leb metrics_buf_size (length out + length text) then none else some (out ++ text)

unfoldable pub print_sections : CString → List (List Piece) → Option CString
print_sections out [] = some out
print_sections out (section ∷ rest) = elim (print out section) [
  | none ↦ none
  | some out' ↦ print_sections out' rest
]

-- The loop over the endpoints, which ends when fewer than 256 bytes are left.
unfoldable pub print_endpoints : (ℕ → ℕ → CString) → CString → List Endpoint → Option CString
print_endpoints quotient out [] = some out
print_endpoints quotient out (e ∷ es) =
    let next : Option CString = elim (print out (endpoint_lines quotient e)) [
      | none ↦ none
      | some out' ↦ print_endpoints quotient out' es
    ] in
    if ltb (length out) (metrics_buf_size - 256) then next else some out

unfoldable pub metrics_text : (ℕ → ℕ → CString) → Metrics → ℕ → Option CString
metrics_text quotient m uptime = elim (print_sections [] (sections quotient m uptime)) [
  | none ↦ none
  | some out ↦ print_endpoints quotient out m.endpoints
]

unfoldable pub send_metrics : Response → CString → Alloc → ℕ × Response × Alloc
send_metrics res text a =
    let (r1, a1) =
      res_header res (some content_type) (some (codes "text/plain; version=0.0.4; charset=utf-8"))
        a in
    let (r2, a2) =
      res_header r1 (some (codes "X-Content-Type-Options")) (some (codes "nosniff")) a1 in
    res_send r2 (some text) a2

-- papago_metrics_handler; no metrics are a server that is NULL.
unfoldable pub metrics_handler :
    (ℕ → ℕ → CString) → Option Metrics → ℕ → Response → Alloc → Response × Alloc
metrics_handler quotient none uptime res a =
    let (rc, res', a') = res_send (set_status res 500) (some (codes "metrics unavailable\n")) a in
    (res', a')
metrics_handler quotient (some m) uptime res a = elim (metrics_text quotient m uptime) [
  | none ↦ (set_status res 500, a)
  | some text ↦ let (rc, res', a') = send_metrics res text a in (res', a')
]
