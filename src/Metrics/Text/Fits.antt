-- ===== src/Metrics/Text/Fits.antt =====
-- The text of the metrics fits its buffer.
use libpapago.Prelude.{
  ℕ, ◌+◌, ◌-◌, ◌^◌, ◌≤◌, ◌<◌, ◌≡◌, ◌⊎◌, refl, ap, sym, ◌∙◌, List, [], ◌∷◌, ◌++◌, some, arith, All,
  ltb, length, length-append, append-nil, append_assoc, Bool-cases, inl, inr,
}
use libpapago.Prelude.Text.{CString}
use libpapago.Alloc.{Alloc}
use libpapago.Response.{Response}
use libpapago.Metrics.{Endpoint, Metrics}
use libpapago.Metrics.Consistent.{count_at}
use libpapago.Metrics.Text.{
  metrics_buf_size, format, average, shown_min, endpoint_lines, sections, print_endpoints,
  metrics_text, send_metrics, metrics_handler,
}
use libpapago.Metrics.Text.Format.{
  AreShort, length-format, print-fits, texts, rooms, length-texts, print_sections-fits,
}

-- The numbers that are shown are those of a `uint64_t`, and what printf makes of an average is not
-- longer than 24 characters.
pub record AreShown (quotient : ℕ → ℕ → CString) (m : Metrics) (uptime : ℕ) : Type 0 where
  pub total : m.total_requests < 2 ^ 64
  pub shortest : m.min_duration_ms < 2 ^ 64
  pub longest : m.max_duration_ms < 2 ^ 64
  pub duration : m.total_duration_ms < 2 ^ 64
  pub methods : (i : ℕ) → count_at m.requests_by_method i < 2 ^ 64
  pub statuses : (i : ℕ) → count_at m.requests_by_status i < 2 ^ 64
  pub endpoints : All (λ (e : Endpoint). e.count < 2 ^ 64) m.endpoints
  pub alive : uptime < 2 ^ 64
  pub averages : (total count : ℕ) → length (quotient total count) ≤ 24

module _ (quotient : ℕ → ℕ → CString) where
  length-average :
      ((total count : ℕ) → length (quotient total count) ≤ 24)
      → (total count : ℕ) → length (average quotient total count) ≤ 24
  unfolding average
  length-average h total count = elim (Bool-cases (ltb 0 count)) [
    | inl e ↦ rw e (h total count)
    | inr e ↦ rw e (omega arith)
  ]

  sections-AreShort :
      (m : Metrics) (uptime : ℕ)
      → AreShown quotient m uptime
      → All AreShort (sections quotient m uptime)
  sections-AreShort m uptime s =
      let min : shown_min m < 2 ^ 64 = ground (arith, s.shortest) in
      let methods = s.methods in
      let statuses = s.statuses in
      (
        (s.total, tt),
        (
          (min, (s.longest, (s.duration, tt))),
          (
            (
              methods 0,
              (
                methods 1,
                (
                  methods 2,
                  (methods 3, (methods 4, (methods 5, (methods 6, (methods 7, (methods 8, tt)))))),
                ),
              ),
            ),
            (
              (
                statuses 0,
                (statuses 1, (statuses 2, (statuses 3, (statuses 4, (statuses 5, tt))))),
              ),
              ((s.alive, tt), tt),
            ),
          ),
        ),
      )

  sections-room :
      (m : Metrics) (uptime : ℕ)
      → AreShown quotient m uptime
      → rooms (sections quotient m uptime) < metrics_buf_size
  sections-room m uptime s =
      let short = length-average s.averages m.total_duration_ms m.total_requests in
      omega (arith, short)

  -- The two lines for an endpoint whose path has at most 62 bytes take at most 256 bytes.
  length-endpoint_lines :
      ((total count : ℕ) → length (quotient total count) ≤ 24)
      → (e : Endpoint) → e.count < 2 ^ 64
      → length e.path ≤ 62
      → length (format (endpoint_lines quotient e)) ≤ 256
  length-endpoint_lines averages e small path =
      let short = length-average averages e.total_ms e.count in
      let all = length-format (endpoint_lines quotient e) (small, tt) in omega (arith, short, all)

  -- The lines of some endpoints.
  abbrev pub lines : List Endpoint → CString
  lines [] = []
  lines (e ∷ es) = format (endpoint_lines quotient e) ++ lines es

  -- The lines of the endpoints that come first, up to where fewer than 256 bytes are left.
  abbrev pub Lists : CString → List Endpoint → CString → Type 0
  Lists out es text =
      (listed : List Endpoint) × (rest : List Endpoint) × (es ≡ listed ++ rest)
      × (text ≡ out ++ lines listed)
      × (length text < metrics_buf_size)
      × ((rest ≡ []) ⊎ (metrics_buf_size ≤ length text + 256))

  print_endpoints-Lists :
      ((total count : ℕ) → length (quotient total count) ≤ 24)
      → (out : CString) (es : List Endpoint) → All (λ (e : Endpoint). e.count < 2 ^ 64) es
      → All (λ (e : Endpoint). length e.path ≤ 62) es
      → length out < metrics_buf_size
      → (text : CString) × (print_endpoints quotient out es ≡ some text) × Lists out es text
  unfolding print_endpoints
  print_endpoints-Lists averages out [] c p fits =
      (out, refl, ([], [], refl, sym (append-nil out), fits, inl refl))
  print_endpoints-Lists averages out (e ∷ es) c p fits =
      elim (Bool-cases (ltb (length out) (metrics_buf_size - 256))) [
        | inr full ↦ (
          out,
          rw (full, print_endpoints) refl,
          ([], e ∷ es, refl, sym (append-nil out), fits, inr (ground arith)),
        )
        | inl space ↦
            let line = format (endpoint_lines quotient e) in
            let short = length-endpoint_lines averages e c.0 p.0 in
            let sum = length-append out line in
            let left : length out + length line < metrics_buf_size = ground arith in
            let (text, printed, (listed, rest, all, joined, small, why)) =
              print_endpoints-Lists averages (out ++ line) es c.1 p.1 (omega (arith, left, sum)) in
            (
              text,
              rw (space, print-fits out (endpoint_lines quotient e) left, print_endpoints) printed,
              (
                e ∷ listed,
                rest,
                ap (λ r. e ∷ r) all,
                joined ∙ append_assoc out line (lines listed),
                small,
                why,
              ),
            )
      ]

  -- Counters of 64 bits, averages of at most 24 characters, and endpoints whose paths have at most 62
  -- bytes: the handler sends all the sections and behind them the lines of
  -- the endpoints in their order; the text and its NUL fit the buffer of 16384 bytes, and endpoints are
  -- left out only when the text comes within 256 bytes of its size.
  pub metrics_handler_lem :
      (m : Metrics) (uptime : ℕ) (res : Response) (a : Alloc)
      → AreShown quotient m uptime
      → All (λ (e : Endpoint). length e.path ≤ 62) m.endpoints
      → (text : CString) × (metrics_handler quotient (some m) uptime res a
          ≡ (let (rc, res', a') = send_metrics res text a in (res', a')))
        × Lists (texts (sections quotient m uptime)) m.endpoints text
  unfolding metrics_handler metrics_text
  metrics_handler_lem m uptime res a s paths =
      let head = texts (sections quotient m uptime) in
      let short = sections-AreShort m uptime s in
      let room = sections-room m uptime s in
      let (text, printed, listed) =
        print_endpoints-Lists s.averages head m.endpoints s.endpoints paths
          (omega (arith, length-texts (sections quotient m uptime) short, room)) in
      let begun = print_sections-fits [] (sections quotient m uptime) short (omega (arith, room)) in
      (text, rw (begun, metrics_handler, metrics_text, printed) refl, listed)
