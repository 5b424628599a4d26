-- ===== src/Exchange/Complete.antt =====
-- Every request is answered and counted once.
use libpapago.Prelude.{
  ℕ, ◌+◌, ◌^◌, ◌<◌, ◌≡◌, not, ◌&&◌, ◌||◌, List, [], Option, arith, Bool-cases, inl, inr,
}
use libpapago.Prelude.Text.{CString, codes}
use libpapago.Method.{method_name}
use libpapago.Metrics.{Metrics, update_metrics}
use libpapago.Metrics.Consistent.{IsConsistent, update_metrics-IsConsistent}
use libpapago.Request.{Request}
use libpapago.Response.{fresh}
use libpapago.Response.Valid.{fresh-IsValid}
use libpapago.Server.{State, Server}
use libpapago.Dispatch.Good.{IsGood, answer-IsGood}
use libpapago.Dispatch.Valid.{IsKeepingServer, respond-IsGood}
use libpapago.Exchange.{Peer, has_status, peer_message, read_cert, check_peer, handle, exchange}
use libpapago.Exchange.Replies.{Sent, reply-Sent}

update_metrics_total :
    (m : Metrics) (url method : CString) (status duration : ℕ)
    → m.total_requests + 1 < 2 ^ 64
    → (update_metrics m url method status duration).total_requests ≡ m.total_requests + 1
unfolding update_metrics
update_metrics_total m url method status duration small = omega arith

module _ {W : Type 0} where
  check_peer-IsGood :
      (p : Peer) (req : Request) (s : State W)
      → IsGood s
      → (let (ok, req', s') = check_peer p req s in IsGood s')
  unfolding check_peer
  check_peer-IsGood p req s g = elim (Bool-cases (not p.verified || has_status p)) [
    | inl e ↦ simp (e, check_peer) (answer-IsGood 500 (peer_message p) s g)
    | inr e ↦ elim (Bool-cases (p.has_cert && not p.init_done)) [
      | inl f ↦
          simp (e, f, check_peer)
            (answer-IsGood 500 (codes "{\"error\":\"failed loading client certificate\"}") s g)
      | inr f ↦ elim (Bool-cases (not (read_cert p req).has_client_cert)) [
        | inl h ↦
            simp (e, f, h, check_peer)
              (answer-IsGood 403 (codes "{\"error\":\"client certificate required\"}") s g)
        | inr h ↦ simp (e, f, h, check_peer) g
      ]
    ]
  ]

  handle-IsGood :
      (server : Server W) (p : Peer) (fields : Request → Request) (req : Request) (s : State W)
      → IsKeepingServer server
      → IsGood s
      → IsGood (handle server p fields req s).1
  unfolding handle
  handle-IsGood server p fields req s keep g =
      let (ok, req', s') = check_peer p req s in
      let checked = check_peer-IsGood p req s g in
      elim (Bool-cases (server.config.enable_ssl && server.config.require_client_cert)) [
        | inr e ↦ simp (e, handle) (respond-IsGood server (fields req) s keep g)
        | inl e ↦ elim (Bool-cases ok) [
          | inl f ↦ simp (e, f, handle) (respond-IsGood server (fields req') s' keep checked)
          | inr f ↦ simp (e, f, handle) checked
        ]
      ]

  -- Functions of the user that keep responses valid, and memory for every allocation: whatever the
  -- certificate, the middleware and the routes, the exchange gives libmicrohttpd a reply, made of the
  -- final response without a read past the end of its body; the metrics have one request more and stay
  -- consistent.
  pub exchange-Sent :
      (server : Server W) (p : Peer) (fields : Request → Request) (gzip : List ℕ → Option (List ℕ))
      (accept : Option CString) (duration : ℕ) (m : Metrics) (req : Request) (s : State W)
      → IsKeepingServer server
      → s.alloc ≡ []
      → IsConsistent m
      → m.total_requests + 1 < 2 ^ 64
      → let (out, m', s') = exchange server p fields gzip accept duration m req s in
        Sent server.config.enable_compression gzip accept s'.res out
        × IsConsistent m'
        × (m'.total_requests ≡ m.total_requests + 1)
  unfolding exchange
  exchange-Sent server p fields gzip accept duration m req s keep plenty counted small =
      let (req', s') = handle server p fields req (record s { res = fresh }) in
      let good =
        handle-IsGood server p fields req (record s { res = fresh }) keep
          (record { valid = fresh-IsValid; plenty = plenty }) in
      (
        reply-Sent server.config.enable_compression gzip accept s'.res good.valid,
        update_metrics-IsConsistent m req'.path (method_name req'.method) s'.res.status duration
            counted small,
        update_metrics_total m req'.path (method_name req'.method) s'.res.status duration small,
      )
