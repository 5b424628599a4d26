-- ===== src/Exchange.antt =====
-- papago.c, mhd_handler from the creation of the response to its end: the check of the client's
-- certificate, what runs for an accepted request, the metrics, and the response that libmicrohttpd is
-- given. What GnuTLS, zlib, the clock and libmicrohttpd answer are arguments.
pub mod Peers
pub mod Replies
pub mod Complete
mod Tests
use libpapago.Prelude.{
  ℕ, Bool, true, false, not, ◌&&◌, ◌||◌, List, [], ◌∷◌, ◌++◌, Option, none, some, ltb, leb, ◌==◌,
  if◌then◌else◌, length, take,
}
use libpapago.Prelude.Text.{CString, codes, starts_with, truncated}
use libpapago.Kv.{Kv}
use libpapago.Config.{Config}
use libpapago.Method.{method_name}
use libpapago.Metrics.{Metrics, update_metrics}
use libpapago.Request.{Request}
use libpapago.Response.{Body, null, held, freed, Response, fresh}
use libpapago.Server.{State, Server}
use libpapago.Dispatch.{answer, respond}

-- What GnuTLS answers: did the verification run, the bits of its status that have a message, whether
-- any other is set, is there a certificate, could it be loaded, and its common name.
pub record Peer : Type 0 where
  pub verified : Bool
  pub expired : Bool
  pub not_activated : Bool
  pub revoked : Bool
  pub signer_not_found : Bool
  pub other_status : Bool
  pub has_cert : Bool
  pub init_done : Bool
  pub imported : Bool
  pub common_name : CString

-- `status != 0`
abbrev pub has_status : Peer → Bool
has_status p = p.expired || p.not_activated || p.revoked || p.signer_not_found || p.other_status

unfoldable pub peer_message : Peer → CString
peer_message p =
    if p.expired
    then codes "{\"error\":\"client certificate has expired\"}"
    else if p.not_activated
    then codes "{\"error\":\"client certificate not yet valid\"}"
    else if p.revoked
    then codes "{\"error\":\"client certificate revoked\"}"
    else if p.signer_not_found
    then codes "{\"error\":\"client certificate not signed by trusted CA\"}"
    else codes "{\"error\":\"client certificate verification failed\"}"

-- The request after its certificate was read, if there is one.
unfoldable pub read_cert : Peer → Request → Request
read_cert p req =
    if p.has_cert && p.imported
    then record req { has_client_cert = true; client_cert_cn = p.common_name }
    else record req { has_client_cert = false; client_cert_cn = [] }

-- The headers `User-Agent` and `Host` and the version, cut to the size of their buffers.
unfoldable pub read_fields : Option CString → Option CString → Option CString → Request → Request
read_fields agent host version req = record req {
  user_agent = elim agent [ none ↦ [] | some text ↦ truncated 256 text ];
  host = elim host [ none ↦ [] | some text ↦ truncated 256 text ];
  version = elim version [ none ↦ [] | some text ↦ truncated 12 text ];
}

module _ {W : Type 0} where
  -- The check of the certificate; false is the jump to `send_response`.
  unfoldable pub check_peer : Peer → Request → State W → Bool × Request × State W
  check_peer p req s =
      let req' = read_cert p req in
      let unread : Request = record req { has_client_cert = false; client_cert_cn = [] } in
      if not p.verified || has_status p
      then (false, unread, answer 500 (peer_message p) s)
      else if p.has_cert && not p.init_done
      then (false, unread, answer 500 (codes "{\"error\":\"failed loading client certificate\"}") s)
      else if not req'.has_client_cert
      then (false, req', answer 403 (codes "{\"error\":\"client certificate required\"}") s)
      else (true, req', s)

  -- Up to the label `send_response`.
  unfoldable pub handle :
      Server W → Peer → (Request → Request) → Request → State W → Request × State W
  handle server p fields req s =
      let (ok, req', s') = check_peer p req s in
      if server.config.enable_ssl && server.config.require_client_cert
      then (if ok then respond server (fields req') s' else (req', s'))
      else respond server (fields req) s

-- What libmicrohttpd is given: a file and its size, or the bytes of a buffer.
pub data Reply : Type 0 where
  stream : ℕ → ℕ → ℕ → List Kv → Reply
  buffer : ℕ → List ℕ → List Kv → Reply

-- `body_length` bytes at `body`, or at "" for NULL; `none` is a read beyond them.
unfoldable pub sent_bytes : Body → ℕ → Option (List ℕ)
sent_bytes null len = if len == 0 then some [] else none
sent_bytes (held bytes) len = if leb len (length bytes) then some (take len bytes) else none
sent_bytes freed len = none

-- `strstr(s, part) != NULL`
unfoldable pub has_part : CString → CString → Bool
has_part part [] = starts_with part []
has_part part (c ∷ s) = starts_with part (c ∷ s) || has_part part s

-- Is there a body to compress, and does the client accept it?
unfoldable pub wants_gzip : Option CString → Body → ℕ → Bool
wants_gzip none body len = false
wants_gzip (some accept) (held bytes) len = has_part (codes "gzip") accept && ltb 0 len
wants_gzip (some accept) null len = false
wants_gzip (some accept) freed len = has_part (codes "gzip") accept && ltb 0 len

abbrev pub gzip_kvs : List Kv
gzip_kvs =
    record { key = codes "Content-Encoding"; value = codes "gzip" }
    ∷ record { key = codes "Vary"; value = codes "Accept-Encoding" }
    ∷ []

-- The compressed bytes, if there are any and they are fewer than the body's.
unfoldable pub choose : Response → List ℕ → Option (List ℕ) → Reply
choose res bytes none = buffer res.status bytes res.headers
choose res bytes (some packed) =
    if ltb (length packed) res.body_length
    then buffer res.status packed (gzip_kvs ++ res.headers)
    else buffer res.status bytes res.headers

-- The response of a body; `gzip` is compress_gzip.
unfoldable pub reply_body :
    Bool → (List ℕ → Option (List ℕ)) → Option CString → Response → Option Reply
reply_body compression gzip accept res = elim (sent_bytes res.body res.body_length) [
  | none ↦ none
  | some bytes ↦ some (
      if compression && wants_gzip accept res.body res.body_length
      then choose res bytes (gzip bytes)
      else buffer res.status bytes res.headers)
]

-- From the label `send_response` on, when libmicrohttpd can create the response.
unfoldable pub reply : Bool → (List ℕ → Option (List ℕ)) → Option CString → Response → Option Reply
reply compression gzip accept res = elim res.stream_fd [
  | none ↦ reply_body compression gzip accept res
  | some fd ↦
      if res.is_stream_file
      then some (stream res.status fd res.stream_file_size res.headers)
      else reply_body compression gzip accept res
]

-- The whole: the reply, the metrics and the state.
unfoldable pub exchange :
    {W : Type 0}
    → Server W
    → Peer
    → (Request → Request)
    → (List ℕ → Option (List ℕ))
    → Option CString
    → ℕ
    → Metrics
    → Request
    → State W
    → Option Reply × Metrics × State W
exchange server p fields gzip accept duration m req s =
    let (req', s') = handle server p fields req (record s { res = fresh }) in
    (
      reply server.config.enable_compression gzip accept s'.res,
      update_metrics m req'.path (method_name req'.method) s'.res.status duration,
      s',
    )
