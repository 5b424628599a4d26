-- ===== src/WsServer.antt =====
-- papago.c, the websocket side of a server: papago_ws_endpoint, the handshake and the end of a
-- connection in lws_callback, and papago_ws_broadcast. What OpenSSL and libwebsockets answer is an
-- argument, and the callbacks of an endpoint are values of any type.
pub mod Listed
pub mod Shared
pub mod Broadcast
pub mod Handshake
mod Tests
use libpapago.Prelude.{
  ℕ, ◌+◌, Bool, true, false, not, ◌&&◌, List, [], ◌∷◌, ◌++◌, Option, none, some, ltb, leb, ◌==◌,
  if◌then◌else◌, length, ◌%◌, ◌^◌,
}
use libpapago.Prelude.Text.{CString, str_eq, truncated}
use libpapago.Alloc.{Alloc}
use libpapago.Multipart.{dup_opt}
use libpapago.Kv.{Status, success, failure}
use libpapago.WsQueue.{Heap}
use libpapago.WsConn.{Conn, enqueue}

-- `papago_ws_endpoint_t`; the path is NULL when its copy failed.
pub record Endpoint (K : Type 0) : Type 0 where
  pub path : Option CString
  pub callbacks : K

-- PAPAGO_MAX_WS_ENDPOINTS
abbrev pub max_ws_endpoints : ℕ
max_ws_endpoints = 32

-- The size of `ws_connections` that lws_callback keeps to.
abbrev pub max_connections : ℕ
max_connections = 256

-- What OpenSSL and libwebsockets answer in a handshake: SSL is there, the certificate of the client,
-- that it was verified, its common name, the path of the request, and the two initialisations.
pub record Answers : Type 0 where
  pub has_ssl : Bool
  pub has_cert : Bool
  pub verified : Bool
  pub common_name : Option CString
  pub uri : Option CString
  pub mutex_done : Bool
  pub cond_done : Bool

-- `n > 0` for the length of the common name, which is negative when there is none.
unfoldable pub has_name : Option CString → Bool
has_name none = false
has_name (some []) = false
has_name (some (c ∷ cn)) = true

-- The test of the certificate.
unfoldable pub cert_accepted : Answers → Bool
cert_accepted w = w.has_ssl && w.has_cert && w.verified && has_name w.common_name

module _ {K : Type 0} where
  -- papago_ws_endpoint with a server and a path.
  unfoldable pub ws_endpoint :
      List (Endpoint K) → CString → K → Alloc → Status × List (Endpoint K) × Alloc
  ws_endpoint endpoints path callbacks a =
      let (copy, a') = dup_opt (some path) a in
      if leb max_ws_endpoints (length endpoints)
      then (failure, endpoints, a)
      else (success, endpoints ++ record { path = copy; callbacks = callbacks } ∷ [], a')

  -- The search for the endpoint; the outer `none` is a comparison with NULL.
  unfoldable pub find_endpoint : List (Endpoint K) → CString → Option (Option (Endpoint K))
  find_endpoint [] uri = some none
  find_endpoint (e ∷ es) uri =
      let rest = find_endpoint es uri in
      elim e.path [ none ↦ none | some path ↦ if str_eq path uri then some (some e) else rest ]

  -- The endpoint for a path, if the two initialisations succeed.
  unfoldable pub settle_endpoint : Answers → Option (Endpoint K) → Option (Endpoint K)
  settle_endpoint w none = none
  settle_endpoint w (some e) = if w.mutex_done && w.cond_done then some e else none

  -- LWS_CALLBACK_ESTABLISHED, where `mtls` is the test of the configuration: the endpoint of the
  -- connection, or none when 1 is returned; the outer `none` is a comparison with NULL.
  unfoldable pub established : Bool → List (Endpoint K) → Answers → Option (Option (Endpoint K))
  established mtls endpoints w = if mtls && not (cert_accepted w) then some none else elim w.uri [
    | none ↦ some none
    | some uri ↦ elim (find_endpoint endpoints uri) [
      | none ↦ none
      | some found ↦ some (settle_endpoint w found)
    ]
  ]

-- A connection is added to `ws_connections`, if there is room.
unfoldable pub add_connection : List ℕ → ℕ → List ℕ
add_connection listed conn =
    if ltb (length listed) max_connections then listed ++ conn ∷ [] else listed

-- LWS_CALLBACK_CLOSED: the first entry goes, and those behind it move up.
unfoldable pub remove_connection : List ℕ → ℕ → List ℕ
remove_connection [] conn = []
remove_connection (c ∷ listed) conn =
    let rest = remove_connection listed conn in if c == conn then listed else c ∷ rest

-- The loop of papago_ws_broadcast over the listed connections, with the places of the messages: how
-- many got it, the connections and the heap; `none` is a read of unallocated memory.
unfoldable pub broadcast : List (Conn × Option ℕ) → CString → Heap → Option (ℕ × List Conn × Heap)
broadcast [] message heap = some (0, [], heap)
broadcast ((c, place) ∷ conns) message heap =
    if c.has_wsi
    then elim (enqueue c heap place message false) [
      | none ↦ none
      | some (rc, c', heap') ↦ elim (broadcast conns message heap') [
        | none ↦ none
        | some (count, rest, heap'') ↦
            some ((elim rc [ success ↦ (count + 1) % 2 ^ 16 | failure ↦ count ]), c' ∷ rest, heap'')
      ]
    ]
    else elim (broadcast conns message heap) [
      | none ↦ none
      | some (count, rest, heap') ↦ some (count, c ∷ rest, heap')
    ]
