-- ===== src/Wsc.antt =====
-- papago_wsc.c, the websocket client: its configuration, its queue of messages, and the callback that
-- libwebsockets calls. A run is a sequence of these calls: the queue is changed under `send_mutex`.
pub mod Chain
pub mod Calls
pub mod Order
pub mod Service
pub mod Served
pub mod Off
pub mod Stopped
mod Tests
use libpapago.Prelude.{
  ℕ, Bool, true, false, ◌&&◌, List, [], ◌∷◌, ◌++◌, Option, none, some, ltb, if◌then◌else◌, length,
}
use libpapago.Prelude.Text.{CString, codes, truncated}
use libpapago.Kv.{Status, success, failure}
use libpapago.WsQueue.{Msg, Heap, update, tail_after}
use libpapago.WsConn.{msg_create, took, gave}

-- `papago_wsc_config_t` without the paths of the certificates.
pub record WscConfig : Type 0 where
  pub host : Option CString
  pub port : ℕ
  pub path : Option CString
  pub use_ssl : Bool
  pub allow_self_signed : Bool

-- papago_wsc_default_config
abbrev pub default_config : WscConfig
default_config = record {
  host = some (codes "127.0.0.1");
  port = 8181;
  path = some (codes "/ws");
  use_ssl = false;
  allow_self_signed = false;
}

-- `struct papago_wsc`; a pointer is whether it is there. `insecure` stands for the flags that accept any
-- certificate.
pub record Wsc : Type 0 where
  pub has_context : Bool
  pub has_wsi : Bool
  pub host : CString
  pub port : ℕ
  pub path : CString
  pub ssl : Bool
  pub insecure : Bool
  pub send_head : Option ℕ
  pub send_tail : Option ℕ
  pub running : Bool
  pub connected : Bool

-- papago_wsc_new when it succeeds.
abbrev pub wsc_new : Wsc
wsc_new = record {
  has_context = false;
  has_wsi = false;
  host = [];
  port = 0;
  path = [];
  ssl = false;
  insecure = false;
  send_head = none;
  send_tail = none;
  running = false;
  connected = false;
}

-- papago_wsc_connect, when libwebsockets makes a context and a connection or not.
unfoldable pub connect : Wsc → WscConfig → Bool → Bool → Status × Wsc
connect c config context connection =
    let copied : Wsc = record c {
      host = truncated 256 (elim config.host [ none ↦ codes "127.0.0.1" | some host ↦ host ]);
      port = if ltb 0 config.port then config.port else 8181;
      path = truncated 256 (elim config.path [ none ↦ codes "/ws" | some path ↦ path ]);
      ssl = config.use_ssl;
      insecure = config.use_ssl && config.allow_self_signed;
    } in
    if context && connection
    then (success, record copied { has_context = true; has_wsi = true })
    else (
      failure,
      record copied { has_context = false; has_wsi = if context then false else c.has_wsi },
    )

-- The message becomes the last; `none` is a read through a dangling tail pointer.
unfoldable pub link : Wsc → Heap → ℕ → Option (Wsc × Heap)
link c heap p = elim c.send_tail [
  | none ↦ some (record c { send_head = some p; send_tail = some p }, heap)
  | some t ↦ elim (heap t) [
    | none ↦ none
    | some last ↦
        some (record c { send_tail = some p }, update heap t (some (record last { next = some p })))
  ]
]

unfoldable pub link_created : Wsc → Option ℕ × Heap → Option (Status × Wsc × Heap)
link_created c (none, heap) = some (failure, c, heap)
link_created c (some p, heap) = elim (link c heap p) [
  | none ↦ none
  | some (c', heap') ↦ some (success, c', heap')
]

-- wsc_enqueue with a client and data; where the message is allocated is an argument.
unfoldable pub enqueue : Wsc → Heap → Option ℕ → List ℕ → Bool → Option (Status × Wsc × Heap)
enqueue c heap place bytes binary =
    if c.has_wsi
    then link_created c (msg_create heap place bytes binary)
    else some (failure, c, heap)

-- wsc_flush_one with a client, when lws_write takes the message or not: the payload that it was called
-- with, whether another callback is requested, and what is left; `none` is a read of unallocated memory.
unfoldable pub flush_one : Wsc → Heap → Bool → Option (Option (List ℕ × Bool) × Bool × Wsc × Heap)
flush_one c heap ok =
    if c.has_wsi
    then elim c.send_head [
      | none ↦ some (none, false, c, heap)
      | some p ↦ elim (heap p) [
        | none ↦ none
        | some m ↦
            let more : Bool = elim m.next [ none ↦ false | some q ↦ true ] in
            some (
              some (m.bytes, m.binary),
              ok && more,
              record c { send_head = m.next; send_tail = tail_after m.next c.send_tail },
              update heap p none,
            )
      ]
    ]
    else some (none, false, c, heap)

-- A call of the user or of libwebsockets, with what the allocator or lws_write answers.
pub data Event : Type 0 where
  connects : WscConfig → Bool → Bool → Event
  sends_text : Option ℕ → CString → Event
  sends_binary : Option ℕ → List ℕ → Event
  established : Event
  closed : Event
  connection_error : Event
  writeable : Bool → Event
  stopped : Event

-- The client, with the payloads for which a sender got success and those that lws_write was called
-- with, both in the order of the calls.
pub record Session : Type 0 where
  pub client : Wsc
  pub heap : Heap
  pub accepted : List (List ℕ × Bool)
  pub handed : List (List ℕ × Bool)

unfoldable pub sent : Session → (List ℕ × Bool) → Option (Status × Wsc × Heap) → Option Session
sent s m none = none
sent s m (some (rc, c, heap)) =
    some (record s { client = c; heap = heap; accepted = took rc m s.accepted })

-- LWS_CALLBACK_CLIENT_CLOSED and LWS_CALLBACK_CLIENT_CONNECTION_ERROR
abbrev pub disconnected : Wsc → Wsc
disconnected c = record c { connected = false; has_wsi = false; running = false }

-- papago_wsc_connect, papago_wsc_send, papago_wsc_send_binary, wsc_lws_callback and papago_wsc_stop.
unfoldable pub step : Session → Event → Option Session
step s (connects config context connection) =
    let (rc, c) = connect s.client config context connection in some (record s { client = c })
step s (sends_text place text) = sent s (text, false) (enqueue s.client s.heap place text false)
step s (sends_binary place bytes) = sent s (bytes, true) (enqueue s.client s.heap place bytes true)
step s established = some (record s { client = record s.client { connected = true } })
step s closed = some (record s { client = disconnected s.client })
step s connection_error = some (record s { client = disconnected s.client })
step s (writeable ok) = elim (flush_one s.client s.heap ok) [
  | none ↦ none
  | some (m, more, c, heap) ↦
      some (record s { client = c; heap = heap; handed = s.handed ++ gave m })
]
step s stopped = some (record s { client = record s.client { running = false } })

unfoldable pub run : Session → List Event → Option Session
run s [] = some s
run s (e ∷ es) = elim (step s e) [ none ↦ none | some s' ↦ run s' es ]
