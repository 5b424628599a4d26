-- ===== src/WsConn.antt =====
-- papago.c, a websocket connection: papago_ws_conn_acquire, ws_conn_release, ws_msg_create,
-- ws_queue_drain_and_free, papago_ws_send, papago_ws_send_binary, and what lws_callback does when the
-- socket can be written. A run is a sequence of these calls: the queue is changed under `send_mutex`.
pub mod Holds
pub mod Enqueue
pub mod Order
pub mod Drain
pub mod Delivery
mod Tests
use libpapago.Prelude.{
  ℕ, zero, suc, ◌+◌, ◌-◌, Bool, true, false, not, ◌&&◌, ◌||◌, List, [], ◌∷◌, ◌++◌, Option, none,
  some, ltb, if◌then◌else◌, length,
}
use libpapago.Prelude.Text.{CString}
use libpapago.Kv.{Status, success, failure}
use libpapago.WsQueue.{Msg, Heap, update, Queue, max_msgs, push, pop}

-- The fields of `struct papago_ws_connection` that sending looks at; a pointer is whether it is there.
pub record Conn : Type 0 where
  pub has_wsi : Bool
  pub has_server : Bool
  pub send_mutex_ready : Bool
  pub closing : Bool
  pub inflight : ℕ
  pub queue : Queue

-- papago_ws_conn_acquire
unfoldable pub acquire : Conn → Bool × Conn
acquire c =
    if c.has_server && (c.send_mutex_ready && not c.closing)
    then (true, record c { inflight = c.inflight + 1 })
    else (false, c)

-- ws_conn_release
abbrev pub release : Conn → Conn
release c = record c { inflight = c.inflight - 1 }

-- ws_msg_create, where the allocation gives this address or fails; one that is not free counts as a
-- failure, since `malloc` never gives it.
unfoldable pub msg_create : Heap → Option ℕ → List ℕ → Bool → Option ℕ × Heap
msg_create heap none bytes binary = (none, heap)
msg_create heap (some p) bytes binary = elim (heap p) [
  | some m ↦ (none, heap)
  | none ↦ (
    some p,
    update heap p
        (some (record { bytes = bytes; len = length bytes; binary = binary; next = none })),
  )
]

-- ws_queue_push of a message that was created, which is freed if the queue is full.
unfoldable pub push_or_free : Conn → Heap → ℕ → Option (Status × Conn × Heap)
push_or_free c heap p = elim (push c.queue heap p) [
  | none ↦ none
  | some (success, q, heap') ↦ some (success, record c { queue = q }, heap')
  | some (failure, q, heap') ↦ some (failure, record c { queue = q }, update heap' p none)
]

-- What follows ws_msg_create.
unfoldable pub push_created : Conn → Option ℕ × Heap → Option (Status × Conn × Heap)
push_created c (none, heap) = some (failure, c, heap)
push_created c (some p, heap) = push_or_free c heap p

-- ws_msg_create, then ws_queue_push.
abbrev pub enqueue : Conn → Heap → Option ℕ → List ℕ → Bool → Option (Status × Conn × Heap)
enqueue c heap place bytes binary = push_created c (msg_create heap place bytes binary)

-- papago_ws_send with a connection and a message.
unfoldable pub send : Conn → Heap → Option ℕ → CString → Option (Status × Conn × Heap)
send c heap place message =
    let (ok, c') = acquire c in
    if ok
    then elim (enqueue c' heap place message false) [
      | none ↦ none
      | some (rc, c'', heap') ↦ some (rc, release c'', heap')
    ]
    else some (failure, c, heap)

-- papago_ws_send_binary with a connection and data.
unfoldable pub send_binary : Conn → Heap → Option ℕ → List ℕ → Option (Status × Conn × Heap)
send_binary c heap place bytes =
    if c.has_wsi then enqueue c heap place bytes true else some (failure, c, heap)

-- What libwebsockets answers: lws_partial_buffered before the write, lws_write, none for a negative
-- result, and lws_partial_buffered after it.
pub record Write : Type 0 where
  pub busy : Bool
  pub written : Option ℕ
  pub buffered : Bool

-- Did lws_write take a message of this length?
unfoldable pub is_taken : Write → ℕ → Bool
is_taken w len = elim w.written [ none ↦ false | some n ↦ not (ltb n len && not w.buffered) ]

-- LWS_CALLBACK_SERVER_WRITEABLE: is 0 returned, the payload that lws_write was called with, whether it
-- is binary, and what is left; `none` is a read of unallocated memory.
unfoldable pub writeable :
    Conn → Heap → Write → Option (Bool × Option (List ℕ × Bool) × Conn × Heap)
writeable c heap w = if w.busy then some (true, none, c, heap) else elim (pop c.queue heap) [
  | none ↦ none
  | some (none, q) ↦ some (true, none, record c { queue = q }, heap)
  | some (some p, q) ↦ elim (heap p) [
    | none ↦ none
    | some m ↦
        some
          (is_taken w m.len, some (m.bytes, m.binary), record c { queue = q }, update heap p none)
  ]
]

-- The loop of ws_queue_drain_and_free, on fuel; `none` is a read of unallocated memory.
unfoldable pub drain_from : ℕ → Heap → Option ℕ → Option Heap
drain_from zero heap start = none
drain_from (suc fuel) heap none = some heap
drain_from (suc fuel) heap (some p) = elim (heap p) [
  | none ↦ none
  | some m ↦ drain_from fuel (update heap p none) m.next
]

-- ws_queue_drain_and_free; a queue has at most `max_msgs` messages.
unfoldable pub drain_and_free : Conn → Heap → Option (Conn × Heap)
drain_and_free c heap =
    if c.send_mutex_ready
    then elim (drain_from (suc max_msgs) heap c.queue.send_head) [
      | none ↦ none
      | some heap' ↦
          some (record c { queue = record c.queue { send_head = none; send_tail = none } }, heap')
    ]
    else some (c, heap)

-- A call, with what the allocator or libwebsockets answers.
pub data Call : Type 0 where
  text : Option ℕ → CString → Call
  binary : Option ℕ → List ℕ → Call
  socket : Write → Call

-- The connection, with the payloads for which a sender got success and those that lws_write was called
-- with, both in the order of the calls.
pub record Line : Type 0 where
  pub conn : Conn
  pub heap : Heap
  pub accepted : List (List ℕ × Bool)
  pub handed : List (List ℕ × Bool)

-- What a sender's return code adds.
abbrev pub took : Status → (List ℕ × Bool) → List (List ℕ × Bool) → List (List ℕ × Bool)
took success m msgs = msgs ++ m ∷ []
took failure m msgs = msgs

abbrev pub gave : Option (List ℕ × Bool) → List (List ℕ × Bool)
gave none = []
gave (some m) = m ∷ []

unfoldable pub sent : Line → (List ℕ × Bool) → Option (Status × Conn × Heap) → Option Line
sent l m none = none
sent l m (some (rc, c, heap)) =
    some (record l { conn = c; heap = heap; accepted = took rc m l.accepted })

unfoldable pub step : Line → Call → Option Line
step l (text place message) = sent l (message, false) (send l.conn l.heap place message)
step l (binary place bytes) = sent l (bytes, true) (send_binary l.conn l.heap place bytes)
step l (socket w) = elim (writeable l.conn l.heap w) [
  | none ↦ none
  | some (ok, m, c, heap) ↦ some (record l { conn = c; heap = heap; handed = l.handed ++ gave m })
]

unfoldable pub run : Line → List Call → Option Line
run l [] = some l
run l (call ∷ calls) = elim (step l call) [ none ↦ none | some l' ↦ run l' calls ]
