-- ===== src/WsQueue.antt =====
-- papago.c, the queue of outgoing messages of a websocket connection: ws_queue_push, ws_queue_pop and
-- ws_queue_has_more. Messages are linked by `next` pointers, so the heap
-- is explicit: an address has a message or nothing. Each function runs under `send_mutex`.
pub mod Represents
pub mod Laws
mod Tests
use libpapago.Prelude.{
  ℕ, ◌+◌, ◌-◌, ◌*◌, ◌%◌, ◌^◌, Bool, true, false, ◌||◌, List, [], ◌∷◌, Option, none, some, ltb, leb,
  ◌==◌, if◌then◌else◌,
}
use libpapago.Kv.{Status, success, failure}

-- `papago_ws_msg_t`; `bytes` is the payload behind the LWS_PRE bytes of headroom.
pub record Msg : Type 0 where
  pub bytes : List ℕ
  pub len : ℕ
  pub binary : Bool
  pub next : Option ℕ

-- What is allocated at each address.
abbrev pub Heap : Type 0
Heap = ℕ → Option Msg

abbrev pub update : Heap → ℕ → Option Msg → Heap
update heap p m q = if q == p then m else heap q

-- The fields of `struct papago_ws_connection` that make up the queue.
pub record Queue : Type 0 where
  pub send_head : Option ℕ
  pub send_tail : Option ℕ
  pub queue_msg_count : ℕ
  pub queue_byte_count : ℕ

abbrev pub empty : Queue
empty = record { send_head = none; send_tail = none; queue_msg_count = 0; queue_byte_count = 0 }

-- WS_MAX_QUEUE_MSGS and WS_MAX_QUEUE_BYTES
abbrev pub max_msgs : ℕ
max_msgs = 256

abbrev pub max_bytes : ℕ
max_bytes = 1024 * 1024

-- Addition and subtraction of `size_t`.
abbrev pub add_size : ℕ → ℕ → ℕ
add_size a b = (a + b) % 2 ^ 64

abbrev pub sub_size : ℕ → ℕ → ℕ
sub_size a b = (a + 2 ^ 64 - b) % 2 ^ 64

-- The queue is full for a message of this length.
abbrev pub is_full : Queue → ℕ → Bool
is_full q len = leb max_msgs q.queue_msg_count || ltb max_bytes (add_size q.queue_byte_count len)

-- `msg` becomes the last message; `none` is a read through a dangling tail pointer.
unfoldable pub link : Queue → Heap → ℕ → ℕ → Option (Queue × Heap)
link q heap p len =
    let count = add_size q.queue_msg_count 1 in
    let total = add_size q.queue_byte_count len in
    elim q.send_tail [
      | none ↦ some (
        record {
          send_head = some p;
          send_tail = some p;
          queue_msg_count = count;
          queue_byte_count = total;
        },
        heap,
      )
      | some t ↦ elim (heap t) [
        | none ↦ none
        | some last ↦ some (
          record q { send_tail = some p; queue_msg_count = count; queue_byte_count = total },
          update heap t (some (record last { next = some p })),
        )
      ]
    ]

-- ws_queue_push with a message at address `p`; `none` is a read of unallocated memory.
unfoldable pub push : Queue → Heap → ℕ → Option (Status × Queue × Heap)
push q heap p = elim (heap p) [
  | none ↦ none
  | some msg ↦ elim (is_full q msg.len) [
    | true ↦ some (failure, q, heap)
    | false ↦ elim (link q heap p msg.len) [
      | none ↦ none
      | some (q', heap') ↦ some (success, q', heap')
    ]
  ]
]

-- `send_tail` becomes NULL with `send_head`.
abbrev pub tail_after : Option ℕ → Option ℕ → Option ℕ
tail_after none tail = none
tail_after (some head) tail = tail

-- ws_queue_pop: the message's address, if there is one, and the queue.
unfoldable pub pop : Queue → Heap → Option (Option ℕ × Queue)
pop q heap = elim q.send_head [
  | none ↦ some (none, q)
  | some p ↦ elim (heap p) [
    | none ↦ none
    | some msg ↦ some (
      some p,
      record {
        send_head = msg.next;
        send_tail = tail_after msg.next q.send_tail;
        queue_msg_count = sub_size q.queue_msg_count 1;
        queue_byte_count = sub_size q.queue_byte_count msg.len;
      },
    )
  ]
]

-- ws_queue_has_more
unfoldable pub has_more : Queue → Bool
has_more q = elim q.send_head [ none ↦ false | some p ↦ true ]
