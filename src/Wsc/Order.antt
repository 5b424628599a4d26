-- ===== src/Wsc/Order.antt =====
-- Every accepted message is handed to libwebsockets once, in the order of the calls.
use libpapago.Prelude.{
  ℕ, ◌≡◌, refl, ap, sym, ◌∙◌, Bool, true, false, List, [], ◌∷◌, ◌++◌, Option, some, append_assoc,
  Bool-cases, inl, inr, ◌&&◌,
}
use libpapago.Kv.{Status}
use libpapago.WsQueue.{Heap}
use libpapago.WsConn.{took, gave}
use libpapago.WsConn.Order.{took-append}
use libpapago.Wsc.{
  Wsc, WscConfig, connect, connects, enqueue, Event, sends_text, sends_binary, established, closed,
  connection_error, writeable, stopped, disconnected, Session, sent, step, run,
}
use libpapago.Wsc.Calls.{Queues, Sent, enqueue-Sent, flush_one-Flushed}

-- What was accepted is what was handed over, followed by what is queued.
pub record InOrder (s : Session) : Type 0 where
  pub waiting : List (List ℕ × Bool)
  pub queues : Queues s.client s.heap waiting
  pub in_order : s.accepted ≡ s.handed ++ waiting

abbrev Continues : Option Session → Type 0
Continues out = (s : Session) × (out ≡ some s) × InOrder s

sent-InOrder :
    (s : Session) (m : List ℕ × Bool) (out : Option (Status × Wsc × Heap)) (i : InOrder s)
    → Sent m i.waiting out
    → Continues (sent s m out)
unfolding sent
sent-InOrder s m out i (rc, c, heap, e, held) = (
  record s { client = c; heap = heap; accepted = took rc m s.accepted },
  rw (e, sent) refl,
  record {
    waiting = took rc m i.waiting;
    queues = held;
    in_order = ap (took rc m) i.in_order ∙ took-append rc m s.handed i.waiting;
  },
)

-- A call that leaves the queue alone.
kept-InOrder :
    (s : Session) (c : Wsc) (i : InOrder s)
    → Queues c s.heap i.waiting
    → InOrder (record s { client = c })
kept-InOrder s c i q = record { waiting = i.waiting; queues = q; in_order = i.in_order }

-- papago_wsc_connect leaves the queue alone.
connect-Queues :
    (c : Wsc) (config : WscConfig) (context connection : Bool) (heap : Heap)
    (msgs : List (List ℕ × Bool))
    → Queues c heap msgs
    → Queues (connect c config context connection).1 heap msgs
connect-Queues c config context connection heap msgs q = elim (Bool-cases (context && connection)) [
  | inl e ↦ unfold connect in rw e q
  | inr e ↦ unfold connect in rw e q
]

pub step-InOrder : (s : Session) (e : Event) → InOrder s → Continues (step s e)
unfolding step
step-InOrder s (connects config context connection) i =
    let c : Wsc = (connect s.client config context connection).1 in
    (
      record s { client = c },
      refl,
      kept-InOrder s c i
          (connect-Queues s.client config context connection s.heap i.waiting i.queues),
    )
step-InOrder s (sends_text place text) i =
    sent-InOrder s (text, false) (enqueue s.client s.heap place text false) i
      (enqueue-Sent s.client s.heap place text false i.waiting i.queues)
step-InOrder s (sends_binary place bytes) i =
    sent-InOrder s (bytes, true) (enqueue s.client s.heap place bytes true) i
      (enqueue-Sent s.client s.heap place bytes true i.waiting i.queues)
step-InOrder s established i =
    let c : Wsc = record s.client { connected = true } in
    (record s { client = c }, refl, kept-InOrder s c i i.queues)
step-InOrder s closed i = (
  record s { client = disconnected s.client },
  refl,
  kept-InOrder s (disconnected s.client) i i.queues,
)
step-InOrder s connection_error i = (
  record s { client = disconnected s.client },
  refl,
  kept-InOrder s (disconnected s.client) i i.queues,
)
step-InOrder s (writeable ok) i =
    let (m, more, c, heap, rest, e, held, split) =
      flush_one-Flushed s.client s.heap ok i.waiting i.queues in
    (
      record s { client = c; heap = heap; handed = s.handed ++ gave m },
      rw (e, step) refl,
      record {
        waiting = rest;
        queues = held;
        in_order =
            i.in_order
            ∙ ap (λ ms. s.handed ++ ms) split
            ∙ sym (append_assoc s.handed (gave m) rest);
      },
    )
step-InOrder s stopped i =
    let c : Wsc = record s.client { running = false } in
    (record s { client = c }, refl, kept-InOrder s c i i.queues)

-- Any sequence of connections, sends and callbacks on a client whose queue is in order ends, reads no unallocated
-- memory, and keeps the order: the payloads for which a sender got success are those that lws_write was
-- called with, each once and in the same order, followed by those that still wait, also over a closed
-- connection; and what waits is all that is allocated.
pub run_wsc-InOrder :
    (s : Session) (events : List Event)
    → InOrder s
    → (s' : Session) × (run s events ≡ some s') × InOrder s'
unfolding run
run_wsc-InOrder s [] i = (s, refl, i)
run_wsc-InOrder s (e ∷ events) i =
    let (s1, first, i1) = step-InOrder s e i in
    let (s2, rest, i2) = run_wsc-InOrder s1 events i1 in (s2, rw (first, run) rest, i2)
