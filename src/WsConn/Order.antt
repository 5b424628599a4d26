-- ===== src/WsConn/Order.antt =====
-- Every accepted message is handed to libwebsockets once, in the order of the calls.
use libpapago.Prelude.{
  ℕ, ◌-◌, ◌^◌, ◌<◌, ◌≡◌, ◌≢◌, refl, ap, sym, ◌∙◌, Bool, true, false, List, [], ◌∷◌, ◌++◌, Option,
  none, some, arith, All, Bool-cases, length, append_assoc, inl, inr, ◌==◌, ==_iff,
}
use mathlib.Core.Path.{subst}
use libpapago.Kv.{Status, success, failure}
use libpapago.WsQueue.{Msg, Heap, update, Queue, pop}
use libpapago.WsQueue.Represents.{Represents, payload_of, update_ne, update_self, ne_of_false}
use libpapago.WsQueue.Laws.{pop_refines}
use libpapago.WsConn.{
  Conn, Write, is_taken, writeable, Call, text, binary, socket, Line, took, gave, sent, step, run,
}
use libpapago.WsConn.Holds.{shown, contents, Holds, contents-update, Represents-update}
use libpapago.WsConn.Enqueue.{Sent, send-Sent, send_binary-Sent}

-- The call returns, and hands over nothing, or the first payload of the queue; it does so when
-- libwebsockets is not busy and there is one.
abbrev pub Handed :
    Write → List (List ℕ × Bool) → Option (Bool × Option (List ℕ × Bool) × Conn × Heap) → Type 0
Handed w msgs out =
    (ok : Bool) × (m : Option (List ℕ × Bool)) × (c : Conn) × (heap : Heap) × (rest : List
      (List ℕ × Bool))
    × (out ≡ some (ok, m, c, heap))
    × Holds c.queue heap rest
    × (msgs ≡ gave m ++ rest)
    × (w.busy ≡ false → length rest ≡ length msgs - 1)

-- The heap without the first message.
popped-Holds :
    (q q' : Queue) (heap : Heap) (p : ℕ) (rest : List ℕ)
    → Represents q heap (p ∷ rest)
    → ((a : ℕ) → All (λ b. a ≢ b) (p ∷ rest) → heap a ≡ none)
    → Represents q' heap rest
    → Holds q' (update heap p none) (contents heap rest)
popped-Holds q q' heap p rest r tidy r' = record {
  addresses = rest;
  represents = Represents-update q' heap rest p none r' r.distinct.0;
  no_leak = λ a out. elim (Bool-cases (a == p)) [
    | inl same ↦ ap (update heap p none) ((==_iff a p).0 same) ∙ update_self heap p none
    | inr other ↦ let ne = ne_of_false a p other in update_ne heap p a none ne ∙ tidy a (ne, out)
  ];
  payloads = contents-update heap rest p none r.distinct.0;
}

writeable-popped :
    (c : Conn) (heap : Heap) (w : Write) (p : ℕ) (q : Queue) (m : Msg)
    → w.busy ≡ false
    → pop c.queue heap ≡ some (some p, q)
    → heap p ≡ some m
    → writeable c heap w
      ≡ some
          (is_taken w m.len, some (m.bytes, m.binary), record c { queue = q }, update heap p none)
unfolding writeable
writeable-popped c heap w p q m e f g = simp (e, f, g, writeable)

pub writeable-Handed :
    (c : Conn) (heap : Heap) (w : Write) (msgs : List (List ℕ × Bool))
    → Holds c.queue heap msgs
    → Handed w msgs (writeable c heap w)
unfolding writeable
writeable-Handed c heap w msgs h = elim (Bool-cases w.busy) [
  | inl e ↦ (true, none, c, heap, msgs, simp (e, writeable), h, refl, λ f. absurd (cc))
  | inr e ↦ elim (pop_refines c.queue heap h.addresses h.represents) [
    | inl (nil, f) ↦
        let none_left : length msgs ≡ 0 = ap length (sym h.payloads ∙ ap (contents heap) nil) in
        (true, none, c, heap, msgs, simp (e, f, writeable), h, refl, λ z. omega (arith, none_left))
    | inr (p, rest, q, cons, f, r) ↦
        let r0 : Represents c.queue heap (p ∷ rest) =
          subst (Represents c.queue heap) cons h.represents in
        let (m, g, linked) = r0.linked.1 in
        let split : msgs ≡ (m.bytes, m.binary) ∷ contents heap rest =
          sym h.payloads
          ∙ ap (contents heap) cons
          ∙ ap (λ v. shown (payload_of v) ++ contents heap rest) g in
        (
          is_taken w m.len,
          some (m.bytes, m.binary),
          record c { queue = q },
          update heap p none,
          contents heap rest,
          writeable-popped c heap w p q m e f g,
          popped-Holds c.queue q heap p rest r0
              (λ a out. h.no_leak a (subst (λ ps. All (λ b. a ≢ b) ps) (sym cons) out)) r,
          split,
          λ z. omega (arith, ap length split),
        )
  ]
]

-- What was accepted is what was handed over, followed by what is queued.
pub record InOrder (l : Line) : Type 0 where
  pub waiting : List (List ℕ × Bool)
  pub holds : Holds l.conn.queue l.heap waiting
  pub in_order : l.accepted ≡ l.handed ++ waiting

-- Payloads whose length is far below the size of the address space.
abbrev pub IsSmall : Call → Type 0
IsSmall (text place message) = length message < 2 ^ 63
IsSmall (binary place bytes) = length bytes < 2 ^ 63
IsSmall (socket w) = Unit

abbrev Continues : Option Line → Type 0
Continues out = (l : Line) × (out ≡ some l) × InOrder l

pub took-append :
    (rc : Status) (m : List ℕ × Bool) (before after : List (List ℕ × Bool))
    → took rc m (before ++ after) ≡ before ++ took rc m after
took-append success m before after = append_assoc before after (m ∷ [])
took-append failure m before after = refl

sent-InOrder :
    (l : Line) (m : List ℕ × Bool) (out : Option (Status × Conn × Heap)) (i : InOrder l)
    → Sent m i.waiting out
    → Continues (sent l m out)
unfolding sent
sent-InOrder l m out i (rc, c, heap, e, held) = (
  record l { conn = c; heap = heap; accepted = took rc m l.accepted },
  rw (e, sent) refl,
  record {
    waiting = took rc m i.waiting;
    holds = held;
    in_order = ap (took rc m) i.in_order ∙ took-append rc m l.handed i.waiting;
  },
)

step-InOrder : (l : Line) (call : Call) → InOrder l → IsSmall call → Continues (step l call)
unfolding step
step-InOrder l (text place message) i small =
    sent-InOrder l (message, false) (libpapago.WsConn.send l.conn l.heap place message) i
      (send-Sent l.conn l.heap place message i.waiting i.holds small)
step-InOrder l (binary place bytes) i small =
    sent-InOrder l (bytes, true) (libpapago.WsConn.send_binary l.conn l.heap place bytes) i
      (send_binary-Sent l.conn l.heap place bytes i.waiting i.holds small)
step-InOrder l (socket w) i small =
    let (ok, m, c, heap, rest, e, held, split, less) =
      writeable-Handed l.conn l.heap w i.waiting i.holds in
    (
      record l { conn = c; heap = heap; handed = l.handed ++ gave m },
      rw (e, step) refl,
      record {
        waiting = rest;
        holds = held;
        in_order =
            i.in_order
            ∙ ap (λ ms. l.handed ++ ms) split
            ∙ sym (append_assoc l.handed (gave m) rest);
      },
    )

-- Any sequence of sends and of callbacks on a connection whose queue is in order ends, reads no
-- unallocated memory, and keeps the order: the payloads for which a sender got success are those that
-- lws_write was called with, each once and in the same order, followed by those that still wait; and
-- what waits is all that is allocated. Payloads are shorter than 2^63 bytes.
pub run-InOrder :
    (l : Line) (calls : List Call)
    → InOrder l
    → All IsSmall calls
    → (l' : Line) × (run l calls ≡ some l') × InOrder l'
unfolding run
run-InOrder l [] i small = (l, refl, i)
run-InOrder l (call ∷ calls) i small =
    let (l1, e, i1) = step-InOrder l call i small.0 in
    let (l2, f, i2) = run-InOrder l1 calls i1 small.1 in (l2, rw (e, run) f, i2)
