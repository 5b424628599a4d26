-- ===== src/WsConn/Enqueue.antt =====
-- A sender's call on a connection whose queue holds some payloads.
use libpapago.Prelude.{
  ℕ, ◌+◌, ◌^◌, ◌<◌, ◌≡◌, ◌≢◌, refl, ap, ap₂, ◌∙◌, Bool, true, false, not, ◌&&◌, List, [], ◌∷◌, ◌++◌,
  Option, none, some, All, Bool-cases, Option-cases, length, inl, inr,
}
use libpapago.Prelude.Text.{CString}
use libpapago.Kv.{Status, success, failure}
use libpapago.WsQueue.{Msg, Heap, update, Queue}
use libpapago.WsQueue.Represents.{Represents, payload_of, payload, update_ne, update_self}
use libpapago.WsQueue.Laws.{IsNew, push_refines}
use libpapago.WsConn.{
  Conn, acquire, release, msg_create, push_or_free, push_created, enqueue, send, send_binary, took,
}
use libpapago.WsConn.Holds.{
  shown, Holds, contents-same, contents-append, Linked-free, contents-update, Represents-update,
  update-update,
}

-- The call returns, and the queue holds what it held, and on success the new payload behind it.
abbrev pub Sent : (List ℕ × Bool) → List (List ℕ × Bool) → Option (Status × Conn × Heap) → Type 0
Sent m msgs out =
    (rc : Status) × (c : Conn) × (heap : Heap) × (out ≡ some (rc, c, heap))
    × Holds c.queue heap (took rc m msgs)

pub All-init :
    (a : ℕ) (ps : List ℕ) (p : ℕ) → All (λ q. a ≢ q) (ps ++ p ∷ []) → All (λ q. a ≢ q) ps × (a ≢ p)
All-init a [] p h = (tt, h.0)
All-init a (q ∷ ps) p h = let (rest, end) = All-init a ps p h.1 in ((h.0, rest), end)

pub payload_of-none : (m : Option Msg) → payload_of m ≡ none → m ≡ none
payload_of-none none e = refl
payload_of-none (some m) e = absurd (cc)

-- The message that ws_msg_create makes.
abbrev pub made : List ℕ → Bool → Msg
made bytes binary = record { bytes = bytes; len = length bytes; binary = binary; next = none }

module _ (c : Conn) (heap : Heap) (p : ℕ) (bytes : List ℕ) (binary : Bool)
    (msgs : List (List ℕ × Bool)) (free : heap p ≡ none) (h : Holds c.queue heap msgs) where
  abbrev heap1 : Heap
  heap1 = update heap p (some (made bytes binary))

  not_queued : All (λ a. p ≢ a) h.addresses
  not_queued = Linked-free heap c.queue.send_head h.addresses p h.represents.linked free

  made-IsNew : length bytes < 2 ^ 63 → IsNew heap1 h.addresses p (made bytes binary)
  made-IsNew small = record {
    allocated = update_self heap p (some (made bytes binary));
    alone = refl;
    not_queued = not_queued;
    small = small;
  }

  pushed-Holds :
      (q : Queue) (heap' : Heap)
      → Represents q heap' (h.addresses ++ p ∷ [])
      → ((a : ℕ) → payload heap' a ≡ payload heap1 a)
      → Holds q heap' (msgs ++ (bytes, binary) ∷ [])
  pushed-Holds q heap' r same = record {
    addresses = h.addresses ++ p ∷ [];
    represents = r;
    no_leak = λ a out.
        let (old, other) = All-init a h.addresses p out in
        payload_of-none (heap' a) (
          same a
          ∙ ap payload_of (update_ne heap p a (some (made bytes binary)) other ∙ h.no_leak a old));
    payloads =
        contents-same heap1 heap' (h.addresses ++ p ∷ []) same
        ∙ contents-append heap1 h.addresses p
        ∙ ap₂ ◌++◌
            (contents-update heap h.addresses p (some (made bytes binary)) not_queued ∙ h.payloads)
            (ap (λ (m : Option Msg). shown (payload_of m))
              (update_self heap p (some (made bytes binary))));
  }

  freed-Holds : Holds c.queue (update heap1 p none) msgs
  freed-Holds = record {
    addresses = h.addresses;
    represents =
        Represents-update c.queue heap1 h.addresses p none
          (Represents-update c.queue heap h.addresses p (some (made bytes binary)) h.represents
            not_queued)
          not_queued;
    no_leak = λ a out. update-update heap p a (some (made bytes binary)) free ∙ h.no_leak a out;
    payloads =
        contents-update heap1 h.addresses p none not_queued
        ∙ contents-update heap h.addresses p (some (made bytes binary)) not_queued
        ∙ h.payloads;
  }

  push_or_free-Sent : length bytes < 2 ^ 63 → Sent (bytes, binary) msgs (push_or_free c heap1 p)
  unfolding push_or_free
  push_or_free-Sent small =
      let v : Option Msg = some (made bytes binary) in
      elim (push_refines c.queue heap1 h.addresses p (made bytes binary)
        (Represents-update c.queue heap h.addresses p v h.represents not_queued)
        (made-IsNew small)) [
          | inl (q, heap', e, room, r, same, others) ↦ (
            success,
            record c { queue = q },
            heap',
            rw (e, push_or_free) refl,
            pushed-Holds q heap' r same,
          )
          | inr (e, full) ↦
              (failure, c, update heap1 p none, rw (e, push_or_free) refl, freed-Holds)
        ]

pub msg_create-free :
    (heap : Heap) (p : ℕ) (bytes : List ℕ) (binary : Bool)
    → heap p ≡ none
    → msg_create heap (some p) bytes binary ≡ (some p, update heap p (some (made bytes binary)))
unfolding msg_create
msg_create-free heap p bytes binary free = simp (free, msg_create)

pub msg_create-taken :
    (heap : Heap) (p : ℕ) (bytes : List ℕ) (binary : Bool) (m : Msg)
    → heap p ≡ some m
    → msg_create heap (some p) bytes binary ≡ (none, heap)
unfolding msg_create
msg_create-taken heap p bytes binary m taken = rw (taken, msg_create) refl

enqueue-Sent :
    (c : Conn) (heap : Heap) (place : Option ℕ) (bytes : List ℕ) (binary : Bool)
    (msgs : List (List ℕ × Bool))
    → Holds c.queue heap msgs
    → length bytes < 2 ^ 63
    → Sent (bytes, binary) msgs (enqueue c heap place bytes binary)
unfolding push_created msg_create
enqueue-Sent c heap none bytes binary msgs h small = (failure, c, heap, refl, h)
enqueue-Sent c heap (some p) bytes binary msgs h small = elim (Option-cases (heap p)) [
  | inl free ↦
      let (rc, c', heap', e, held) = push_or_free-Sent c heap p bytes binary msgs free h small in
      (rc, c', heap', ap (push_created c) (msg_create-free heap p bytes binary free) ∙ e, held)
  | inr (m, taken) ↦
      (failure, c, heap, ap (push_created c) (msg_create-taken heap p bytes binary m taken), h)
]

pub send_binary-Sent :
    (c : Conn) (heap : Heap) (place : Option ℕ) (bytes : List ℕ) (msgs : List (List ℕ × Bool))
    → Holds c.queue heap msgs
    → length bytes < 2 ^ 63
    → Sent (bytes, true) msgs (send_binary c heap place bytes)
unfolding send_binary
send_binary-Sent c heap place bytes msgs h small = elim (Bool-cases c.has_wsi) [
  | inl e ↦
      let (rc, c', heap', q, held) = enqueue-Sent c heap place bytes true msgs h small in
      (rc, c', heap', simp (e, q, send_binary), held)
  | inr e ↦ (failure, c, heap, rw e refl, h)
]

pub send-Sent :
    (c : Conn) (heap : Heap) (place : Option ℕ) (text : CString) (msgs : List (List ℕ × Bool))
    → Holds c.queue heap msgs
    → length text < 2 ^ 63
    → Sent (text, false) msgs (send c heap place text)
unfolding send acquire
send-Sent c heap place text msgs h small =
    elim (Bool-cases (c.has_server && (c.send_mutex_ready && not c.closing))) [
      | inl e ↦
          let c1 : Conn = record c { inflight = c.inflight + 1 } in
          let (rc, c2, heap', q, held) = enqueue-Sent c1 heap place text false msgs h small in
          (rc, release c2, heap', rw (e, q) refl, held)
      | inr e ↦ (failure, c, heap, rw e refl, h)
    ]
