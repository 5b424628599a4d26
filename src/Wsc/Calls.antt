-- ===== src/Wsc/Calls.antt =====
-- What a call of a sender, and a flush, do to the queue of a client.
use libpapago.Prelude.{
  ℕ, ◌≡◌, ◌≢◌, refl, ap, sym, ◌∙◌, Bool, true, false, ◌&&◌, List, [], ◌∷◌, ◌++◌, Option, none, some,
  All, Bool-cases, Option-cases, inl, inr, ◌⊎◌,
}
use mathlib.Core.Path.{subst}
use libpapago.Kv.{Status, success, failure}
use libpapago.WsQueue.{Msg, Heap, update, tail_after}
use libpapago.WsQueue.Represents.{
  Linked, Distinct, last, last-some, Linked-last, Linked-extend, relink, update_self, payload_of,
}
use libpapago.WsConn.{msg_create, took, gave}
use libpapago.WsConn.Holds.{shown, contents}
use libpapago.WsConn.Enqueue.{made, msg_create-free, msg_create-taken}
use libpapago.Wsc.{Wsc, link, link_created, enqueue, flush_one}
use libpapago.Wsc.Chain.{Chain, not_queued, appended-Chain, still-Linked, popped-Chain}

-- The client's pointers hold these payloads.
abbrev pub Queues : Wsc → Heap → List (List ℕ × Bool) → Type 0
Queues c heap msgs = Chain c.send_head c.send_tail heap msgs

-- The call returns, and the queue holds what it held, and on success the new payload behind it.
abbrev pub Sent : (List ℕ × Bool) → List (List ℕ × Bool) → Option (Status × Wsc × Heap) → Type 0
Sent m msgs out =
    (rc : Status) × (c : Wsc) × (heap : Heap) × (out ≡ some (rc, c, heap))
    × Queues c heap (took rc m msgs)

List-cases : (ps : List ℕ) → (ps ≡ []) ⊎ ((p : ℕ) × (rest : List ℕ) × (ps ≡ p ∷ rest))
List-cases [] = inl refl
List-cases (p ∷ rest) = inr (p, rest, refl)

link_lem :
    (c : Wsc) (heap : Heap) (p : ℕ) (m : Msg) (msgs : List (List ℕ × Bool))
    → heap p ≡ none
    → m.next ≡ none
    → Queues c heap msgs
    → (c' : Wsc) × (heap' : Heap) × (link c (update heap p (some m)) p ≡ some (c', heap'))
      × Queues c' heap' (msgs ++ (m.bytes, m.binary) ∷ [])
unfolding link
link_lem c heap p m msgs free alone h =
    let new : Heap = update heap p (some m) in
    elim (List-cases h.addresses) [
      | inl e ↦ (
        record c { send_head = some p; send_tail = some p },
        new,
        simp (h.ends ∙ ap last e, link),
        appended-Chain c.send_head c.send_tail heap msgs p m free alone h (some p) new
            (subst (λ ps. Linked new (some p) (ps ++ p ∷ [])) (sym e)
              (refl, (m, update_self heap p (some m), alone)))
            (λ a. refl),
      )
      | inr (x, ps, e) ↦
          let (t, et) = last-some x ps in
          let lt : last h.addresses ≡ some t = ap last e ∙ et in
          let linked = still-Linked c.send_head c.send_tail heap msgs p m free alone h in
          let (mt, ht) = Linked-last new c.send_head h.addresses t linked lt in
          (
            record c { send_tail = some p },
            update new t (some (record mt { next = some p })),
            link_tail c new p t mt (h.ends ∙ lt) ht,
            appended-Chain c.send_head c.send_tail heap msgs p m free alone h c.send_head
                (update new t (some (record mt { next = some p })))
                (Linked-extend new c.send_head h.addresses t p mt m linked lt h.distinct
                  (not_queued c.send_head c.send_tail heap msgs p m free alone h) ht
                  (update_self heap p (some m)) alone)
                (λ a. (relink new t p a mt ht).1),
          )
    ]
  where
    link_tail :
        (c : Wsc) (heap : Heap) (p t : ℕ) (mt : Msg)
        → c.send_tail ≡ some t
        → heap t ≡ some mt
        → link c heap p
          ≡ some
              (record c { send_tail = some p }, update heap t (some (record mt { next = some p })))
    link_tail c heap p t mt e f = simp (e, f, link)

link_created-Sent :
    (c : Wsc) (heap : Heap) (place : Option ℕ) (bytes : List ℕ) (binary : Bool)
    (msgs : List (List ℕ × Bool))
    → Queues c heap msgs
    → Sent (bytes, binary) msgs (link_created c (msg_create heap place bytes binary))
unfolding link_created msg_create
link_created-Sent c heap none bytes binary msgs h = (failure, c, heap, refl, h)
link_created-Sent c heap (some p) bytes binary msgs h = elim (Option-cases (heap p)) [
  | inl free ↦
      let (c', heap', e, held) = link_lem c heap p (made bytes binary) msgs free refl h in
      (
        success,
        c',
        heap',
        ap (link_created c) (msg_create-free heap p bytes binary free) ∙ rw (e, link_created) refl,
        held,
      )
  | inr (m, taken) ↦
      (failure, c, heap, ap (link_created c) (msg_create-taken heap p bytes binary m taken), h)
]

pub enqueue-Sent :
    (c : Wsc) (heap : Heap) (place : Option ℕ) (bytes : List ℕ) (binary : Bool)
    (msgs : List (List ℕ × Bool))
    → Queues c heap msgs
    → Sent (bytes, binary) msgs (enqueue c heap place bytes binary)
unfolding enqueue
enqueue-Sent c heap place bytes binary msgs h = elim (Bool-cases c.has_wsi) [
  | inl e ↦
      let (rc, c', heap', q, held) = link_created-Sent c heap place bytes binary msgs h in
      (rc, c', heap', simp (e, q, enqueue), held)
  | inr e ↦ (failure, c, heap, simp (e, enqueue), h)
]

-- The call returns, and hands over nothing, or the first payload of the queue.
abbrev pub Flushed :
    List (List ℕ × Bool) → Option (Option (List ℕ × Bool) × Bool × Wsc × Heap) → Type 0
Flushed msgs out =
    (m : Option (List ℕ × Bool)) × (more : Bool) × (c : Wsc) × (heap : Heap) × (rest : List
      (List ℕ × Bool))
    × (out ≡ some (m, more, c, heap))
    × Queues c heap rest
    × (msgs ≡ gave m ++ rest)

flush_one-first :
    (c : Wsc) (heap : Heap) (ok : Bool) (p : ℕ) (m : Msg)
    → c.has_wsi ≡ true
    → c.send_head ≡ some p
    → heap p ≡ some m
    → (more : Bool) × (flush_one c heap ok
        ≡ some (
          some (m.bytes, m.binary),
          more,
          record c { send_head = m.next; send_tail = tail_after m.next c.send_tail },
          update heap p none,
        ))
unfolding flush_one
flush_one-first c heap ok p m e f g =
    (ok && (elim m.next [ none ↦ false | some q ↦ true ]), simp (e, f, g, flush_one))

pub flush_one-Flushed :
    (c : Wsc) (heap : Heap) (ok : Bool) (msgs : List (List ℕ × Bool))
    → Queues c heap msgs
    → Flushed msgs (flush_one c heap ok)
unfolding flush_one
flush_one-Flushed c heap ok msgs h = elim (Bool-cases c.has_wsi) [
  | inr e ↦ (none, false, c, heap, msgs, simp (e, flush_one), h, refl)
  | inl e ↦ elim (List-cases h.addresses) [
    | inl nil ↦
        let head : c.send_head ≡ none = subst (Linked heap c.send_head) nil h.linked in
        (none, false, c, heap, msgs, simp (e, head, flush_one), h, refl)
    | inr (p, rest, cons) ↦
        let linked : Linked heap c.send_head (p ∷ rest) =
          subst (Linked heap c.send_head) cons h.linked in
        let (m, at, after) = linked.1 in
        let (more, q) = flush_one-first c heap ok p m e linked.0 at in
        (
          some (m.bytes, m.binary),
          more,
          record c { send_head = m.next; send_tail = tail_after m.next c.send_tail },
          update heap p none,
          contents heap rest,
          q,
          popped-Chain c.send_head c.send_tail heap p m rest at after (h.ends ∙ ap last cons)
              (subst Distinct cons h.distinct)
              (λ a out. h.no_leak a (subst (λ ps. All (λ b. a ≢ b) ps) (sym cons) out)),
          sym h.payloads
              ∙ ap (contents heap) cons
              ∙ ap (λ v. shown (payload_of v) ++ contents heap rest) at,
        )
  ]
]
