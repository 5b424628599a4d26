-- ===== src/WsServer/Shared.antt =====
-- Connections whose queues share one heap.
use libpapago.Prelude.{
  ℕ, ◌+◌, ◌^◌, ◌<◌, ◌≡◌, ◌≢◌, refl, ap, ap₂, sym, ◌∙◌, Bool, false, List, [], ◌∷◌, ◌++◌, Option,
  none, some, All, All-append, length, Option-cases, inl, inr,
}
use libpapago.Prelude.Text.{CString}
use libpapago.Kv.{Status, success, failure}
use libpapago.WsQueue.{Msg, Heap, update}
use libpapago.WsQueue.Represents.{
  Linked, Represents, len_of, total, payload_of, update_ne, update_self,
}
use libpapago.WsQueue.Laws.{push_refines}
use libpapago.WsConn.{Conn, msg_create, push_or_free, push_created, enqueue, took}
use libpapago.WsConn.Holds.{
  shown, contents, contents-same, contents-append, contents-update, Linked-free, Represents-update,
}
use libpapago.WsConn.Enqueue.{made, msg_create-free, msg_create-taken}

-- A connection with the place where the allocator puts its next message, the addresses of its queue and
-- their payloads.
pub record Box : Type 0 where
  pub conn : Conn
  pub place : Option ℕ
  pub addresses : List ℕ
  pub msgs : List (List ℕ × Bool)

-- An address is not in use by these connections.
abbrev pub IsOutside : ℕ → List Box → Type 0
IsOutside a bs = All (λ (b : Box). All (λ p. a ≢ p) b.addresses) bs

pub record IsBox (heap : Heap) (b : Box) : Type 0 where
  pub represents : Represents b.conn.queue heap b.addresses
  pub payloads : contents heap b.addresses ≡ b.msgs

-- Each queue represents its payloads, and no message is in two queues.
abbrev pub Owns : Heap → List Box → Type 0
Owns heap [] = Unit
Owns heap (b ∷ bs) = IsBox heap b × All (λ a. IsOutside a bs) b.addresses × Owns heap bs

-- The addresses of a queue are allocated, and what is elsewhere does not matter to it.
pub Linked-All :
    (heap : Heap) (start : Option ℕ) (ps : List ℕ)
    → Linked heap start ps
    → All (λ p. (m : Msg) × (heap p ≡ some m)) ps
Linked-All heap start [] l = tt
Linked-All heap start (p ∷ ps) l =
    let (m, h, rest) = l.1 in ((m, h), Linked-All heap m.next ps rest)

Linked-same :
    (heap heap' : Heap) (start : Option ℕ) (ps : List ℕ)
    → All (λ p. heap' p ≡ heap p) ps
    → Linked heap start ps
    → Linked heap' start ps
Linked-same heap heap' start [] s l = l
Linked-same heap heap' start (p ∷ ps) s l =
    let (m, h, rest) = l.1 in (l.0, (m, s.0 ∙ h, Linked-same heap heap' m.next ps s.1 rest))

total-same :
    (heap heap' : Heap) (ps : List ℕ)
    → All (λ p. heap' p ≡ heap p) ps
    → total heap' ps ≡ total heap ps
total-same heap heap' [] s = refl
total-same heap heap' (p ∷ ps) s = ap₂ ◌+◌ (ap len_of s.0) (total-same heap heap' ps s.1)

contents-kept :
    (heap heap' : Heap) (ps : List ℕ)
    → All (λ p. heap' p ≡ heap p) ps
    → contents heap' ps ≡ contents heap ps
contents-kept heap heap' [] s = refl
contents-kept heap heap' (p ∷ ps) s =
    ap₂ ◌++◌ (ap (λ m. shown (payload_of m)) s.0) (contents-kept heap heap' ps s.1)

pub IsBox-kept :
    (heap heap' : Heap) (b : Box)
    → All (λ p. heap' p ≡ heap p) b.addresses
    → IsBox heap b
    → IsBox heap' b
IsBox-kept heap heap' b s i =
    let r = i.represents in
    let same = total-same heap heap' b.addresses s in
    record {
      represents = record {
        linked = Linked-same heap heap' b.conn.queue.send_head b.addresses s r.linked;
        ends = r.ends;
        distinct = r.distinct;
        count = r.count;
        bytes = r.bytes ∙ sym same;
        count_bound = r.count_bound;
        bytes_bound = rw same r.bytes_bound;
      };
      payloads = contents-kept heap heap' b.addresses s ∙ i.payloads;
    }

-- What is allocated and not in use by these connections stays as it is, and out of use.
abbrev pub Keeps : Heap → List Box → Heap → List Box → Type 0
Keeps heap bs heap' bs' =
    (a : ℕ) (m : Msg) → heap a ≡ some m → IsOutside a bs → (heap' a ≡ heap a) × IsOutside a bs'

-- A message for one connection: it goes to the end of its queue, or nowhere.
abbrev pub Enqueued : CString → Heap → Box → Option (Status × Conn × Heap) → Type 0
Enqueued message heap b out =
    (rc : Status) × (b' : Box) × (heap' : Heap) × (out ≡ some (rc, b'.conn, heap'))
    × IsBox heap' b'
    × (b'.msgs ≡ took rc (message, false) b.msgs)
    × Keeps heap (b ∷ []) heap' (b' ∷ [])

none_ne_some : {A : Type 0} {x : A} → none ≡ some x → ⊥
none_ne_some e = cc

module _ (b : Box) (message : CString) (heap : Heap) (small : length message < 2 ^ 63)
    (i : IsBox heap b) where
  failed : Enqueued message heap b (some (failure, b.conn, heap))
  failed = (failure, b, heap, refl, i, refl, λ a m h out. (refl, out))

  module _ (p : ℕ) (free : heap p ≡ none) where
    abbrev m1 : Msg
    m1 = made message false

    abbrev heap1 : Heap
    heap1 = update heap p (some m1)

    not_queued : All (λ a. p ≢ a) b.addresses
    not_queued = Linked-free heap b.conn.queue.send_head b.addresses p i.represents.linked free

    -- What is allocated is elsewhere.
    elsewhere : (a : ℕ) (m : Msg) → heap a ≡ some m → a ≢ p
    elsewhere a m h e = none_ne_some (sym (ap heap e ∙ free) ∙ h)

    push_or_free-Enqueued : Enqueued message heap b (push_or_free b.conn heap1 p)
    unfolding push_or_free
    push_or_free-Enqueued =
        let v : Option Msg = some m1 in
        let r1 = Represents-update b.conn.queue heap b.addresses p v i.represents not_queued in
        elim (push_refines b.conn.queue heap1 b.addresses p m1 r1 (record {
          allocated = update_self heap p v;
          alone = refl;
          not_queued = not_queued;
          small = small;
        })) [
          | inl (q, heap', e, room, r, same, others) ↦ (
            success,
            record b {
              conn = record b.conn { queue = q };
              addresses = b.addresses ++ p ∷ [];
              msgs = b.msgs ++ (message, false) ∷ [];
            },
            heap',
            rw (e, push_or_free) refl,
            record {
              represents = r;
              payloads =
                  contents-same heap1 heap' (b.addresses ++ p ∷ []) same
                  ∙ contents-append heap1 b.addresses p
                  ∙ ap₂ ◌++◌ (contents-update heap b.addresses p v not_queued ∙ i.payloads)
                      (ap (λ (m : Option Msg). shown (payload_of m)) (update_self heap p v));
            },
            refl,
            λ a m h out. (
              others a out.0 ∙ update_ne heap p a v (elsewhere a m h),
              (All-append (λ q. a ≢ q) b.addresses (p ∷ []) out.0 (elsewhere a m h, tt), tt),
            ),
          )
          | inr (e, full) ↦ (
            failure,
            b,
            update heap1 p none,
            rw (e, push_or_free) refl,
            record {
              represents = Represents-update b.conn.queue heap1 b.addresses p none r1 not_queued;
              payloads =
                  contents-update heap1 b.addresses p none not_queued
                  ∙ contents-update heap b.addresses p v not_queued
                  ∙ i.payloads;
            },
            refl,
            λ a m h out. (
              update_ne heap1 p a none (elsewhere a m h) ∙ update_ne heap p a v (elsewhere a m h),
              out,
            ),
          )
        ]

  pub enqueue-Enqueued : Enqueued message heap b (enqueue b.conn heap b.place message false)
  unfolding push_created msg_create
  enqueue-Enqueued = by_place b.place
    where
      by_place :
          (place : Option ℕ) → Enqueued message heap b (enqueue b.conn heap place message false)
      by_place none = failed
      by_place (some p) = elim (Option-cases (heap p)) [
        | inl free ↦
            let (rc, b', heap', e, box, same, keeps) = push_or_free-Enqueued p free in
            (
              rc,
              b',
              heap',
              ap (push_created b.conn) (msg_create-free heap p message false free) ∙ e,
              box,
              same,
              keeps,
            )
        | inr (m, taken) ↦ (
          failure,
          b,
          heap,
          ap (push_created b.conn) (msg_create-taken heap p message false m taken),
          i,
          refl,
          λ a m h out. (refl, out),
        )
      ]
