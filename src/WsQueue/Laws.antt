-- ===== src/WsQueue/Laws.antt =====
-- The linked queue behaves as a bounded first-in first-out list of messages.
use libpapago.Prelude.{
  ℕ, ◌+◌, ◌≤◌, ◌<◌, ◌^◌, ◌≡◌, ◌≢◌, refl, ap, sym, ◌∙◌, true, false, List, [], ◌∷◌, ◌++◌, Option,
  none, some, arith, All, length, length-append, Bool-cases, inl, inr, ◌⊎◌,
}
use libpapago.Kv.{success, failure}
use libpapago.WsQueue.{
  Msg, Heap, update, Queue, max_msgs, max_bytes, add_size, sub_size, is_full, link, push, pop,
  tail_after,
}
use libpapago.WsQueue.Represents.{
  update_ne, All_last, Represents, Linked, last, len_at, len_of, last-some, Linked-last, total,
  payload, Linked-extend, last-append, Distinct-append, relink, total-relink, total-append,
}

-- A message that ws_msg_create has just made: allocated, at an address that is not queued, and linked
-- to nothing. Its length is far below the size of the address space.
pub record IsNew (heap : Heap) (ps : List ℕ) (p : ℕ) (m : Msg) : Type 0 where
  pub allocated : heap p ≡ some m
  pub alone : m.next ≡ none
  pub not_queued : All (λ q. p ≢ q) ps
  pub small : m.len < 2 ^ 63

-- Room for a message of this length behind these.
abbrev pub HasRoom : Heap → List ℕ → ℕ → Type 0
HasRoom heap ps len = (length ps < max_msgs) × (total heap ps + len ≤ max_bytes)

is_full-false :
    (q : Queue) (heap : Heap) (ps : List ℕ) (len : ℕ)
    → Represents q heap ps
    → len < 2 ^ 63
    → is_full q len ≡ false
    → HasRoom heap ps len
is_full-false q heap ps len r h e = ground (arith, r.count, r.bytes, r.bytes_bound)

is_full-true :
    (q : Queue) (heap : Heap) (ps : List ℕ) (len : ℕ)
    → Represents q heap ps
    → len < 2 ^ 63
    → is_full q len ≡ true
    → ¬ HasRoom heap ps len
is_full-true q heap ps len r h e room = ground (arith, r.count, r.bytes, r.bytes_bound)

-- What `link` does to a represented queue.
link_lem :
    (q : Queue) (heap : Heap) (ps : List ℕ) (p : ℕ) (m : Msg)
    → Represents q heap ps
    → IsNew heap ps p m
    → HasRoom heap ps m.len
    → (q' : Queue) × (heap' : Heap) × (link q heap p m.len ≡ some (q', heap'))
      × Represents q' heap' (ps ++ p ∷ [])
      × ((a : ℕ) → payload heap' a ≡ payload heap a)
      × ((a : ℕ) → All (λ b. a ≢ b) ps → heap' a ≡ heap a)
unfolding link
link_lem q heap [] p m r new room =
    let q' : Queue = record {
      send_head = some p;
      send_tail = some p;
      queue_msg_count = add_size q.queue_msg_count 1;
      queue_byte_count = add_size q.queue_byte_count m.len;
    } in
    let len : len_at heap p ≡ m.len = ap len_of new.allocated in
    (
      q',
      heap,
      rw r.ends refl,
      record {
        linked = (refl, (m, new.allocated, new.alone));
        ends = refl;
        distinct = (tt, tt);
        count = omega (arith, r.count);
        bytes = omega (arith, r.bytes, len);
        count_bound = omega arith;
        bytes_bound = omega (arith, len, room.1);
      },
      λ a. refl,
      λ a out. refl,
    )
link_lem q heap (x ∷ ps) p m r new room =
    let (t, e) = last-some x ps in
    let (mt, ht) = Linked-last heap q.send_head (x ∷ ps) t r.linked e in
    let heap' : Heap = update heap t (some (record mt { next = some p })) in
    let q' : Queue = record q {
      send_tail = some p;
      queue_msg_count = add_size q.queue_msg_count 1;
      queue_byte_count = add_size q.queue_byte_count m.len;
    } in
    let len : len_at heap p ≡ m.len = ap len_of new.allocated in
    let grown = total-relink heap t p (x ∷ ps ++ p ∷ []) mt ht ∙ total-append heap (x ∷ ps) p in
    (
      q',
      heap',
      ground (arith, r.ends, e, ht),
      record {
        linked =
            Linked-extend heap q.send_head (x ∷ ps) t p mt m r.linked e r.distinct new.not_queued ht
              new.allocated new.alone;
        ends = sym (last-append (x ∷ ps) p);
        distinct = Distinct-append (x ∷ ps) p r.distinct new.not_queued;
        count = omega (arith, r.count, r.count_bound, length-append ps (p ∷ []), room.0);
        bytes = omega (arith, r.bytes, len, grown, room.1);
        count_bound = omega (arith, length-append ps (p ∷ []), room.0);
        bytes_bound = omega (arith, len, grown, room.1);
      },
      λ a. (relink heap t p a mt ht).1,
      λ a out.
          update_ne heap t a (some (record mt { next = some p }))
            (All_last (λ b. a ≢ b) (x ∷ ps) t out e),
    )

-- Pushing a new message onto a queue that represents a list of messages never reads unallocated
-- memory. It appends the message exactly when fewer
-- than 256 messages are queued and their payloads stay within one megabyte; otherwise it fails and
-- changes nothing. No payload is changed, and only messages of the queue are.
pub push_refines :
    (q : Queue) (heap : Heap) (ps : List ℕ) (p : ℕ) (m : Msg)
    → Represents q heap ps
    → IsNew heap ps p m
    → ((q' : Queue) × (heap' : Heap) × (push q heap p ≡ some (success, q', heap'))
        × HasRoom heap ps m.len
        × Represents q' heap' (ps ++ p ∷ [])
        × ((a : ℕ) → payload heap' a ≡ payload heap a)
        × ((a : ℕ) → All (λ b. a ≢ b) ps → heap' a ≡ heap a))
      ⊎ ((push q heap p ≡ some (failure, q, heap)) × (¬ HasRoom heap ps m.len))
unfolding push
push_refines q heap ps p m r new = elim (Bool-cases (is_full q m.len)) [
  | inl e ↦ inr (ground (arith, new.allocated, e), is_full-true q heap ps m.len r new.small e)
  | inr e ↦
      let room = is_full-false q heap ps m.len r new.small e in
      let (q', heap', linked, represents, same, others) = link_lem q heap ps p m r new room in
      inl (q', heap', ground (arith, new.allocated, e, linked), room, represents, same, others)
]

pub tail_after-last :
    (heap : Heap) (start tail : Option ℕ) (p : ℕ) (rest : List ℕ)
    → Linked heap start rest
    → tail ≡ last (p ∷ rest)
    → tail_after start tail ≡ last rest
tail_after-last heap start tail p [] l e = rw l refl
tail_after-last heap start tail p (x ∷ rest) l e = rw l.0 e

-- Popping from a queue that represents a list of messages reads no unallocated memory: from an empty queue
-- it takes nothing and leaves it as it is; from any other it takes the message that was pushed first, and
-- the queue represents the others in their order, with both ends, the number of messages and that of
-- bytes as they belong to them.
pub pop_refines :
    (q : Queue) (heap : Heap) (ps : List ℕ)
    → Represents q heap ps
    → ((ps ≡ []) × (pop q heap ≡ some (none, q)))
      ⊎ ((p : ℕ) × (rest : List ℕ) × (q' : Queue) × (ps ≡ p ∷ rest)
          × (pop q heap ≡ some (some p, q'))
          × Represents q' heap rest)
unfolding pop
pop_refines q heap [] r = inl (refl, ground (arith, r.linked))
pop_refines q heap (p ∷ rest) r =
    let (m, h, linked) = r.linked.1 in
    let q' : Queue = record {
      send_head = m.next;
      send_tail = tail_after m.next q.send_tail;
      queue_msg_count = sub_size q.queue_msg_count 1;
      queue_byte_count = sub_size q.queue_byte_count m.len;
    } in
    let len : len_at heap p ≡ m.len = ap len_of h in
    inr (
      p,
      rest,
      q',
      refl,
      ground (arith, r.linked.0, h),
      record {
        linked = linked;
        ends = tail_after-last heap m.next q.send_tail p rest linked r.ends;
        distinct = r.distinct.1;
        count = omega (arith, r.count, r.count_bound);
        bytes = omega (arith, r.bytes, r.bytes_bound, len);
        count_bound = omega (arith, r.count_bound);
        bytes_bound = omega (arith, r.bytes_bound);
      },
    )
