-- ===== src/WsServer/Broadcast.antt =====
-- papago_ws_broadcast puts its message at the end of the queues.
use libpapago.Prelude.{
  ℕ, ◌+◌, ◌%◌, ◌^◌, ◌<◌, ◌≡◌, ◌≢◌, ◌⊎◌, refl, sym, ◌∙◌, true, false, List, [], ◌∷◌, Option, some,
  All, arith, length, Bool-cases, inl, inr, map,
}
use libpapago.Prelude.Text.{CString}
use libpapago.Kv.{Status, success, failure}
use libpapago.WsQueue.{Msg, Heap}
use libpapago.WsConn.{Conn, took}
use libpapago.WsServer.Shared.{
  Box, IsOutside, IsBox, Owns, Linked-All, IsBox-kept, Keeps, enqueue-Enqueued,
}
use libpapago.WsServer.{broadcast}

-- How many queues got a message.
abbrev pub counted : Status → ℕ → ℕ
counted success n = n + 1
counted failure n = n

-- Each queue got the message at its end, or is as it was; a connection without a socket is left out; and
-- so many got it.
abbrev pub Delivered : CString → List Box → List Box → ℕ → Type 0
Delivered message [] [] count = count ≡ 0
Delivered message [] (b' ∷ bs') count = ⊥
Delivered message (b ∷ bs) [] count = ⊥
Delivered message (b ∷ bs) (b' ∷ bs') count =
    (rc : Status) × (rest : ℕ) × (count ≡ counted rc rest)
    × (b'.msgs ≡ took rc (message, false) b.msgs)
    × ((b.conn.has_wsi ≡ true) ⊎ (rc ≡ failure))
    × Delivered message bs bs' rest

-- Addresses that are allocated and outside stay as they are.
abbrev Stay : Heap → List Box → Heap → List Box → List ℕ → Type 0
Stay heap bs heap' bs' ps = All (λ p. heap' p ≡ heap p) ps × All (λ p. IsOutside p bs') ps

stay :
    (heap : Heap) (bs : List Box) (heap' : Heap) (bs' : List Box) (ps : List ℕ)
    → Keeps heap bs heap' bs'
    → All (λ p. (m : Msg) × (heap p ≡ some m)) ps
    → All (λ p. IsOutside p bs) ps
    → Stay heap bs heap' bs' ps
stay heap bs heap' bs' [] k al out = (tt, tt)
stay heap bs heap' bs' (p ∷ ps) k al out =
    let (m, h) = al.0 in
    let (same, outside) = k p m h out.0 in
    let (sames, outsides) = stay heap bs heap' bs' ps k al.1 out.1 in
    ((same, sames), (outside, outsides))

used : (heap : Heap) (b : Box) → IsBox heap b → All (λ p. (m : Msg) × (heap p ≡ some m)) b.addresses
used heap b i = Linked-All heap b.conn.queue.send_head b.addresses i.represents.linked

-- If the addresses of `ps` are outside of a connection, those of the connection are not in `ps`.
apart_swap :
    (ps qs : List ℕ) → All (λ p. All (λ q. p ≢ q) qs) ps → All (λ q. All (λ p. q ≢ p) ps) qs
apart_swap ps [] h = tt
apart_swap ps (q ∷ qs) h = (heads ps h, apart_swap ps qs (tails ps h))
  where
    heads : (ps : List ℕ) → All (λ p. All (λ q. p ≢ q) (q ∷ qs)) ps → All (λ p. q ≢ p) ps
    heads [] h = tt
    heads (p ∷ ps) h = ((λ e. h.0.0 (sym e)), heads ps h.1)

    tails :
        (ps : List ℕ) → All (λ p. All (λ q. p ≢ q) (q ∷ qs)) ps → All (λ p. All (λ q. p ≢ q) qs) ps
    tails [] h = tt
    tails (p ∷ ps) h = (h.0.1, tails ps h.1)

All-all {ℓ κ} : {A : Type ℓ} {P : A → Type κ} (xs : List A) → ((x : A) → P x) → All P xs
All-all [] h = tt
All-all (x ∷ xs) h = (h x, All-all xs h)

All-map {ℓ κ μ} :
    {A : Type ℓ} {P : A → Type κ} {Q : A → Type μ} (xs : List A)
    → ((x : A) → P x → Q x)
    → All P xs
    → All Q xs
All-map [] f h = tt
All-map (x ∷ xs) f h = (f x h.0, All-map xs f h.1)

IsOutside-cons :
    (c : Box) (bs : List Box) (ps : List ℕ)
    → All (λ p. All (λ q. p ≢ q) c.addresses) ps
    → All (λ p. IsOutside p bs) ps
    → All (λ p. IsOutside p (c ∷ bs)) ps
IsOutside-cons c bs [] g h = tt
IsOutside-cons c bs (p ∷ ps) g h = ((g.0, h.0), IsOutside-cons c bs ps g.1 h.1)

-- A change of one queue leaves the others alone.
others-Owns :
    (heap heap' : Heap) (b b' : Box) (bs : List Box)
    → Keeps heap (b ∷ []) heap' (b' ∷ [])
    → All (λ a. IsOutside a bs) b.addresses
    → Owns heap bs
    → Owns heap' bs × All (λ a. IsOutside a bs) b'.addresses
others-Owns heap heap' b b' [] k out o = (tt, All-all b'.addresses (λ a. tt))
others-Owns heap heap' b b' (c ∷ bs) k out o =
    let apart = apart_swap b.addresses c.addresses (All-map b.addresses (λ a h. h.0) out) in
    let (same, outside) =
      stay heap (b ∷ []) heap' (b' ∷ []) c.addresses k (used heap c o.0)
        (All-map c.addresses (λ p h. (h, tt)) apart) in
    let (rest, outs) =
      others-Owns heap heap' b b' bs k (All-map b.addresses (λ a h. h.1) out) o.2 in
    let first = apart_swap c.addresses b'.addresses (All-map c.addresses (λ p h. h.0) outside) in
    ((IsBox-kept heap heap' c same o.0, o.1, rest), IsOutside-cons c bs b'.addresses first outs)

-- The arguments of papago_ws_broadcast for these connections.
abbrev pub args : List Box → List (Conn × Option ℕ)
args bs = map (λ (b : Box). (b.conn, b.place)) bs

abbrev pub conns : List Box → List Conn
conns bs = map (λ (b : Box). b.conn) bs

abbrev pub Broadcasts : CString → Heap → List Box → Option (ℕ × List Conn × Heap) → Type 0
Broadcasts message heap bs out =
    (count : ℕ) × (bs' : List Box) × (heap' : Heap) × (out
      ≡ some (count % 2 ^ 16, conns bs', heap'))
    × Owns heap' bs'
    × Delivered message bs bs' count
    × Keeps heap bs heap' bs'

-- The rest of the loop after one connection.
broadcast-rest :
    (message : CString) (heap heap1 : Heap) (b b1 : Box) (bs : List Box) (rc : Status)
    (out : Option (ℕ × List Conn × Heap))
    → Owns heap (b ∷ bs)
    → IsBox heap1 b1
    → (b1.msgs ≡ took rc (message, false) b.msgs)
    → ((b.conn.has_wsi ≡ true) ⊎ (rc ≡ failure))
    → Keeps heap (b ∷ []) heap1 (b1 ∷ [])
    → (Owns heap1 bs → Broadcasts message heap1 bs out)
    → (count : ℕ) × (bs' : List Box) × (heap' : Heap) × (out
        ≡ some (count % 2 ^ 16, conns bs', heap'))
      × Owns heap' (b1 ∷ bs')
      × Delivered message (b ∷ bs) (b1 ∷ bs') (counted rc count)
      × Keeps heap (b ∷ bs) heap' (b1 ∷ bs')
broadcast-rest message heap heap1 b b1 bs rc out o i1 got socket k1 loop =
    let (o1, apart) = others-Owns heap heap1 b b1 bs k1 o.1 o.2 in
    let (count, bs', heap', e, o', d, k) = loop o1 in
    let (same, outside) = stay heap1 bs heap' bs' b1.addresses k (used heap1 b1 i1) apart in
    (
      count,
      bs',
      heap',
      e,
      (IsBox-kept heap1 heap' b1 same i1, outside, o'),
      (rc, count, refl, got, socket, d),
      λ a m h out.
          let (kept, away) = k1 a m h (out.0, tt) in
          let (rest, others) = k a m (kept ∙ h) out.1 in (rest ∙ kept, (away.0, others)),
    )

count_lem :
    (rc : Status) (count : ℕ)
    → elim rc [ success ↦ (count % 2 ^ 16 + 1) % 2 ^ 16 | failure ↦ count % 2 ^ 16 ]
      ≡ counted rc count % 2 ^ 16
count_lem success count = omega arith
count_lem failure count = refl

-- Connections whose queues represent their payloads in one heap and share no message, and a text of
-- fewer than 2^63 bytes: wherever the allocator puts the copies, and even if it fails, papago_ws_broadcast
-- reads no unallocated memory, puts the text at the end of the queue of each connection or leaves that
-- queue as it was, passes over connections without a socket, returns the number of queues that got it,
-- modulo 2^16,
-- and leaves the queues in order and apart, and everything else that is allocated as it was.
pub broadcast-Broadcasts :
    (message : CString) (heap : Heap) (bs : List Box)
    → length message < 2 ^ 63
    → Owns heap bs
    → Broadcasts message heap bs (broadcast (args bs) message heap)
unfolding broadcast
broadcast-Broadcasts message heap [] small o =
    (0, [], heap, refl, tt, refl, λ a m h out. (refl, tt))
broadcast-Broadcasts message heap (b ∷ bs) small o = elim (Bool-cases b.conn.has_wsi) [
  | inl e ↦
      let (rc, b1, heap1, sent, i1, got, k1) = enqueue-Enqueued b message heap small o.0 in
      let (count, bs', heap', rest, o', d, k) =
        broadcast-rest message heap heap1 b b1 bs rc (broadcast (args bs) message heap1) o i1 got
          (inl e) k1 (broadcast-Broadcasts message heap1 bs small) in
      (counted rc count, b1 ∷ bs', heap', simp (e, sent, rest, broadcast, count_lem), o', d, k)
  | inr e ↦
      let (count, bs', heap', rest, o', d, k) =
        broadcast-rest message heap heap b b bs failure (broadcast (args bs) message heap) o o.0
          refl (inr refl) (λ a m h out. (refl, out)) (broadcast-Broadcasts message heap bs small) in
      (count, b ∷ bs', heap', simp (e, rest, broadcast), o', d, k)
]
