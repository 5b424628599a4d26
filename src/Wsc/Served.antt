-- ===== src/Wsc/Served.antt =====
-- A client that runs and is destroyed.
use libpapago.Prelude.{
  ℕ, suc, ◌≡◌, refl, ap, sym, ◌∙◌, Bool, true, false, List, [], ◌∷◌, Option, none, some, arith,
  length, length-append, Bool-cases, inl, inr, if◌then◌else◌,
}
use libpapago.WsQueue.{Heap}
use libpapago.WsQueue.Represents.{Linked, payload_of}
use libpapago.WsConn.Holds.{shown, contents}
use libpapago.WsConn.Drain.{drain_from_lem}
use libpapago.Wsc.{Wsc, Event, Session}
use libpapago.Wsc.Order.{InOrder, run_wsc-InOrder}
use libpapago.Wsc.Service.{serve, wsc_run, wsc_destroy}

-- Each queued message has one payload.
length-contents :
    (heap : Heap) (start : Option ℕ) (ps : List ℕ)
    → Linked heap start ps
    → length (contents heap ps) ≡ length ps
length-contents heap start [] l = refl
length-contents heap start (p ∷ ps) l =
    let (m, h, rest) = l.1 in
    let one : shown (payload_of (heap p)) ≡ (m.bytes, m.binary) ∷ [] =
      ap (λ o. shown (payload_of o)) h in
    omega (
      arith,
      length-append (shown (payload_of (heap p))) (contents heap ps),
      ap length one,
      length-contents heap m.next ps rest,
    )

-- Destroying a client whose queue is in order frees everything.
abbrev pub Frees : Session → Type 0
Frees s =
    (c : Wsc) × (heap : Heap) × (wsc_destroy (suc (length s.accepted)) s.client s.heap
      ≡ some (c, heap))
    × (c.send_head ≡ none)
    × ((a : ℕ) → heap a ≡ none)

destroy-Frees : (s : Session) → InOrder s → Frees s
unfolding wsc_destroy
destroy-Frees s i =
    let q = i.queues in
    let counted = ap length i.in_order ∙ length-append s.handed i.waiting in
    let waiting =
      sym (length-contents s.heap s.client.send_head q.addresses q.linked) ∙ ap length q.payloads in
    let (heap, e, free) =
      drain_from_lem (suc (length s.accepted)) s.heap s.client.send_head q.addresses
        (omega (arith, counted, waiting)) q.linked q.distinct q.no_leak in
    (
      record s.client {
        running = false;
        has_wsi = false;
        has_context = false;
        send_head = none;
        send_tail = none;
      },
      heap,
      simp (e, wsc_destroy),
      refl,
      free,
    )

serve-InOrder :
    (s : Session) (polls : List (List Event × Bool))
    → InOrder s
    → (rc : Option ℕ) × (s' : Session) × (serve s polls ≡ some (rc, s')) × InOrder s'
unfolding serve
serve-InOrder s [] i = (if s.client.running then none else some 0, s, refl, i)
serve-InOrder s ((events, ok) ∷ polls) i =
    let (s1, ran, i1) = run_wsc-InOrder s events i in
    let (rc, s2, served, i2) = serve-InOrder s1 polls i1 in
    elim (Bool-cases s.client.running) [
      | inr e ↦ (some 0, s, simp (e, serve), i)
      | inl e ↦ elim (Bool-cases ok) [
        | inl f ↦ (rc, s2, simp (e, f, ran, served, serve), i2)
        | inr f ↦ (some 1, s1, simp (e, f, ran, serve), i1)
      ]
    ]

-- papago_wsc_run on a client whose queue is in order, whatever lws_service answers and whatever is sent,
-- received, closed or stopped meanwhile: it reads no unallocated memory and keeps the order of the
-- messages; and papago_wsc_destroy, whether the loop has ended or not, then frees every message that
-- still waits, and nothing else is allocated.
pub wsc_destroy-wsc_run :
    (s : Session) (polls : List (List Event × Bool))
    → InOrder s
    → (rc : Option ℕ) × (s' : Session) × (wsc_run s polls ≡ some (rc, s')) × InOrder s' × Frees s'
unfolding wsc_run
wsc_destroy-wsc_run s polls i =
    let started : Session = record s { client = record s.client { running = true } } in
    let (rc, s', served, i') =
      serve-InOrder started polls
        (record { waiting = i.waiting; queues = i.queues; in_order = i.in_order }) in
    elim (Bool-cases s.client.has_context) [
      | inl e ↦ (rc, s', ap chosen e ∙ served, i', destroy-Frees s' i')
      | inr e ↦ (some 1, s, ap chosen e, i, destroy-Frees s i)
    ]
  where
    chosen : Bool → Option (Option ℕ × Session)
    chosen context =
        if context
        then serve (record s { client = record s.client { running = true } }) polls
        else some (some 1, s)
