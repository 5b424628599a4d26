-- ===== src/WsConn/Delivery.antt =====
-- What waits is delivered.
use libpapago.Prelude.{
  ℕ, ◌-◌, ◌≤◌, ◌≡◌, refl, ap, sym, ◌∙◌, Bool, false, List, [], ◌∷◌, ◌++◌, map, some, arith, All,
  length, append-nil, append_assoc,
}
use libpapago.WsConn.{Write, socket, Line, gave, step, run}
use libpapago.WsConn.Order.{InOrder, writeable-Handed}

none_left : (msgs : List (List ℕ × Bool)) → length msgs ≤ 0 → msgs ≡ []
none_left [] h = refl
none_left (m ∷ msgs) h = absurd (omega arith)

-- After a callback when libwebsockets is not busy, one message fewer waits.
step-socket :
    (l : Line) (w : Write) (i : InOrder l)
    → w.busy ≡ false
    → (l' : Line) × (i' : InOrder l') × (step l (socket w) ≡ some l')
      × (l'.accepted ≡ l.accepted)
      × (length i'.waiting ≡ length i.waiting - 1)
unfolding step
step-socket l w i idle =
    let (ok, m, c, heap, rest, e, held, split, less) =
      writeable-Handed l.conn l.heap w i.waiting i.holds in
    (
      record l { conn = c; heap = heap; handed = l.handed ++ gave m },
      record {
        waiting = rest;
        holds = held;
        in_order =
            i.in_order
            ∙ ap (λ ms. l.handed ++ ms) split
            ∙ sym (append_assoc l.handed (gave m) rest);
      },
      rw (e, step) refl,
      refl,
      less idle,
    )

-- A connection whose queue is in order, and that is called back at least as often as messages wait,
-- each time with libwebsockets not busy, has called lws_write with every payload for which a sender
-- ever got success, in the order of the calls.
pub run_delivers :
    (l : Line) (i : InOrder l) (writes : List Write)
    → All (λ (w : Write). w.busy ≡ false) writes
    → length i.waiting ≤ length writes
    → (l' : Line) × (run l (map socket writes) ≡ some l') × (l'.handed ≡ l.accepted)
unfolding run
run_delivers l i [] idle enough = (
  l,
  refl,
  sym (i.in_order ∙ ap (λ ms. l.handed ++ ms) (none_left i.waiting enough) ∙ append-nil l.handed),
)
run_delivers l i (w ∷ writes) idle enough =
    let (l1, i1, e, same, less) = step-socket l w i idle.0 in
    let (l2, f, all) = run_delivers l1 i1 writes idle.1 (omega (arith, less)) in
    (l2, rw (e, run) f, all ∙ same)
