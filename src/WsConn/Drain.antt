-- ===== src/WsConn/Drain.antt =====
-- Closing a connection frees what still waits.
use libpapago.Prelude.{
  ℕ, zero, suc, ◌≡◌, ◌≢◌, ◌<◌, refl, ap, ◌∙◌, true, List, [], ◌∷◌, Option, none, some, arith, All,
  Bool-cases, length, inl, inr, ◌==◌, ==_iff,
}
use libpapago.WsQueue.{Msg, Heap, update, max_msgs}
use libpapago.WsQueue.Represents.{Linked, Distinct, update_ne, update_self, ne_of_false}
use libpapago.WsConn.{Conn, Line, drain_from, drain_and_free}
use libpapago.WsConn.Holds.{Linked-update}
use libpapago.WsConn.Order.{InOrder}

drain_from-step :
    (fuel : ℕ) (heap : Heap) (p : ℕ) (m : Msg)
    → heap p ≡ some m
    → drain_from (suc fuel) heap (some p) ≡ drain_from fuel (update heap p none) m.next
unfolding drain_from
drain_from-step fuel heap p m e =
    let c : drain_from (suc fuel) heap (some p) ≡ drain_from fuel (update heap p none) m.next =
      simp (e, drain_from) in
    c

-- Fuel for more than the messages of a chain frees them all.
pub drain_from_lem :
    (fuel : ℕ) (heap : Heap) (start : Option ℕ) (ps : List ℕ)
    → length ps < fuel
    → Linked heap start ps
    → Distinct ps
    → ((a : ℕ) → All (λ p. a ≢ p) ps → heap a ≡ none)
    → (heap' : Heap) × (drain_from fuel heap start ≡ some heap') × ((a : ℕ) → heap' a ≡ none)
unfolding drain_from
drain_from_lem zero heap start ps small l d tidy = absurd (omega arith)
drain_from_lem (suc fuel) heap start [] small l d tidy =
    (heap, rw (l, drain_from) refl, λ a. tidy a tt)
drain_from_lem (suc fuel) heap start (p ∷ ps) small l d tidy =
    let (m, h, rest) = l.1 in
    let (heap', e, free) =
      drain_from_lem fuel (update heap p none) m.next ps (omega arith)
        (Linked-update heap m.next ps p none rest d.0) d.1
        (λ a out. elim (Bool-cases (a == p)) [
          | inl same ↦ ap (update heap p none) ((==_iff a p).0 same) ∙ update_self heap p none
          | inr other ↦
              let ne = ne_of_false a p other in update_ne heap p a none ne ∙ tidy a (ne, out)
        ]) in
    (heap', ap (drain_from (suc fuel) heap) l.0 ∙ drain_from-step fuel heap p m h ∙ e, free)

-- ws_queue_drain_and_free on a connection that is set up and whose queue is in order, as every run
-- leaves it: it ends, reads no message that was freed, and no message is allocated behind it.
pub drain_and_free_lem :
    (l : Line)
    → InOrder l
    → l.conn.send_mutex_ready ≡ true
    → (c : Conn) × (heap : Heap) × (drain_and_free l.conn l.heap ≡ some (c, heap))
      × (c.queue.send_head ≡ none)
      × ((a : ℕ) → heap a ≡ none)
unfolding drain_and_free
drain_and_free_lem l i ready =
    let r = i.holds.represents in
    let (heap', e, free) =
      drain_from_lem (suc max_msgs) l.heap l.conn.queue.send_head i.holds.addresses
        (omega (arith, r.count_bound)) r.linked r.distinct i.holds.no_leak in
    let c : Conn = record l.conn {
      queue = record l.conn.queue { send_head = none; send_tail = none };
    } in
    (c, heap', simp (ready, e, drain_and_free), refl, free)
