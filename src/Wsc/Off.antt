-- ===== src/Wsc/Off.antt =====
-- No call starts a client that is not running.
use libpapago.Prelude.{
  ℕ, ◌≡◌, refl, ◌∙◌, Bool, true, false, ◌&&◌, List, Option, none, some, Bool-cases, Option-cases,
  inl, inr,
}
use mathlib.Core.Path.{subst}
use mathlib.Core.Option
use mathlib.Core.Option.{some-injective}
use libpapago.Kv.{Status}
use libpapago.WsQueue.{Heap}
use libpapago.WsConn.{msg_create}
use libpapago.Wsc.{
  Wsc, connect, link, link_created, enqueue, flush_one, Event, connects, sends_text, sends_binary,
  established, closed, connection_error, writeable, stopped, Session, sent, step,
}

-- What a call does to the client: it does not start it.
abbrev Rests : Wsc → Option Wsc → Type 0
Rests c none = Unit
Rests c (some c') = c'.running ≡ c.running

link-Rests :
    (c : Wsc) (heap : Heap) (p : ℕ) → Rests c (Option.map (λ (o : Wsc × Heap). o.0) (link c heap p))
unfolding link
link-Rests c heap p = elim (Option-cases c.send_tail) [
  | inl e ↦ rw (e, link) refl
  | inr (t, e) ↦ elim (Option-cases (heap t)) [
    | inl f ↦ rw (e, f, link) tt
    | inr (m, f) ↦ rw (e, f, link) refl
  ]
]

abbrev client_of : Status × Wsc × Heap → Wsc
client_of x = x.1

link_created-Rests :
    (c : Wsc) (o : Option ℕ × Heap) → Rests c (Option.map client_of (link_created c o))
unfolding link_created
link_created-Rests c (none, heap) = refl
link_created-Rests c (some p, heap) = elim (Option-cases (link c heap p)) [
  | inl e ↦ rw (e, link_created) tt
  | inr ((c', heap'), e) ↦
      let kept : c'.running ≡ c.running =
        subst (λ o. Rests c (Option.map (λ (x : Wsc × Heap). x.0) o)) e (link-Rests c heap p) in
      rw (e, link_created) kept
]

enqueue-Rests :
    (c : Wsc) (heap : Heap) (place : Option ℕ) (bytes : List ℕ) (binary : Bool)
    → Rests c (Option.map client_of (enqueue c heap place bytes binary))
unfolding enqueue
enqueue-Rests c heap place bytes binary = elim (Bool-cases c.has_wsi) [
  | inl e ↦ simp (e, enqueue) (link_created-Rests c (msg_create heap place bytes binary))
  | inr e ↦ simp (e, enqueue) refl
]

-- The client of a session is not running.
abbrev pub IsOff : Option Session → Type 0
IsOff none = Unit
IsOff (some s) = s.client.running ≡ false

sent-IsOff :
    (s : Session) (m : List ℕ × Bool) (out : Option (Status × Wsc × Heap))
    → s.client.running ≡ false
    → Rests s.client (Option.map client_of out)
    → IsOff (sent s m out)
unfolding sent
sent-IsOff s m none off r = tt
sent-IsOff s m (some (rc, c, heap)) off r = r ∙ off

flush_one-IsOff :
    (s : Session) (ok : Bool) → s.client.running ≡ false → IsOff (step s (writeable ok))
unfolding step flush_one
flush_one-IsOff s ok off = elim (Bool-cases s.client.has_wsi) [
  | inr e ↦ simp (e, step, flush_one) off
  | inl e ↦ elim (Option-cases s.client.send_head) [
    | inl f ↦ simp (e, f, step, flush_one) off
    | inr (p, f) ↦ elim (Option-cases (s.heap p)) [
      | inl g ↦ simp (e, f, g, step, flush_one) tt
      | inr (m, g) ↦ simp (e, f, g, step, flush_one) off
    ]
  ]
]

pub step-IsOff : (s : Session) (e : Event) → s.client.running ≡ false → IsOff (step s e)
unfolding step
step-IsOff s (connects config context connection) off = elim (Bool-cases (context && connection)) [
  | inl e ↦ unfold connect in (rw (e, connect) off)
  | inr e ↦ unfold connect in (rw (e, connect) off)
]
step-IsOff s (sends_text place text) off =
    sent-IsOff s (text, false) (enqueue s.client s.heap place text false) off
      (enqueue-Rests s.client s.heap place text false)
step-IsOff s (sends_binary place bytes) off =
    sent-IsOff s (bytes, true) (enqueue s.client s.heap place bytes true) off
      (enqueue-Rests s.client s.heap place bytes true)
step-IsOff s established off = off
step-IsOff s closed off = refl
step-IsOff s connection_error off = refl
step-IsOff s (writeable ok) off = flush_one-IsOff s ok off
step-IsOff s stopped off = refl
