-- ===== src/WsQueue/Represents.antt =====
-- When a queue and a heap stand for a list of messages.
use libpapago.Prelude.{
  ℕ, ◌+◌, ◌≤◌, ◌≡◌, ◌≢◌, refl, ap, sym, ◌∙◌, Bool, false, List, [], ◌∷◌, ◌++◌, Option, none, some,
  arith, All, length, ◌==◌, Bool-cases, ==_iff, ap₂, All-append, inl, inr,
}
use mathlib.Core.Path.{subst}
use mathlib.Core.Option.{some-injective}
use libpapago.WsQueue.{Msg, Heap, update, Queue, max_msgs, max_bytes}

-- The `next` pointers lead from `start` through these addresses, in this order, to NULL.
abbrev pub Linked : Heap → Option ℕ → List ℕ → Type 0
Linked heap start [] = start ≡ none
Linked heap start (p ∷ ps) =
    (start ≡ some p) × ((m : Msg) × (heap p ≡ some m) × Linked heap m.next ps)

abbrev pub last : List ℕ → Option ℕ
last [] = none
last (p ∷ []) = some p
last (p ∷ q ∷ ps) = last (q ∷ ps)

abbrev pub Distinct : List ℕ → Type 0
Distinct [] = Unit
Distinct (p ∷ ps) = All (λ q. p ≢ q) ps × Distinct ps

abbrev pub len_of : Option Msg → ℕ
len_of none = 0
len_of (some m) = m.len

abbrev pub len_at : Heap → ℕ → ℕ
len_at heap p = len_of (heap p)

-- The payload bytes of the messages at these addresses.
abbrev pub total : Heap → List ℕ → ℕ
total heap [] = 0
total heap (p ∷ ps) = len_at heap p + total heap ps

pub record Represents (q : Queue) (heap : Heap) (ps : List ℕ) : Type 0 where
  pub linked : Linked heap q.send_head ps
  pub ends : q.send_tail ≡ last ps
  pub distinct : Distinct ps
  pub count : q.queue_msg_count ≡ length ps
  pub bytes : q.queue_byte_count ≡ total heap ps
  pub count_bound : length ps ≤ max_msgs
  pub bytes_bound : total heap ps ≤ max_bytes

pub All_last : (P : ℕ → Type 0) (ps : List ℕ) (t : ℕ) → All P ps → last ps ≡ some t → P t
All_last P [] t h e = absurd (cc)
All_last P (p ∷ []) t h e = subst P (some-injective p t e) h.0
All_last P (p ∷ q ∷ ps) t h e = All_last P (q ∷ ps) t h.1 e

pub ne_of_false : (p q : ℕ) → (p == q) ≡ false → p ≢ q
ne_of_false p q h = ground arith

pub update_ne : (heap : Heap) (p q : ℕ) (m : Option Msg) → q ≢ p → update heap p m q ≡ heap q
update_ne heap p q m h = ground arith

pub update_self : (heap : Heap) (p : ℕ) (m : Option Msg) → update heap p m p ≡ m
update_self heap p m = ground arith

-- Writing the last message's `next` extends the chain by one message.
pub Linked-extend :
    (heap : Heap) (start : Option ℕ) (ps : List ℕ) (t p : ℕ) (mt mp : Msg)
    → Linked heap start ps
    → last ps ≡ some t
    → Distinct ps
    → All (λ q. p ≢ q) ps
    → heap t ≡ some mt
    → heap p ≡ some mp
    → mp.next ≡ none
    → Linked (update heap t (some (record mt { next = some p }))) start (ps ++ p ∷ [])
Linked-extend heap start [] t p mt mp l e d f ht hp hn = absurd (cc)
Linked-extend heap start (x ∷ []) t p mt mp l e d f ht hp hn =
    let same : x ≡ t = some-injective x t e in
    (
      l.0,
      (
        record mt { next = some p },
        ap (update heap t (some (record mt { next = some p }))) same
            ∙ update_self heap t (some (record mt { next = some p })),
        (
          refl,
          (
            mp,
            update_ne heap t p (some (record mt { next = some p })) (λ z. f.0 (z ∙ sym same)) ∙ hp,
            hn,
          ),
        ),
      ),
    )
Linked-extend heap start (x ∷ y ∷ ps) t p mt mp l e d f ht hp hn =
    let (m, hm, rest) = l.1 in
    let ne : x ≢ t = All_last (λ q. x ≢ q) (y ∷ ps) t d.0 e in
    (
      l.0,
      (
        m,
        update_ne heap t x (some (record mt { next = some p })) ne ∙ hm,
        Linked-extend heap m.next (y ∷ ps) t p mt mp rest e d.1 f.1 ht hp hn,
      ),
    )

pub last-append : (ps : List ℕ) (p : ℕ) → last (ps ++ p ∷ []) ≡ some p
last-append [] p = refl
last-append (x ∷ []) p = refl
last-append (x ∷ y ∷ ps) p = last-append (y ∷ ps) p

pub Distinct-append :
    (ps : List ℕ) (p : ℕ) → Distinct ps → All (λ q. p ≢ q) ps → Distinct (ps ++ p ∷ [])
Distinct-append [] p d f = (tt, tt)
Distinct-append (x ∷ ps) p d f =
    (All-append (λ q. x ≢ q) ps (p ∷ []) d.0 ((λ e. f.0 (sym e)), tt), Distinct-append ps p d.1 f.1)

-- What a client sees of the message at an address.
abbrev pub payload_of : Option Msg → Option (List ℕ × Bool)
payload_of none = none
payload_of (some m) = some (m.bytes, m.binary)

abbrev pub payload : Heap → ℕ → Option (List ℕ × Bool)
payload heap p = payload_of (heap p)

-- Writing a `next` pointer changes no length and no payload.
pub relink :
    (heap : Heap) (t p q : ℕ) (mt : Msg)
    → heap t ≡ some mt
    → let heap' = update heap t (some (record mt { next = some p })) in
      (len_at heap' q ≡ len_at heap q) × (payload heap' q ≡ payload heap q)
relink heap t p q mt h = elim (Bool-cases (q == t)) [
  | inl e ↦
      let same : q ≡ t = (==_iff q t).0 e in
      let new : Option Msg = some (record mt { next = some p }) in
      let here : update heap t new q ≡ new = ap (update heap t new) same ∙ update_self heap t new in
      let old : heap q ≡ some mt = ap heap same ∙ h in
      (ap len_of here ∙ sym (ap len_of old), ap payload_of here ∙ sym (ap payload_of old))
  | inr e ↦
      let kept = update_ne heap t q (some (record mt { next = some p })) (ne_of_false q t e) in
      (ap len_of kept, ap payload_of kept)
]

pub total-relink :
    (heap : Heap) (t p : ℕ) (ps : List ℕ) (mt : Msg)
    → heap t ≡ some mt
    → total (update heap t (some (record mt { next = some p }))) ps ≡ total heap ps
total-relink heap t p [] mt h = refl
total-relink heap t p (q ∷ ps) mt h =
    ap₂ ◌+◌ (relink heap t p q mt h).0 (total-relink heap t p ps mt h)

pub total-append :
    (heap : Heap) (ps : List ℕ) (p : ℕ) → total heap (ps ++ p ∷ []) ≡ total heap ps + len_at heap p
total-append heap [] p = omega arith
total-append heap (q ∷ ps) p = omega (arith, total-append heap ps p)

pub last-some : (p : ℕ) (ps : List ℕ) → (t : ℕ) × (last (p ∷ ps) ≡ some t)
last-some p [] = (p, refl)
last-some p (q ∷ ps) = last-some q ps

-- The last message of a chain is allocated.
pub Linked-last :
    (heap : Heap) (start : Option ℕ) (ps : List ℕ) (t : ℕ)
    → Linked heap start ps
    → last ps ≡ some t
    → (m : Msg) × (heap t ≡ some m)
Linked-last heap start [] t l e = absurd (cc)
Linked-last heap start (p ∷ []) t l e =
    let (m, h, rest) = l.1 in (m, ap heap (sym (some-injective p t e)) ∙ h)
Linked-last heap start (p ∷ q ∷ ps) t l e =
    let (m, h, rest) = l.1 in Linked-last heap m.next (q ∷ ps) t rest e
