-- ===== src/WsConn/Holds.antt =====
-- When a queue and a heap hold a list of payloads, with nothing else allocated.
use libpapago.Prelude.{
  ℕ, ◌+◌, ◌≡◌, ◌≢◌, refl, ap, ap₂, sym, ◌∙◌, Bool, append-nil, List, [], ◌∷◌, ◌++◌, Option, none,
  some, All, Bool-cases, ==_iff, ◌==◌, inl, inr, append_assoc,
}
use libpapago.WsQueue.{Msg, Heap, update, Queue}
use libpapago.WsQueue.Represents.{Represents, Linked, len_of, total, payload_of, payload, update_ne}

-- The payload of an allocated message.
abbrev pub shown : Option (List ℕ × Bool) → List (List ℕ × Bool)
shown none = []
shown (some m) = m ∷ []

-- The payloads at these addresses.
abbrev pub contents : Heap → List ℕ → List (List ℕ × Bool)
contents heap [] = []
contents heap (p ∷ ps) = shown (payload heap p) ++ contents heap ps

-- The queue represents these payloads, and every allocated message is queued.
pub record Holds (q : Queue) (heap : Heap) (msgs : List (List ℕ × Bool)) : Type 0 where
  pub addresses : List ℕ
  pub represents : Represents q heap addresses
  pub no_leak : (a : ℕ) → All (λ p. a ≢ p) addresses → heap a ≡ none
  pub payloads : contents heap addresses ≡ msgs

pub contents-same :
    (heap heap' : Heap) (ps : List ℕ)
    → ((a : ℕ) → payload heap' a ≡ payload heap a)
    → contents heap' ps ≡ contents heap ps
contents-same heap heap' [] h = refl
contents-same heap heap' (p ∷ ps) h = ap₂ ◌++◌ (ap shown (h p)) (contents-same heap heap' ps h)

pub contents-append :
    (heap : Heap) (ps : List ℕ) (p : ℕ)
    → contents heap (ps ++ p ∷ []) ≡ contents heap ps ++ shown (payload heap p)
contents-append heap [] p = append-nil (shown (payload heap p))
contents-append heap (q ∷ ps) p =
    ap (λ ms. shown (payload heap q) ++ ms) (contents-append heap ps p)
    ∙ sym (append_assoc (shown (payload heap q)) (contents heap ps) (shown (payload heap p)))

-- A free address is not queued.
pub Linked-free :
    (heap : Heap) (start : Option ℕ) (ps : List ℕ) (p : ℕ)
    → Linked heap start ps
    → heap p ≡ none
    → All (λ q. p ≢ q) ps
Linked-free heap start [] p l e = tt
Linked-free heap start (q ∷ ps) p l e =
    let (m, h, rest) = l.1 in
    (λ same. absurd (none_some m (sym e ∙ ap heap same ∙ h)), Linked-free heap m.next ps p rest e)
  where
    none_some : (m : Msg) → none ≡ some m → ⊥
    none_some m e = absurd (cc)

-- What happens at an address that is not queued does not matter.
pub Linked-update :
    (heap : Heap) (start : Option ℕ) (ps : List ℕ) (p : ℕ) (v : Option Msg)
    → Linked heap start ps
    → All (λ q. p ≢ q) ps
    → Linked (update heap p v) start ps
Linked-update heap start [] p v l f = l
Linked-update heap start (q ∷ ps) p v l f =
    let (m, h, rest) = l.1 in
    (
      l.0,
      (m, update_ne heap p q v (λ e. f.0 (sym e)) ∙ h, Linked-update heap m.next ps p v rest f.1),
    )

total-update :
    (heap : Heap) (ps : List ℕ) (p : ℕ) (v : Option Msg)
    → All (λ q. p ≢ q) ps
    → total (update heap p v) ps ≡ total heap ps
total-update heap [] p v f = refl
total-update heap (q ∷ ps) p v f =
    ap₂ ◌+◌ (ap len_of (update_ne heap p q v (λ e. f.0 (sym e)))) (total-update heap ps p v f.1)

pub contents-update :
    (heap : Heap) (ps : List ℕ) (p : ℕ) (v : Option Msg)
    → All (λ q. p ≢ q) ps
    → contents (update heap p v) ps ≡ contents heap ps
contents-update heap [] p v f = refl
contents-update heap (q ∷ ps) p v f =
    ap₂ ◌++◌ (ap (λ m. shown (payload_of m)) (update_ne heap p q v (λ e. f.0 (sym e))))
      (contents-update heap ps p v f.1)

pub Represents-update :
    (q : Queue) (heap : Heap) (ps : List ℕ) (p : ℕ) (v : Option Msg)
    → Represents q heap ps
    → All (λ a. p ≢ a) ps
    → Represents q (update heap p v) ps
Represents-update q heap ps p v r f =
    let same = total-update heap ps p v f in
    record {
      linked = Linked-update heap q.send_head ps p v r.linked f;
      ends = r.ends;
      distinct = r.distinct;
      count = r.count;
      bytes = r.bytes ∙ sym same;
      count_bound = r.count_bound;
      bytes_bound = rw same r.bytes_bound;
    }

-- A message that is allocated and freed again leaves the heap as it was, up to that address.
pub update-update :
    (heap : Heap) (p a : ℕ) (v : Option Msg)
    → heap p ≡ none
    → update (update heap p v) p none a ≡ heap a
update-update heap p a v e = elim (Bool-cases (a == p)) [
  | inl same ↦ rw same (sym e ∙ ap heap (sym ((==_iff a p).0 same)))
  | inr other ↦ rw other refl
]
