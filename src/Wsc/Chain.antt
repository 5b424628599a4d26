-- ===== src/Wsc/Chain.antt =====
-- When the two pointers of a client and a heap hold a list of payloads, with nothing else allocated.
use libpapago.Prelude.{
  ℕ, ◌≡◌, ◌≢◌, ap, ap₂, sym, ◌∙◌, Bool, List, [], ◌∷◌, ◌++◌, Option, none, some, All, Bool-cases,
  inl, inr, ◌==◌, ==_iff,
}
use libpapago.WsQueue.{Msg, Heap, update, tail_after}
use libpapago.WsQueue.Represents.{
  Linked, Distinct, last, last-append, Distinct-append, payload_of, payload, update_ne, update_self,
  ne_of_false,
}
use libpapago.WsQueue.Laws.{tail_after-last}
use libpapago.WsConn.Holds.{
  shown, contents, contents-same, contents-append, contents-update, Linked-free, Linked-update,
}
use libpapago.WsConn.Enqueue.{All-init, payload_of-none}

pub record Chain (head tail : Option ℕ) (heap : Heap) (msgs : List (List ℕ × Bool)) : Type 0 where
  pub addresses : List ℕ
  pub linked : Linked heap head addresses
  pub ends : tail ≡ last addresses
  pub distinct : Distinct addresses
  pub no_leak : (a : ℕ) → All (λ p. a ≢ p) addresses → heap a ≡ none
  pub payloads : contents heap addresses ≡ msgs

-- A new message, at an address that was free.
module _ (head tail : Option ℕ) (heap : Heap) (msgs : List (List ℕ × Bool)) (p : ℕ) (m : Msg)
    (free : heap p ≡ none) (alone : m.next ≡ none) (h : Chain head tail heap msgs) where
  abbrev pub with_new : Heap
  with_new = update heap p (some m)

  pub not_queued : All (λ a. p ≢ a) h.addresses
  not_queued = Linked-free heap head h.addresses p h.linked free

  -- Chains over a heap with the payloads of the one with the new message.
  pub appended-Chain :
      (head' : Option ℕ) (heap' : Heap)
      → Linked heap' head' (h.addresses ++ p ∷ [])
      → ((a : ℕ) → payload heap' a ≡ payload with_new a)
      → Chain head' (some p) heap' (msgs ++ (m.bytes, m.binary) ∷ [])
  appended-Chain head' heap' linked same = record {
    addresses = h.addresses ++ p ∷ [];
    linked = linked;
    ends = sym (last-append h.addresses p);
    distinct = Distinct-append h.addresses p h.distinct not_queued;
    no_leak = λ a out.
        let (old, other) = All-init a h.addresses p out in
        payload_of-none (heap' a)
          (same a ∙ ap payload_of (update_ne heap p a (some m) other ∙ h.no_leak a old));
    payloads =
        contents-same with_new heap' (h.addresses ++ p ∷ []) same
        ∙ contents-append with_new h.addresses p
        ∙ ap₂ ◌++◌ (contents-update heap h.addresses p (some m) not_queued ∙ h.payloads)
            (ap (λ (v : Option Msg). shown (payload_of v)) (update_self heap p (some m)));
  }

  -- The chain in the heap with the new message, which is not linked yet.
  pub still-Linked : Linked with_new head h.addresses
  still-Linked = Linked-update heap head h.addresses p (some m) h.linked not_queued

-- The chain without its first message.
pub popped-Chain :
    (head tail : Option ℕ) (heap : Heap) (p : ℕ) (m : Msg) (rest : List ℕ)
    → heap p ≡ some m
    → Linked heap m.next rest
    → tail ≡ last (p ∷ rest)
    → Distinct (p ∷ rest)
    → ((a : ℕ) → All (λ b. a ≢ b) (p ∷ rest) → heap a ≡ none)
    → Chain m.next (tail_after m.next tail) (update heap p none) (contents heap rest)
popped-Chain head tail heap p m rest at linked ends distinct tidy = record {
  addresses = rest;
  linked = Linked-update heap m.next rest p none linked distinct.0;
  ends = tail_after-last heap m.next tail p rest linked ends;
  distinct = distinct.1;
  no_leak = λ a out. elim (Bool-cases (a == p)) [
    | inl same ↦ ap (update heap p none) ((==_iff a p).0 same) ∙ update_self heap p none
    | inr other ↦ let ne = ne_of_false a p other in update_ne heap p a none ne ∙ tidy a (ne, out)
  ];
  payloads = contents-update heap rest p none distinct.0;
}
