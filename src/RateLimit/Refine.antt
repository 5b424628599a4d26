-- ===== src/RateLimit/Refine.antt =====
-- Counting a request, as a step on the map from clients to counts.
use libpapago.Prelude.{
  ℕ, suc, ◌<◌, ◌≡◌, ap, sym, ◌∙◌, Bool, true, false, not, List, [], ◌∷◌, none, some, arith, ltb,
  set, if◌then◌else◌, is_none, Bool-cases, Option-cases, inl, inr,
}
use mathlib.Core.Option
use mathlib.Core.Option.{some-injective}
use libpapago.Prelude.Text.{CString, str_eq, str_eq_iff}
use libpapago.RateLimit.{Entry, Limits, cleared, next_count, scan, new_entry, count_request, settle}
use libpapago.RateLimit.Table.{
  is_live, live, has_slot, live-dead, live-head, scan-dead, scan-other, scan-found, scan-entries,
}
use libpapago.RateLimit.Slots.{
  counted, is_over, IsAddress, new_entry-ip, new_entry-is_live, slot-has_slot, first-client,
  other-client,
}

-- Writing the new entry into the slot gives the client the count 1 and the others what they had.
slot-live :
    (l : Limits) (client j : CString) (entries : List Entry) (k : ℕ)
    → IsAddress client
    → 0 < l.window
    → live l client entries ≡ none
    → (scan l client entries).slot ≡ some k
    → live l j (set (scan l client entries).entries k (new_entry l client))
      ≡ (if str_eq client j then some 1 else live l j entries)
slot-live l client j [] k a w h s = absurd (unfold scan in cc)
slot-live l client j (e ∷ es) k a w h s = elim (Bool-cases (is_live l e)) [
  | inl p ↦ elim (Bool-cases (str_eq e.ip client)) [
    | inl same ↦ absurd (ground (arith, live-head l client e es p))
    | inr other ↦
        let q : live l client es ≡ none = ground (arith, live-head l client e es p) in
        elim (Option-cases (scan l client es).slot) [
          | inl n ↦ absurd (ground (arith, s, scan-other l client e es p other))
          | inr (i, n) ↦
              let r : suc i ≡ k = some-injective _ _ (
                sym (ap (Option.map suc) n)
                ∙ sym (ap (λ t. t.slot) (scan-other l client e es p other))
                ∙ s) in
              let v = live-head l j e (set (scan l client es).entries i (new_entry l client)) p in
              let o = slot-live l client j es i a w q n in
              let x =
                ap (λ t. live l j (set t k (new_entry l client)))
                  (ap (λ t. t.entries) (scan-other l client e es p other))
                ∙ ap (λ m. live l j (set (e ∷ (scan l client es).entries) m (new_entry l client)))
                    (sym r) in
              let y = live-head l j e es p in rw (x, v, y, o) (other-client l client j e es other)
        ]
  ]
  | inr p ↦
      let q : live l client es ≡ none = sym (live-dead l client e es p) ∙ h in
      let r : 0 ≡ k = some-injective _ _ (sym (ap (λ t. t.slot) (scan-dead l client e es p)) ∙ s) in
      let u =
        live-head l j (new_entry l client) (scan l client es).entries
          (new_entry-is_live l client a w) in
      let x =
        ap (λ t. live l j (set t k (new_entry l client)))
          (ap (λ t. t.entries) (scan-dead l client e es p))
        ∙ ap (λ m. live l j (set (cleared e ∷ (scan l client es).entries) m (new_entry l client)))
            (sym r) in
      let y = scan-entries l client j es in
      let z = live-dead l j e es p in
      rw (x, u, z, y, new_entry-ip l client a) (first-client l client j es)
]

count_request-found :
    (l : Limits) (client : CString) (entries : List Entry) (c : ℕ)
    → live l client entries ≡ some c
    → count_request l client entries
      ≡ (ltb l.requests (next_count c), (scan l client entries).entries)
unfolding count_request settle
count_request-found l client entries c h = rw (scan-found l client entries, h)

count_request-slot :
    (l : Limits) (client : CString) (entries : List Entry) (k : ℕ)
    → live l client entries ≡ none
    → (scan l client entries).slot ≡ some k
    → count_request l client entries
      ≡ (false, set (scan l client entries).entries k (new_entry l client))
unfolding count_request settle
count_request-slot l client entries k h s = rw (scan-found l client entries, h, s)

count_request-full :
    (l : Limits) (client : CString) (entries : List Entry)
    → live l client entries ≡ none
    → (scan l client entries).slot ≡ none
    → count_request l client entries ≡ (false, (scan l client entries).entries)
unfolding count_request settle
count_request-full l client entries h s = rw (scan-found l client entries, h, s)

pub counted-found :
    (l : Limits) (client : CString) (entries : List Entry) (c : ℕ) (j : CString)
    → live l client entries ≡ some c
    → counted l client entries j
      ≡ (if str_eq client j then Option.map next_count (live l j entries) else live l j entries)
unfolding counted
counted-found l client entries c j h = elim (Bool-cases (str_eq client j)) [
  | inl p ↦ let e : client ≡ j = (str_eq_iff client j).0 p in rw (p, sym e, h)
  | inr p ↦ rw p
]

pub counted-none :
    (l : Limits) (client : CString) (entries : List Entry) (j : CString)
    → live l client entries ≡ none
    → counted l client entries j ≡ (
        if str_eq client j then (if has_slot l entries then some 1 else none) else live l j entries)
unfolding counted
counted-none l client entries j h = rw h

not-unless : (b c : Bool) → b ≡ not c → b ≡ true → c ≡ false
not-unless b c h p = ground arith

not-when : (b c : Bool) → b ≡ not c → b ≡ false → c ≡ true
not-when b c h p = ground arith

no_slot :
    (l : Limits) (client j : CString) (es : List Entry)
    → live l client es ≡ none
    → (if str_eq client j then Option.map next_count (live l j es) else live l j es)
      ≡ (if str_eq client j then none else live l j es)
no_slot l client j es h = elim (Bool-cases (str_eq client j)) [
  | inl p ↦ let e : client ≡ j = (str_eq_iff client j).0 p in rw (p, sym e, h)
  | inr p ↦ rw p
]

count_request-live :
    (l : Limits) (client : CString) (entries : List Entry)
    → IsAddress client
    → 0 < l.window
    → (j : CString) → live l j (count_request l client entries).1 ≡ counted l client entries j
count_request-live l client entries a w j = elim (Option-cases (live l client entries)) [
  | inl h ↦ elim (Option-cases (scan l client entries).slot) [
    | inl s ↦
        let n : has_slot l entries ≡ false =
          not-unless _ _ (slot-has_slot l client entries h) (ap is_none s) in
        rw
          (
            count_request-full l client entries h s,
            counted-none l client entries j h,
            n,
            scan-entries l client j entries,
          )
          (no_slot l client j entries h)
    | inr (k, s) ↦
        let n : has_slot l entries ≡ true =
          not-when _ _ (slot-has_slot l client entries h) (ap is_none s) in
        rw (count_request-slot l client entries k h s, counted-none l client entries j h, n)
          (slot-live l client j entries k a w h s)
  ]
  | inr (c, h) ↦
      rw (count_request-found l client entries c h, counted-found l client entries c j h)
        (scan-entries l client j entries)
]

count_request-refused :
    (l : Limits) (client : CString) (entries : List Entry)
    → (count_request l client entries).0 ≡ is_over l (Option.map next_count (live l client entries))
unfolding is_over
count_request-refused l client entries = elim (Option-cases (live l client entries)) [
  | inl h ↦ elim (Option-cases (scan l client entries).slot) [
    | inl s ↦ rw (count_request-full l client entries h s, h)
    | inr (k, s) ↦ rw (count_request-slot l client entries k h s, h)
  ]
  | inr (c, h) ↦ rw (count_request-found l client entries c h, h)
]

-- For a client whose address is not empty and fits an entry, and a window that is not 0: a request
-- refuses exactly a client whose live count, this request included, is over the
-- limit; a client without a live count is let in. Afterwards the client's count is one more than
-- before, or 1 if it had none and an entry was unused or expired; a client that finds the table full
-- is not counted. No other client's count changes.
pub count_request_lem :
    (l : Limits) (client : CString) (entries : List Entry)
    → IsAddress client
    → 0 < l.window
    → ((count_request l client entries).0
        ≡ is_over l (Option.map next_count (live l client entries)))
      × ((j : CString) → live l j (count_request l client entries).1 ≡ counted l client entries j)
count_request_lem l client entries a w =
    (count_request-refused l client entries, count_request-live l client entries a w)
