-- ===== src/RateLimit/Slots.antt =====
-- Which entry of the table a client is given.
use libpapago.Prelude.{
  take-short, ℕ, ◌<◌, ◌≡◌, ◌≢◌, refl, Bool, true, false, not, List, [], ◌∷◌, Option, none, some,
  arith, ltb, if◌then◌else◌, length, is_none, Bool-cases, Option-cases, inl, inr,
}
use mathlib.Core.Option
use mathlib.Core.Option.{some-injective}
use libpapago.Prelude.Text.{CString, str_eq, str_eq_iff}
use libpapago.RateLimit.{Entry, Limits, next_count, scan, new_entry, address_size}
use libpapago.RateLimit.Table.{is_live, live, has_slot, live-head, scan-dead, scan-other}

-- The count of a client after a request of `client`: one more than before, or 1 where it had none
-- and an entry can be reused.
unfoldable pub counted : Limits → CString → List Entry → CString → Option ℕ
counted l client entries j =
    if str_eq client j
    then elim (live l client entries) [
      | some c ↦ some (next_count c)
      | none ↦ if has_slot l entries then some 1 else none
    ]
    else live l j entries

-- Is the request over the limit?
unfoldable pub is_over : Limits → Option ℕ → Bool
is_over l none = false
is_over l (some c) = ltb l.requests c

-- An address that fits the entry, with its NUL.
abbrev pub IsAddress : CString → Type 0
IsAddress s = (s ≢ []) × (length s < address_size)

pub new_entry-ip :
    (l : Limits) (client : CString) → IsAddress client → (new_entry l client).ip ≡ client
new_entry-ip l client h = take-short 45 client (omega (arith, h.1))

pub new_entry-is_live :
    (l : Limits) (client : CString)
    → IsAddress client
    → 0 < l.window
    → is_live l (new_entry l client) ≡ true
new_entry-is_live l [] h w = absurd (h.0 refl)
new_entry-is_live l (c ∷ s) h w = ground arith

-- A slot is offered exactly when an entry can be reused, where the client is not found.
pub slot-has_slot :
    (l : Limits) (client : CString) (entries : List Entry)
    → live l client entries ≡ none
    → is_none (scan l client entries).slot ≡ not (has_slot l entries)
unfolding has_slot
slot-has_slot l client [] h = unfold scan in refl
slot-has_slot l client (e ∷ es) h = elim (Bool-cases (is_live l e)) [
  | inl p ↦ elim (Bool-cases (str_eq e.ip client)) [
    | inl same ↦ absurd (ground (arith, live-head l client e es p))
    | inr other ↦
        let k : live l client es ≡ none = ground (arith, live-head l client e es p) in
        elim (Option-cases (scan l client es).slot) [
          | inl q ↦ ground (arith, scan-other l client e es p other, slot-has_slot l client es k)
          | inr (i, q) ↦
              ground (arith, scan-other l client e es p other, slot-has_slot l client es k)
        ]
  ]
  | inr p ↦ rw (scan-dead l client e es p, p)
]

pub first-client :
    (l : Limits) (client j : CString) (es : List Entry)
    → (if str_eq client j
        then some 1
        else (if str_eq client j then Option.map next_count (live l j es) else live l j es))
      ≡ (if str_eq client j then some 1 else live l j es)
first-client l client j es = ground arith

pub other-client :
    (l : Limits) (client j : CString) (e : Entry) (es : List Entry)
    → str_eq e.ip client ≡ false
    → (if str_eq e.ip j then some e.count else (if str_eq client j then some 1 else live l j es))
      ≡ (if str_eq client j then some 1 else (if str_eq e.ip j then some e.count else live l j es))
other-client l client j e es h =
    ground (arith, str_eq_iff e.ip j, str_eq_iff client j, str_eq_iff e.ip client)
