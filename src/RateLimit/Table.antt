-- ===== src/RateLimit/Table.antt =====
-- The table of entries as a map from clients to counts, and what one scan does to it.
use libpapago.Prelude.{
  ℕ, suc, ◌≡◌, refl, Bool, true, false, not, ◌&&◌, ◌||◌, List, [], ◌∷◌, Option, none, some, arith,
  if◌then◌else◌, Bool-cases, inl, inr,
}
use mathlib.Core.Option
use libpapago.Prelude.Text.{CString, str_eq, str_eq_iff}
use libpapago.RateLimit.{Entry, Limits, is_unused, is_expired, cleared, next_count, scan}

abbrev pub is_live : Limits → Entry → Bool
is_live l e = not (is_unused e || is_expired l e)

-- The count of a client whose window has not passed: that of the first entry in use for it.
unfoldable pub live : Limits → CString → List Entry → Option ℕ
live l client [] = none
live l client (e ∷ es) =
    if is_live l e && str_eq e.ip client then some e.count else live l client es

-- Can some entry be reused?
unfoldable pub has_slot : Limits → List Entry → Bool
has_slot l [] = false
has_slot l (e ∷ es) = not (is_live l e) || has_slot l es

cleared-is_live : (l : Limits) (e : Entry) → is_live l e ≡ false → is_live l (cleared e) ≡ false
cleared-is_live l e h = ground arith

pub live-dead :
    (l : Limits) (j : CString) (e : Entry) (es : List Entry)
    → is_live l e ≡ false
    → live l j (e ∷ es) ≡ live l j es
unfolding live
live-dead l j e es h = rw h

pub live-head :
    (l : Limits) (j : CString) (e : Entry) (es : List Entry)
    → is_live l e ≡ true
    → live l j (e ∷ es) ≡ (if str_eq e.ip j then some e.count else live l j es)
unfolding live
live-head l j e es h = rw h

not-true : (b : Bool) → not b ≡ true → b ≡ false
not-true b h = ground arith

not-false : (b : Bool) → not b ≡ false → b ≡ true
not-false b h = ground arith

-- One round of the loop: at an entry that can be reused, at the client's, and at another's.
pub scan-dead :
    (l : Limits) (client : CString) (e : Entry) (es : List Entry)
    → is_live l e ≡ false
    → let rest = scan l client es in
      scan l client (e ∷ es)
      ≡ record { found = rest.found; slot = some 0; entries = cleared e ∷ rest.entries }
unfolding scan
scan-dead l client e es h = rw (not-false _ h)

pub scan-hit :
    (l : Limits) (client : CString) (e : Entry) (es : List Entry)
    → is_live l e ≡ true
    → str_eq e.ip client ≡ true
    → scan l client (e ∷ es) ≡ record {
      found = some (next_count e.count);
      slot = none;
      entries = record e { count = next_count e.count } ∷ es;
    }
unfolding scan
scan-hit l client e es h same = rw (not-true _ h, same)

pub scan-other :
    (l : Limits) (client : CString) (e : Entry) (es : List Entry)
    → is_live l e ≡ true
    → str_eq e.ip client ≡ false
    → let rest = scan l client es in
      scan l client (e ∷ es)
      ≡ record { found = rest.found; slot = Option.map suc rest.slot; entries = e ∷ rest.entries }
unfolding scan
scan-other l client e es h other = rw (not-true _ h, other)

-- A scan finds the client exactly when it has a live count, and returns the next one.
pub scan-found :
    (l : Limits) (client : CString) (entries : List Entry)
    → (scan l client entries).found ≡ Option.map next_count (live l client entries)
scan-found l client [] = unfold scan live in refl
scan-found l client (e ∷ es) = elim (Bool-cases (is_live l e)) [
  | inl h ↦ elim (Bool-cases (str_eq e.ip client)) [
    | inl same ↦ rw (scan-hit l client e es h same, live-head l client e es h, same)
    | inr other ↦
        rw (scan-other l client e es h other, live-head l client e es h, other)
          (scan-found l client es)
  ]
  | inr h ↦ rw (scan-dead l client e es h, live-dead l client e es h) (scan-found l client es)
]

-- A scan adds one to the client's live count and changes the count of no other client.
pub scan-entries :
    (l : Limits) (client j : CString) (entries : List Entry)
    → live l j (scan l client entries).entries
      ≡ (if str_eq client j then Option.map next_count (live l j entries) else live l j entries)
scan-entries l client j [] = unfold scan live in ground arith
scan-entries l client j (e ∷ es) = elim (Bool-cases (is_live l e)) [
  | inl h ↦ elim (Bool-cases (str_eq e.ip client)) [
    | inl same ↦
        let ip : e.ip ≡ client = (str_eq_iff e.ip client).0 same in
        ground (
          arith,
          scan-hit l client e es h same,
          live-head l j (record e { count = next_count e.count }) es h,
          live-head l j e es h,
          ip,
        )
    | inr other ↦ ground (
      arith,
      scan-other l client e es h other,
      live-head l j e (scan l client es).entries h,
      live-head l j e es h,
      scan-entries l client j es,
      str_eq_iff e.ip j,
      str_eq_iff client j,
      str_eq_iff e.ip client,
    )
  ]
  | inr h ↦
      rw
        (
          scan-dead l client e es h,
          live-dead l j (cleared e) (scan l client es).entries (cleared-is_live l e h),
          live-dead l j e es h,
        )
        (scan-entries l client j es)
]
