-- ===== src/RateLimit.antt =====
-- papago.c, papago_rate_limit_entry_t and papago_check_rate_limit, from the point where the address of
-- the client is known. The function runs under `rate_limit_mutex`.
pub mod Table
pub mod Slots
pub mod Refine
pub mod Window
mod Tests
use mathlib.Core.Option
use libpapago.Prelude.{
  ℕ, suc, ◌+◌, ◌%◌, ◌^◌, Bool, true, false, not, ◌&&◌, ◌||◌, List, [], ◌∷◌, Option, none, some, ltb,
  leb, set, if◌then◌else◌,
}
use libpapago.Prelude.Text.{CString, str_eq, truncated, decimal, codes}
use libpapago.Alloc.{Alloc}
use libpapago.Response.{Response, set_status, res_header, res_send}

-- `papago_rate_limit_entry_t`; an unused entry has the empty address.
pub record Entry : Type 0 where
  pub ip : CString
  pub count : ℕ
  pub window_start : ℕ

-- INET6_ADDRSTRLEN and MAX_RATE_LIMIT_ENTRIES
abbrev pub address_size : ℕ
address_size = 46

abbrev pub max_entries : ℕ
max_entries = 1024

-- `rate_limit_requests` and `rate_limit_window` of the configuration, and the time of the call.
pub record Limits : Type 0 where
  pub requests : ℕ
  pub window : ℕ
  pub now : ℕ

-- `entries[i].ip[0] == '\0'`
abbrev pub is_unused : Entry → Bool
is_unused e = elim e.ip [ [] ↦ true | c ∷ s ↦ false ]

-- `now - entries[i].window_start >= window`, for signed times
abbrev pub is_expired : Limits → Entry → Bool
is_expired l e = leb (e.window_start + l.window) l.now

-- What the loop leaves of an entry that can be reused.
abbrev pub cleared : Entry → Entry
cleared e = if is_unused e then e else record e { ip = []; count = 0 }

-- `entries[i].count++` of a `uint32_t`
abbrev pub next_count : ℕ → ℕ
next_count n = (n + 1) % 2 ^ 32

-- How the loop ended: the client's count after it was found, or nothing; the first reusable entry
-- among those visited, as an index from here; and the entries.
pub record Scan : Type 0 where
  pub found : Option ℕ
  pub slot : Option ℕ
  pub entries : List Entry

-- The loop over the entries. It stops at the client's.
unfoldable pub scan : Limits → CString → List Entry → Scan
scan l client [] = record { found = none; slot = none; entries = [] }
scan l client (e ∷ es) =
    let rest = scan l client es in
    if is_unused e || is_expired l e
    then record { found = rest.found; slot = some 0; entries = cleared e ∷ rest.entries }
    else if str_eq e.ip client
    then record {
      found = some (next_count e.count);
      slot = none;
      entries = record e { count = next_count e.count } ∷ es;
    }
    else record { found = rest.found; slot = Option.map suc rest.slot; entries = e ∷ rest.entries }

-- The entry of a client that was not there before.
abbrev pub new_entry : Limits → CString → Entry
new_entry l client = record { ip = truncated address_size client; count = 1; window_start = l.now }

-- What follows the loop: is the request refused, and the table.
unfoldable pub settle : Limits → CString → Option ℕ → Option ℕ → List Entry → Bool × List Entry
settle l client (some count) slot entries = (ltb l.requests count, entries)
settle l client none (some k) entries = (false, set entries k (new_entry l client))
settle l client none none entries = (false, entries)

-- Counting one request of a client.
unfoldable pub count_request : Limits → CString → List Entry → Bool × List Entry
count_request l client entries =
    let s = scan l client entries in settle l client s.found s.slot s.entries

-- The answer to a refused request.
unfoldable pub refuse : Limits → Response → Alloc → Response × Alloc
refuse l res a =
    let (r1, a1) =
      res_header (set_status res 429) (some (codes "Retry-After")) (some (decimal l.window)) a in
    let (rc, r2, a2) = res_send r1 (some (codes "rate limit exceeded")) a1 in (r2, a2)

-- papago_check_rate_limit: `client` is the empty string when the address is of no known family.
unfoldable pub check_rate_limit :
    Bool → Limits → CString → List Entry → Response → Alloc → Bool × List Entry × Response × Alloc
check_rate_limit enabled l [] entries res a = (false, entries, res, a)
check_rate_limit enabled l (c ∷ client) entries res a =
    let (refused, entries') = count_request l (c ∷ client) entries in
    let (res', a') = refuse l res a in
    if not enabled
    then (false, entries, res, a)
    else if refused
    then (true, entries', res', a')
    else (false, entries', res, a)
