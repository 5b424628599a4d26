-- ===== src/RateLimit/Window.antt =====
-- A run of requests of one client within its window.
use libpapago.Prelude.{
  ℕ, zero, suc, ◌+◌, ◌<◌, ◌^◌, ◌≡◌, ap, ◌∙◌, true, List, none, some, arith, ltb,
}
use mathlib.Core.Option
use libpapago.Prelude.Text.{CString, str_eq_refl}
use libpapago.RateLimit.{Entry, Limits, next_count, count_request}
use libpapago.RateLimit.Table.{live, has_slot}
use libpapago.RateLimit.Slots.{IsAddress, is_over, counted}
use libpapago.RateLimit.Refine.{counted-found, counted-none, count_request_lem}

-- The table after n requests of a client.
unfoldable pub count_requests : ℕ → Limits → CString → List Entry → List Entry
count_requests zero l client entries = entries
count_requests (suc n) l client entries =
    (count_request l client (count_requests n l client entries)).1

next_count-small : (n : ℕ) → n + 1 < 2 ^ 32 → next_count n ≡ suc n
next_count-small n h = omega arith

add_two : (n : ℕ) → suc (suc n) ≡ n + 2
add_two n = omega arith

module _ (l : Limits) (client : CString) (entries : List Entry) (address : IsAddress client)
    (window : 0 < l.window) (absent : live l client entries ≡ none)
    (room : has_slot l entries ≡ true) where
  first_count : counted l client entries client ≡ some 1
  first_count = rw (counted-none l client entries client absent, str_eq_refl client, room)

  first-live : live l client (count_request l client entries).1 ≡ some 1
  first-live = (count_request_lem l client entries address window).1 client ∙ first_count

  count_requests-live :
      (n : ℕ)
      → suc n < 2 ^ 32
      → live l client (count_requests (suc n) l client entries) ≡ some (suc n)
  unfolding count_requests
  count_requests-live zero h = first-live
  count_requests-live (suc n) h =
      let ih = count_requests-live n (omega arith) in
      let before = count_requests (suc n) l client entries in
      let after : counted l client before client ≡ some (suc (suc n)) = rw (
        counted-found l client before (suc n) client ih,
        str_eq_refl client,
        ih,
        next_count-small (suc n) (omega arith),
      ) in
      (count_request_lem l client before address window).1 client ∙ after

  -- Of the requests of a client that had no live count when the first was made, all at one time, with a
  -- table that has an unused or expired entry, an address that is not empty and fits an entry, and a
  -- window that is not 0, the one after the first n + 1 is refused exactly if it
  -- is over the limit, as long as its number fits a `uint32_t`.
  pub count_requests-refuses :
      (n : ℕ)
      → n + 2 < 2 ^ 32
      → (count_request l client (count_requests (suc n) l client entries)).0
        ≡ ltb l.requests (n + 2)
  unfolding is_over
  count_requests-refuses n h =
      let before = count_requests (suc n) l client entries in
      let ih = count_requests-live n (omega arith) in
      let over : is_over l (Option.map next_count (live l client before)) ≡ ltb l.requests (n + 2) =
        rw (ih, next_count-small (suc n) (omega arith)) (ap (ltb l.requests) (add_two n)) in
      (count_request_lem l client before address window).0 ∙ over
