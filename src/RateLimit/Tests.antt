-- ===== src/RateLimit/Tests.antt =====
-- The rate limiter of papago.c with an empty table of two entries and a limit of one request.
use libpapago.Prelude.{◌≡◌, refl, true, List, [], ◌∷◌, none, arith, ltb}
use mathlib.Core.Option
use libpapago.Prelude.Text.{CString, codes}
use libpapago.RateLimit.{Entry, Limits, next_count, count_request}
use libpapago.RateLimit.Table.{live, has_slot}
use libpapago.RateLimit.Slots.{IsAddress, is_over, counted}
use libpapago.RateLimit.Refine.{count_request_lem}
use libpapago.RateLimit.Window.{count_requests, count_requests-refuses}

abbrev limits : Limits
limits = record { requests = 1; window = 60; now = 1000 }

abbrev unused : Entry
unused = record { ip = []; count = 0; window_start = 0 }

abbrev table : List Entry
table = unused ∷ unused ∷ []

abbrev client : CString
client = codes "10.0.0.1"

client-IsAddress : IsAddress client
client-IsAddress = (λ e. absurd (cc), omega arith)

count_request_lem_example :
    ((count_request limits client table).0
      ≡ is_over limits (Option.map next_count (live limits client table)))
    × ((j : CString)
        → live limits j (count_request limits client table).1 ≡ counted limits client table j)
count_request_lem_example = count_request_lem limits client table client-IsAddress (omega arith)

absent : live limits client table ≡ none
unfolding live
absent = refl

room : has_slot limits table ≡ true
unfolding has_slot
room = refl

count_requests-refuses_example :
    (count_request limits client (count_requests 1 limits client table)).0 ≡ ltb 1 2
count_requests-refuses_example =
    count_requests-refuses limits client table client-IsAddress (omega arith) absent room 0
      (omega arith)
