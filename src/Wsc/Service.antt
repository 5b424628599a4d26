-- ===== src/Wsc/Service.antt =====
-- papago_wsc.c, papago_wsc_run and papago_wsc_destroy. A call of lws_service is the calls of the client
-- that happen in the meantime, from its callbacks and from other threads, and whether its result is not
-- negative.
use libpapago.Prelude.{ℕ, Bool, true, false, List, [], ◌∷◌, Option, none, some, if◌then◌else◌}
use libpapago.WsQueue.{Heap}
use libpapago.WsConn.{drain_from}
use libpapago.Wsc.{Wsc, Event, Session, run}

-- The loop of papago_wsc_run; the result is `none` while it goes on.
unfoldable pub serve : Session → List (List Event × Bool) → Option (Option ℕ × Session)
serve s [] = some (if s.client.running then none else some 0, s)
serve s ((events, ok) ∷ polls) =
    let after : Option (Option ℕ × Session) = elim (run s events) [
      | none ↦ none
      | some s' ↦ let rest = serve s' polls in if ok then rest else some (some 1, s')
    ] in
    if s.client.running then after else some (some 0, s)

-- papago_wsc_run with a client.
unfoldable pub wsc_run : Session → List (List Event × Bool) → Option (Option ℕ × Session)
wsc_run s polls =
    let started : Session = record s { client = record s.client { running = true } } in
    if s.client.has_context then serve started polls else some (some 1, s)

-- papago_wsc_destroy up to `free(client)`, with fuel for the loop over the messages; `none` is a read of
-- unallocated memory. The callbacks that lws_context_destroy makes send nothing.
unfoldable pub wsc_destroy : ℕ → Wsc → Heap → Option (Wsc × Heap)
wsc_destroy fuel c heap = elim (drain_from fuel heap c.send_head) [
  | none ↦ none
  | some heap' ↦ some (
    record c {
      running = false;
      has_wsi = false;
      has_context = false;
      send_head = none;
      send_tail = none;
    },
    heap',
  )
]
