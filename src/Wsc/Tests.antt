-- ===== src/Wsc/Tests.antt =====
-- A client that connects, sends two messages, and loses the connection.
use libpapago.Prelude.{inl, inr, ℕ, Bool, false, Option, ◌≡◌, refl, true, List, [], ◌∷◌, none, some}
use libpapago.Prelude.Text.{codes}
use libpapago.Wsc.{
  default_config, wsc_new, Event, connects, sends_text, sends_binary, established, closed,
  writeable, stopped, Session, run,
}
use libpapago.Wsc.Stopped.{Returns, wsc_run-Returns}
use libpapago.Wsc.Service.{wsc_run}
use libpapago.Wsc.Served.{Frees, wsc_destroy-wsc_run}
use libpapago.Wsc.Order.{InOrder, run_wsc-InOrder}

abbrev start : Session
start = record { client = wsc_new; heap = λ a. none; accepted = []; handed = [] }

start-InOrder : InOrder start
start-InOrder = record {
  waiting = [];
  queues = record {
    addresses = [];
    linked = refl;
    ends = refl;
    distinct = tt;
    no_leak = λ a out. refl;
    payloads = refl;
  };
  in_order = refl;
}

abbrev events : List Event
events =
    connects default_config true true
    ∷ established
    ∷ sends_text (some 1) (codes "hi")
    ∷ sends_binary (some 2) (0 ∷ [])
    ∷ writeable true
    ∷ closed
    ∷ sends_text (some 1) (codes "no")
    ∷ []

run_wsc-InOrder_example : (s : Session) × (run start events ≡ some s) × InOrder s
run_wsc-InOrder_example = run_wsc-InOrder start events start-InOrder

abbrev connected : Session
connected = record start { client = record wsc_new { has_context = true; has_wsi = true } }

-- Two messages are sent, one is written, and then lws_service fails.
abbrev polls : List (List Event × Bool)
polls =
    (established ∷ sends_text (some 1) (codes "hi") ∷ sends_binary (some 2) (0 ∷ []) ∷ [], true)
    ∷ (writeable true ∷ [], true)
    ∷ ([], false)
    ∷ []

connected-InOrder : InOrder connected
connected-InOrder = record {
  waiting = [];
  queues = record {
    addresses = [];
    linked = refl;
    ends = refl;
    distinct = tt;
    no_leak = λ a out. refl;
    payloads = refl;
  };
  in_order = refl;
}

wsc_destroy-wsc_run_example :
    (rc : Option ℕ) × (s : Session) × (wsc_run connected polls ≡ some (rc, s)) × InOrder s × Frees s
wsc_destroy-wsc_run_example = wsc_destroy-wsc_run connected polls connected-InOrder

-- The client is stopped after the second call of lws_service.
abbrev stopped_polls : List (List Event × Bool)
stopped_polls =
    (established ∷ sends_text (some 1) (codes "hi") ∷ [], true)
    ∷ (writeable true ∷ stopped ∷ [], true)
    ∷ ([], true)
    ∷ []

wsc_run-Returns_example : Returns (wsc_run connected stopped_polls)
wsc_run-Returns_example =
    wsc_run-Returns connected stopped_polls connected-InOrder refl
      (refl, inr (refl, inl (inr (inl tt))))
