-- ===== src/WsConn/Tests.antt =====
-- A connection that sends a text and a binary message; the first write is put off.
use libpapago.Prelude.{◌≡◌, refl, true, false, List, [], ◌∷◌, map, none, some, arith}
use libpapago.Prelude.Text.{codes}
use libpapago.WsQueue.{Msg, update, empty}
use libpapago.WsQueue.Represents.{update_ne}
use libpapago.WsConn.{Conn, Write, Call, text, binary, socket, Line, run}
use libpapago.WsConn.Order.{InOrder, run-InOrder}
use libpapago.WsConn.Delivery.{run_delivers}

abbrev conn : Conn
conn = record {
  has_wsi = true;
  has_server = true;
  send_mutex_ready = true;
  closing = false;
  inflight = 0;
  queue = empty;
}

abbrev start : Line
start = record { conn = conn; heap = λ a. none; accepted = []; handed = [] }

start-InOrder : InOrder start
start-InOrder = record {
  waiting = [];
  holds = record {
    addresses = [];
    represents = record {
      linked = refl;
      ends = refl;
      distinct = tt;
      count = refl;
      bytes = refl;
      count_bound = omega arith;
      bytes_bound = omega arith;
    };
    no_leak = λ a out. refl;
    payloads = refl;
  };
  in_order = refl;
}

abbrev busy : Write
busy = record { busy = true; written = none; buffered = true }

abbrev idle : Write
idle = record { busy = false; written = some 2; buffered = false }

abbrev calls : List Call
calls =
    text (some 1) (codes "hi")
    ∷ socket busy
    ∷ binary (some 2) (0 ∷ 255 ∷ [])
    ∷ socket idle
    ∷ binary none (7 ∷ [])
    ∷ []

run-InOrder_example : (l : Line) × (run start calls ≡ some l) × InOrder l
run-InOrder_example =
    run-InOrder start calls start-InOrder
      (omega arith, (tt, (omega arith, (tt, (omega arith, tt)))))

-- One message waits at address 1.
abbrev hi : Msg
hi = record { bytes = codes "hi"; len = 2; binary = false; next = none }

abbrev waiting : Line
waiting = record {
  conn = record conn {
    queue = record {
      send_head = some 1;
      send_tail = some 1;
      queue_msg_count = 1;
      queue_byte_count = 2;
    };
  };
  heap = update (λ a. none) 1 (some hi);
  accepted = (codes "hi", false) ∷ [];
  handed = [];
}

abbrev waiting_in_order : InOrder waiting
waiting_in_order = record {
  waiting = (codes "hi", false) ∷ [];
  holds = record {
    addresses = 1 ∷ [];
    represents = record {
      linked = (refl, (hi, refl, refl));
      ends = refl;
      distinct = (tt, tt);
      count = refl;
      bytes = refl;
      count_bound = omega arith;
      bytes_bound = omega arith;
    };
    no_leak = λ a out. update_ne (λ b. none) 1 a (some hi) out.0;
    payloads = refl;
  };
  in_order = refl;
}

run_delivers_example :
    (l : Line) × (run waiting (map socket (idle ∷ [])) ≡ some l)
    × (l.handed ≡ (codes "hi", false) ∷ [])
run_delivers_example = run_delivers waiting waiting_in_order (idle ∷ []) (refl, tt) (omega arith)
