-- ===== src/WsServer/Tests.antt =====
-- A server with one endpoint, and connections that come and go.
use libpapago.Prelude.{
  ℕ, ◌≡◌, ◌⊎◌, refl, true, false, none, ◌==◌, if◌then◌else◌, [], ◌∷◌, some, arith,
}
use libpapago.Prelude.Text.{CString, codes, str_eq}
use libpapago.WsQueue.{Msg, Heap, empty}
use libpapago.WsQueue.Represents.{Represents}
use libpapago.WsConn.{Conn}
use libpapago.WsServer.Shared.{Box, IsBox, Owns}
use libpapago.WsServer.Broadcast.{args, Broadcasts, broadcast-Broadcasts}
use libpapago.WsServer.{
  broadcast, Endpoint, Answers, cert_accepted, has_name, find_endpoint, settle_endpoint,
  established,
}
use libpapago.WsServer.Handshake.{IsVerified, established_lem}
use libpapago.WsServer.Listed.{Registry, opened, closed, run, IsCurrent, run_events-IsCurrent}

abbrev chat : Endpoint ℕ
chat = record { path = some (codes "/ws"); callbacks = 1 }

abbrev answers : Answers
answers = record {
  has_ssl = true;
  has_cert = true;
  verified = true;
  common_name = some (codes "bob");
  uri = some (codes "/ws");
  mutex_done = true;
  cond_done = true;
}

is_established : established true (chat ∷ []) answers ≡ some (some chat)
unfolding established cert_accepted has_name find_endpoint settle_endpoint str_eq
is_established = refl

established_lem_example :
    ((true ≡ false) ⊎ IsVerified answers)
    × (answers.mutex_done ≡ true)
    × (answers.cond_done ≡ true)
    × ((uri : CString) × (answers.uri ≡ some uri) × (chat.path ≡ some uri))
established_lem_example = established_lem true (chat ∷ []) answers chat is_established

abbrev idle : Registry
idle = record { listed = []; live = λ c. false }

idle-IsCurrent : IsCurrent idle
idle-IsCurrent = record { all_live = tt; distinct = tt; bound = omega arith }

run_events-IsCurrent_example :
    IsCurrent (run idle (opened 1 ∷ opened 2 ∷ closed 1 ∷ opened 3 ∷ closed 3 ∷ []))
run_events-IsCurrent_example =
    run_events-IsCurrent idle (opened 1 ∷ opened 2 ∷ closed 1 ∷ opened 3 ∷ closed 3 ∷ [])
      idle-IsCurrent

abbrev conn : Conn
conn = record {
  has_wsi = true;
  has_server = true;
  send_mutex_ready = true;
  closing = false;
  inflight = 0;
  queue = empty;
}

-- A queue with one message, a connection without a socket, and a queue for which there is no memory.
abbrev news : Msg
news = record { bytes = codes "news"; len = 4; binary = false; next = none }

abbrev heap : Heap
heap a = if a == 1 then some news else none

abbrev one : Box
one = record {
  conn = record conn {
    queue = record {
      send_head = some 1;
      send_tail = some 1;
      queue_msg_count = 1;
      queue_byte_count = 4;
    };
  };
  place = some 2;
  addresses = 1 ∷ [];
  msgs = (codes "news", false) ∷ [];
}

abbrev away : Box
away = record { conn = record conn { has_wsi = false }; place = some 3; addresses = []; msgs = [] }

abbrev poor : Box
poor = record { conn = conn; place = none; addresses = []; msgs = [] }

one-IsBox : IsBox heap one
one-IsBox = record {
  represents = record {
    linked = (refl, (news, refl, refl));
    ends = refl;
    distinct = (tt, tt);
    count = refl;
    bytes = refl;
    count_bound = omega arith;
    bytes_bound = omega arith;
  };
  payloads = refl;
}

empty-Represents : Represents empty heap []
empty-Represents = record {
  linked = refl;
  ends = refl;
  distinct = tt;
  count = refl;
  bytes = refl;
  count_bound = omega arith;
  bytes_bound = omega arith;
}

all-Owns : Owns heap (one ∷ away ∷ poor ∷ [])
all-Owns = (
  one-IsBox,
  ((tt, (tt, tt)), tt),
  (
    record { represents = empty-Represents; payloads = refl },
    tt,
    (record { represents = empty-Represents; payloads = refl }, tt, tt),
  ),
)

broadcast-Broadcasts_example :
    Broadcasts
      (codes "hi")
      heap
      (one ∷ away ∷ poor ∷ [])
      (broadcast (args (one ∷ away ∷ poor ∷ [])) (codes "hi") heap)
broadcast-Broadcasts_example =
    broadcast-Broadcasts (codes "hi") heap (one ∷ away ∷ poor ∷ []) (omega arith) all-Owns
