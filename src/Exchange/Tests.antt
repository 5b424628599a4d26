-- ===== src/Exchange/Tests.antt =====
-- A server that requires client certificates, and a body that gzip makes shorter.
use libpapago.Prelude.{
  ℕ, suc, arith, replicate, ◌≡◌, ◌⊎◌, refl, true, false, List, [], ◌∷◌, Option, none, some,
}
use libpapago.Prelude.Text.{codes}
use libpapago.Method.{get}
use libpapago.Config.{config_new}
use libpapago.Request.{Request, new_request}
use libpapago.Response.{Response, fresh, held}
use libpapago.Response.Valid.{IsValid}
use libpapago.Server.{State, Route, Slot, Server}
use libpapago.Dispatch.{respond, json}
use libpapago.Dispatch.Good.{json-IsGood}
use libpapago.Dispatch.Valid.{IsKeepingServer}
use libpapago.Metrics.{Metrics}
use libpapago.Metrics.Consistent.{IsConsistent, sum, count_at}
use libpapago.Exchange.Complete.{exchange-Sent}
use libpapago.Exchange.{Peer, exchange, handle, reply, read_fields}
use libpapago.Exchange.Peers.{IsAccepted, IsRefusal, known, handle_lem}
use libpapago.Exchange.Replies.{Sent, reply-Sent}

abbrev guarded : Server ℕ
guarded = record {
  config = record config_new { enable_ssl = true; require_client_cert = true };
  routes = [];
  middleware = [];
}

abbrev start : State ℕ
start = record { res = fresh; world = 0; alloc = [] }

abbrev stranger : Peer
stranger = record {
  verified = true;
  expired = false;
  not_activated = false;
  revoked = true;
  signer_not_found = false;
  other_status = false;
  has_cert = true;
  init_done = true;
  imported = true;
  common_name = codes "eve";
}

abbrev fields : Request → Request
fields = read_fields none none none

abbrev request : Request
request = new_request get (codes "/")

handle_lem_example :
    (IsAccepted stranger
      × (handle guarded stranger fields request start
          ≡ respond guarded (fields (known stranger request)) start))
    ⊎ ((¬ IsAccepted stranger)
        × (IsRefusal 500 start (handle guarded stranger fields request start).1
            ⊎ IsRefusal 403 start (handle guarded stranger fields request start).1))
handle_lem_example = handle_lem guarded stranger fields request start refl refl

abbrev body : Response
body = record fresh { body = held (1 ∷ 1 ∷ 1 ∷ []); body_length = 3 }

abbrev shrink : List ℕ → Option (List ℕ)
shrink bytes = some (9 ∷ [])

body-IsValid : IsValid body
body-IsValid = record { owned = refl; file_or_body = λ h. absurd (cc) }

reply-Sent_example :
    Sent true shrink (some (codes "gzip")) body (reply true shrink (some (codes "gzip")) body)
reply-Sent_example = reply-Sent true shrink (some (codes "gzip")) body body-IsValid

abbrev none_yet : Metrics
none_yet = record {
  total_requests = 0;
  requests_by_method = replicate 10 0;
  requests_by_status = replicate 7 0;
  total_duration_ms = 0;
  min_duration_ms = 18446744073709551615;
  max_duration_ms = 0;
  errors_4xx = 0;
  errors_5xx = 0;
  endpoints = [];
}

none_yet-IsConsistent : IsConsistent none_yet
unfolding sum count_at
none_yet-IsConsistent = record {
  methods_length = refl;
  status_length = refl;
  methods_sum = refl;
  status_sum = refl;
  errors_4xx = refl;
  errors_5xx = refl;
  endpoints_bound = omega arith;
  paths_bound = tt;
}

abbrev hello : Route ℕ
hello = record {
  method = get;
  path = codes "/hello";
  handler = λ req s. json (codes "{}") s;
  is_static = true;
}

abbrev counter : Slot ℕ
counter = record {
  path = none;
  before = λ req s. (true, record s { world = suc s.world });
  after = none;
}

abbrev small : Server ℕ
small = record { config = config_new; routes = hello ∷ []; middleware = counter ∷ [] }

small-IsKeeping : IsKeepingServer small
small-IsKeeping = record {
  routes = (λ req s g. json-IsGood (codes "{}") s g, tt);
  slots = (
    record {
      before = λ req s g. record { valid = g.valid; plenty = g.plenty };
      after = λ f e. absurd (cc);
    },
    tt,
  );
}

exchange-Sent_example :
    let (out, m, s) =
      exchange small stranger fields shrink none 5 none_yet
        (new_request get (codes "/hello"))
        start in
    Sent config_new.enable_compression shrink none s.res out
    × IsConsistent m
    × (m.total_requests ≡ 1)
exchange-Sent_example =
    exchange-Sent small stranger fields shrink none 5 none_yet (new_request get (codes "/hello"))
      start small-IsKeeping refl none_yet-IsConsistent (omega arith)
