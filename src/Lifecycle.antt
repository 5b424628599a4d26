-- ===== src/Lifecycle.antt =====
-- papago.c, a server from papago_new to papago_destroy: load_file, papago_start, papago_stop, papago_enable_rate_limit, and what
-- they make of the daemon of libmicrohttpd, the context of libwebsockets with its thread, and the
-- template engine. What these libraries and the file system answer are arguments; pthread_create is
-- taken to succeed.
pub mod Starting
pub mod Destroy
pub mod DoubleStop
mod Tests
use libpapago.Prelude.{
  ℕ, Bool, true, false, not, ◌&&◌, ◌||◌, List, [], ◌∷◌, Option, none, some, ◌==◌, is_none,
  if◌then◌else◌, length,
}
use libpapago.Prelude.Text.{CString, codes}
use libpapago.Alloc.{Alloc, malloc}
use libpapago.Config.{Config, is_blank, valid_config}

-- A pointer to what another library made: NULL, in use, or released and not reset.
pub data Handle : Type 0 where
  absent open_now released : Handle

-- The fields of `struct papago_server` that starting and stopping change, and its thread.
pub record Runtime : Type 0 where
  pub config : Config
  pub running : Bool
  pub daemon : Handle
  pub lws : Handle
  pub thread : Bool
  pub template : Handle
  pub rate_limit_map : Bool

-- What fopen, ftell and fread answer for a file: is it there, its size if it is known, the bytes.
pub record FileRead : Type 0 where
  pub opened : Bool
  pub size : Option ℕ
  pub bytes : List ℕ

unfoldable pub load_file : FileRead → Alloc → Option (List ℕ) × Alloc
load_file f a =
    let (done, a') = malloc a in
    if not f.opened then (none, a) else elim f.size [
      | none ↦ (none, a)
      | some size ↦ if done && (length f.bytes == size) then (some f.bytes, a') else (none, a')
    ]

-- What the libraries answer when a server starts: the template engine, each file, the daemon or the
-- reason why there is none, is there any websocket endpoint, and the context of libwebsockets.
pub data Refusal : Type 0 where
  in_use no_access : Refusal
  other_error : CString → Refusal

pub record Answers : Type 0 where
  pub template_done : Bool
  pub files : CString → FileRead
  pub daemon : Option Refusal
  pub has_endpoints : Bool
  pub context_created : Bool

-- A step of papago_start: it goes on, or ends with an error message, in the state that it leaves.
pub data Attempt (A : Type 0) : Type 0 where
  ok : A → Attempt A
  failed : CString → Runtime → Attempt A

infixl 5 ◌>>=◌
abbrev pub ◌>>=◌ : {A B : Type 0} → Attempt A → (A → Attempt B) → Attempt B
ok a >>= f = f a
failed message r >>= f = failed message r

-- A server before it is started.
abbrev pub initial : Config → Runtime
initial config = record {
  config = config;
  running = false;
  daemon = absent;
  lws = absent;
  thread = false;
  template = absent;
  rate_limit_map = config.enable_rate_limiting;
}

-- papago_new: the configuration is tested, and the server, the table of the rate limiter and the
-- metrics are allocated.
unfoldable pub new : Option Config → Alloc → Option Runtime × Alloc
new none a = (none, a)
new (some config) a =
    let (server, a1) = malloc a in
    let (map, a2) = if config.enable_rate_limiting then malloc a1 else (true, a1) in
    let (metrics, a3) = malloc a2 in
    if not (valid_config (some config))
    then (none, a)
    else if not server
    then (none, a1)
    else if not map
    then (none, a2)
    else (if metrics then some (initial config) else none, a3)

unfoldable pub start_template : Answers → Runtime → Attempt Runtime
start_template s r =
    if not r.config.enable_template_rendering
    then ok r
    else if s.template_done
    then ok (record r { template = open_now })
    else failed (codes "failed to initialize template engine")
        (record r { template = absent; running = false })

-- A file that must be loaded.
unfoldable pub load_or_fail : Answers → CString → CString → Alloc → Runtime → Attempt Alloc
load_or_fail s path message a r = elim (load_file (s.files path) a).0 [
  | none ↦ failed message r
  | some bytes ↦ ok (load_file (s.files path) a).1
]

unfoldable pub load_ca : Answers → Alloc → Runtime → Attempt Alloc
load_ca s a r = elim r.config.ca_cert_file [
  | none ↦ ok a
  | some path ↦ load_or_fail s path (codes "failed to load CA certificate") a r
]

-- The certificate, the key and the CA certificate are loaded.
unfoldable pub load_pems : Answers → Alloc → Runtime → Attempt Alloc
load_pems s a r = elim r.config.cert_file [
  | none ↦ failed (codes "SSL enabled but cert_file or key_file not set") r
  | some cert ↦ elim r.config.key_file [
    | none ↦ failed (codes "SSL enabled but cert_file or key_file not set") r
    | some key ↦ do
      a1 ← load_or_fail s cert (codes "failed to load SSL certificate") a r
      a2 ← load_or_fail s key (codes "failed to load SSL key") a1 r
      load_ca s a2 r
  ]
]

unfoldable pub refusal_text : Refusal → CString
refusal_text in_use = codes "port already in use"
refusal_text no_access = codes "insufficient permissions to start HTTP server"
refusal_text (other_error text) = text

unfoldable pub start_daemon : Answers → Alloc → Runtime → Attempt Runtime
start_daemon s a r = do
  a' ← if r.config.enable_ssl then load_pems s a r else ok a
  elim s.daemon [
    | none ↦ ok (record r { daemon = open_now })
    | some why ↦ failed (refusal_text why) (record r { daemon = absent })
  ]

-- MHD_stop_daemon on the way out; `daemon` is reset in one of three places.
abbrev pub stopped : Runtime → Runtime
stopped r = record r { daemon = released; running = false }

unfoldable pub start_websocket : Answers → Runtime → Attempt Runtime
start_websocket s r =
    let c = r.config in
    if not s.has_endpoints
    then ok r
    else if not c.enable_ssl && c.require_client_cert
    then failed (codes "enable_ssl required with require_client_cert") r
    else if c.enable_ssl && (is_none c.cert_file || is_none c.key_file)
    then failed (codes "SSL enabled but cert_file or key_file not set for WebSocket") (stopped r)
    else if c.enable_ssl && (c.require_client_cert && is_blank c.ca_cert_file)
    then failed (codes "require_client_cert is true but ca_cert_file is not set for WebSocket")
        (record r { daemon = absent; running = false })
    else if s.context_created
    then ok (record r { lws = open_now; thread = true })
    else failed (codes "failed to create libwebsockets context") (stopped r)

-- papago_start up to the wait for the shutdown.
unfoldable pub start : Answers → Alloc → Runtime → Attempt Runtime
start s a r = do
  r1 ← start_template s (record r { running = true })
  r2 ← start_daemon s a r1
  start_websocket s r2

-- papago_stop; the wait in papago_start ends when `running` is false.
abbrev pub stop : Runtime → Runtime
stop r = record r { running = false }

-- MHD_stop_daemon and its kin on a pointer that is not NULL; `none` releases it twice.
unfoldable pub release : Handle → Option Handle
release absent = some absent
release open_now = some released
release released = none

-- papago_destroy; the thread of libwebsockets ends since `running` is false.
unfoldable pub destroy : Runtime → Option Runtime
destroy r = elim (release r.daemon) [
  | none ↦ none
  | some daemon ↦ elim (release r.lws) [
    | none ↦ none
    | some lws ↦ elim (release r.template) [
      | none ↦ none
      | some template ↦ some (record r {
        running = false;
        daemon = daemon;
        lws = lws;
        thread = elim r.lws [ open_now ↦ false | _ ↦ r.thread ];
        template = template;
        rate_limit_map = false;
      })
    ]
  ]
]

-- The server that papago_start leaves, whether it succeeded or not.
abbrev pub left : Attempt Runtime → Runtime
left (ok r) = r
left (failed message r) = r

-- papago_enable_rate_limit with a server.
unfoldable pub enable_rate_limit : Runtime → ℕ → ℕ → Alloc → Runtime × Alloc
enable_rate_limit r max_requests window_seconds a =
    let (done, a') = malloc a in
    let c = record r.config {
      enable_rate_limiting = true;
      rate_limit_requests = max_requests;
      rate_limit_window = window_seconds;
    } in
    if r.rate_limit_map
    then (record r { config = c }, a)
    else if done
    then (record r { config = c; rate_limit_map = true }, a')
    else (record r { config = record c { enable_rate_limiting = false } }, a')
