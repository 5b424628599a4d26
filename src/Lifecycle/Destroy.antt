-- ===== src/Lifecycle/Destroy.antt =====
-- What papago_start leaves, papago_destroy releases.
use libpapago.Prelude.{
  ◌≡◌, refl, ap, sym, ◌∙◌, Bool, true, false, not, ◌&&◌, ◌||◌, Option, none, some, arith, is_none,
  if◌then◌else◌, Bool-cases, inl, inr,
}
use mathlib.Core.Path.{subst}
use mathlib.Core.Option.{some-injective}
use libpapago.Prelude.Text.{codes}
use libpapago.Alloc.{Alloc, malloc}
use libpapago.Config.{Config, is_blank, valid_config}
use libpapago.Lifecycle.Starting.{
  IsSound, has_thread, IsReady, IsStarting, Starts, starting-IsReady, start_template-Starts,
  start_daemon-Starts,
}
use libpapago.Lifecycle.{
  Handle, absent, open_now, released, Runtime, Answers, Attempt, ok, failed, ◌>>=◌, initial, new,
  start_template, start_daemon, start_websocket, start, release, destroy, left,
}

-- What is left behind a release.
abbrev pub IsGone : Handle → Type 0
IsGone absent = Unit
IsGone open_now = ⊥
IsGone released = Unit

-- Nothing of a server is in use.
pub record IsOver (r : Runtime) : Type 0 where
  pub daemon : IsGone r.daemon
  pub lws : IsGone r.lws
  pub template : IsGone r.template
  pub no_thread : r.thread ≡ false
  pub stopped : r.running ≡ false

release_lem : (h : Handle) → IsSound h → (h' : Handle) × (release h ≡ some h') × IsGone h'
unfolding release
release_lem absent s = (absent, refl, tt)
release_lem open_now s = (released, refl, tt)
release_lem released s = elim s [ ]

joined :
    (h : Handle) (t : Bool)
    → IsSound h
    → t ≡ has_thread h
    → elim h [ open_now ↦ false | _ ↦ t ] ≡ false
joined absent t s e = e
joined open_now t s e = refl
joined released t s e = elim s [ ]

destroy-IsOver : (r : Runtime) → IsReady r → (r' : Runtime) × (destroy r ≡ some r') × IsOver r'
unfolding destroy
destroy-IsOver r i =
    let (daemon, e, d) = release_lem r.daemon i.daemon in
    let (lws, f, l) = release_lem r.lws i.lws in
    let (template, g, t) = release_lem r.template i.template in
    (
      record r {
        running = false;
        daemon = daemon;
        lws = lws;
        thread = elim r.lws [ open_now ↦ false | _ ↦ r.thread ];
        template = template;
        rate_limit_map = false;
      },
      simp (e, f, g, destroy),
      record {
        daemon = d;
        lws = l;
        template = t;
        no_thread = joined r.lws r.thread i.lws i.thread;
        stopped = refl;
      },
    )

-- A valid configuration has what SSL, and certificates of clients, need.
pub valid_config_lem :
    (c : Config)
    → valid_config (some c) ≡ true
    → ((c.enable_ssl && (is_none c.cert_file || is_none c.key_file)) ≡ false)
      × ((c.enable_ssl && (c.require_client_cert && is_blank c.ca_cert_file)) ≡ false)
unfolding valid_config
valid_config_lem c h = (ground arith, ground arith)

-- The websocket side of a server that is started with a valid configuration, when the context of
-- libwebsockets can be created.
start_websocket-IsReady :
    (c : Config) (s : Answers) (r : Runtime)
    → valid_config (some c) ≡ true
    → s.context_created ≡ true
    → IsStarting c r
    → IsReady (left (start_websocket s r))
unfolding start_websocket
start_websocket-IsReady c s r v created i =
    let (files, ca) = valid_config_lem c v in
    let files_r : (r.config.enable_ssl && (is_none r.config.cert_file || is_none r.config.key_file))
        ≡ false =
      ap (λ (d : Config). d.enable_ssl && (is_none d.cert_file || is_none d.key_file)) i.config
      ∙ files in
    let ca_r : (r.config.enable_ssl
          && (r.config.require_client_cert && is_blank r.config.ca_cert_file))
        ≡ false =
      ap (λ (d : Config). d.enable_ssl && (d.require_client_cert && is_blank d.ca_cert_file))
        i.config
      ∙ ca in
    let j = starting-IsReady c r i in
    elim (Bool-cases (not s.has_endpoints)) [
      | inl e ↦ subst (λ m. IsReady (left m)) (sym (no_endpoints e)) j
      | inr e ↦ elim (Bool-cases (not r.config.enable_ssl && r.config.require_client_cert)) [
        | inl f ↦ subst (λ m. IsReady (left m)) (sym (without_ssl e f)) j
        | inr f ↦
            subst (λ m. IsReady (left m)) (sym (opened e f files_r ca_r))
              (record { daemon = i.daemon; lws = tt; template = i.template; thread = refl })
      ]
    ]
  where
    no_endpoints : not s.has_endpoints ≡ true → start_websocket s r ≡ ok r
    no_endpoints e = simp (e, start_websocket)

    without_ssl :
        not s.has_endpoints ≡ false
        → (not r.config.enable_ssl && r.config.require_client_cert) ≡ true
        → start_websocket s r ≡ failed (codes "enable_ssl required with require_client_cert") r
    without_ssl e f = simp (e, f, start_websocket)

    opened :
        not s.has_endpoints ≡ false
        → (not r.config.enable_ssl && r.config.require_client_cert) ≡ false
        → (r.config.enable_ssl && (is_none r.config.cert_file || is_none r.config.key_file)) ≡ false
        → (r.config.enable_ssl && (r.config.require_client_cert && is_blank r.config.ca_cert_file))
          ≡ false
        → start_websocket s r ≡ ok (record r { lws = open_now; thread = true })
    opened e f g h = simp (e, f, g, h, created, start_websocket)

-- The tests of papago_new.
abbrev tested :
    Bool → Bool → Bool → Bool → Runtime → Alloc → Alloc → Alloc → Alloc → Option Runtime × Alloc
tested v server map metrics r a0 a1 a2 a3 =
    if not v
    then (none, a0)
    else if not server
    then (none, a1)
    else if not map
    then (none, a2)
    else (if metrics then some r else none, a3)

new-initial :
    (c : Config) (a rest : Alloc) (r : Runtime)
    → new (some c) a ≡ (some r, rest)
    → (valid_config (some c) ≡ true) × (initial c ≡ r)
unfolding new
new-initial c a rest r h =
    let map = if c.enable_rate_limiting then malloc (malloc a).1 else (true, (malloc a).1) in
    by_tests (valid_config (some c)) (malloc a).0 map.0 (malloc map.1).0 a (malloc a).1 map.1
      (malloc map.1).1 h
  where
    made : Option Runtime × Alloc → Option Runtime
    made t = t.0

    nothing : none ≡ some r → ⊥
    nothing e = absurd (cc)

    by_tests :
        (v server map metrics : Bool) (a0 a1 a2 a3 : Alloc)
        → tested v server map metrics (initial c) a0 a1 a2 a3 ≡ (some r, rest)
        → (v ≡ true) × (initial c ≡ r)
    by_tests true true true true a0 a1 a2 a3 h = (refl, some-injective (initial c) r (ap made h))
    by_tests true true true false a0 a1 a2 a3 h = absurd (nothing (ap made h))
    by_tests true true false metrics a0 a1 a2 a3 h = absurd (nothing (ap made h))
    by_tests true false map metrics a0 a1 a2 a3 h = absurd (nothing (ap made h))
    by_tests false server map metrics a0 a1 a2 a3 h = absurd (nothing (ap made h))

-- What papago_new makes has a valid configuration and nothing in use.
new-IsStarting :
    (c : Config) (a rest : Alloc) (r : Runtime)
    → new (some c) a ≡ (some r, rest)
    → (valid_config (some c) ≡ true) × IsStarting c (record r { running = true })
new-IsStarting c a rest r h =
    let (v, e) = new-initial c a rest r h in
    (
      v,
      subst (λ r. IsStarting c (record r { running = true })) e
          (record { config = refl; daemon = tt; no_lws = refl; template = tt; no_thread = refl }),
    )

start-IsReady :
    (c : Config) (s : Answers) (a : Alloc) (r : Runtime)
    → valid_config (some c) ≡ true
    → s.context_created ≡ true
    → IsStarting c (record r { running = true })
    → IsReady (left (start s a r))
unfolding start
start-IsReady c s a r v created i =
    by_template (start_template s (record r { running = true }))
      (start_template-Starts c s (record r { running = true }) i)
  where
    by_daemon : (m : Attempt Runtime) → Starts c m → IsReady (left (m >>= start_websocket s))
    by_daemon (ok r2) h = start_websocket-IsReady c s r2 v created h
    by_daemon (failed message r2) h = h

    by_template :
        (m : Attempt Runtime)
        → Starts c m
        → IsReady (left (m >>= λ r1. start_daemon s a r1 >>= start_websocket s))
    by_template (ok r1) h = by_daemon (start_daemon s a r1) (start_daemon-Starts c s a r1 h)
    by_template (failed message r1) h = h

-- A server made by papago_new and started by papago_start, whatever the files, the template engine and
-- libmicrohttpd answer and so whether it starts or not: if the context of libwebsockets can be created,
-- papago_destroy releases nothing twice, and afterwards the daemon, the context, its thread and the
-- template engine are gone.
pub destroy-start :
    (c : Config) (a0 a a1 : Alloc) (r : Runtime) (s : Answers)
    → new (some c) a0 ≡ (some r, a1)
    → s.context_created ≡ true
    → (r' : Runtime) × (destroy (left (start s a r)) ≡ some r') × IsOver r'
destroy-start c a0 a a1 r s made created =
    let (v, i) = new-IsStarting c a0 a1 r made in
    destroy-IsOver (left (start s a r)) (start-IsReady c s a r v created i)
