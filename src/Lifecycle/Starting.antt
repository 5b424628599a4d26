-- ===== src/Lifecycle/Starting.antt =====
-- The steps of papago_start before its websocket side: each goes on, or leaves a server that can be
-- destroyed.
use libpapago.Prelude.{
  ℕ, ◌≡◌, refl, ap, sym, ◌∙◌, Bool, true, false, not, List, Option, none, some, if◌then◌else◌,
  Bool-cases, inl, inr,
}
use mathlib.Core.Path.{subst}
use libpapago.Prelude.Text.{CString, codes}
use libpapago.Alloc.{Alloc}
use libpapago.Config.{Config}
use libpapago.Lifecycle.{
  Handle, absent, open_now, released, Runtime, load_file, Answers, Refusal, refusal_text, Attempt,
  ok, failed, ◌>>=◌, start_template, load_or_fail, load_ca, load_pems, start_daemon,
}

-- A pointer that may be released: it is NULL, or what it points to is in use.
abbrev pub IsSound : Handle → Type 0
IsSound absent = Unit
IsSound open_now = Unit
IsSound released = ⊥

abbrev pub has_thread : Handle → Bool
has_thread open_now = true
has_thread absent = false
has_thread released = false

pub record IsReady (r : Runtime) : Type 0 where
  pub daemon : IsSound r.daemon
  pub lws : IsSound r.lws
  pub template : IsSound r.template
  pub thread : r.thread ≡ has_thread r.lws

-- A server before its websocket side is started.
pub record IsStarting (c : Config) (r : Runtime) : Type 0 where
  pub config : r.config ≡ c
  pub daemon : IsSound r.daemon
  pub no_lws : r.lws ≡ absent
  pub template : IsSound r.template
  pub no_thread : r.thread ≡ false

pub starting-IsReady : (c : Config) (r : Runtime) → IsStarting c r → IsReady r
starting-IsReady c r i = record {
  daemon = i.daemon;
  lws = subst IsSound (sym i.no_lws) tt;
  template = i.template;
  thread = i.no_thread ∙ ap has_thread (sym i.no_lws);
}

-- A step goes on with a server that is starting, or ends with one that is ready to be destroyed.
abbrev pub Starts : Config → Attempt Runtime → Type 0
Starts c (ok r) = IsStarting c r
Starts c (failed message r) = IsReady r

pub start_template-Starts :
    (c : Config) (s : Answers) (r : Runtime) → IsStarting c r → Starts c (start_template s r)
unfolding start_template
start_template-Starts c s r i = elim (Bool-cases (not r.config.enable_template_rendering)) [
  | inl e ↦ rw (e) i
  | inr e ↦ elim (Bool-cases s.template_done) [
    | inl f ↦
        rw (e, f)
          (record {
            config = i.config;
            daemon = i.daemon;
            no_lws = i.no_lws;
            template = tt;
            no_thread = i.no_thread;
          })
    | inr f ↦
        rw (e, f)
          (record {
            daemon = i.daemon;
            lws = subst IsSound (sym i.no_lws) tt;
            template = tt;
            thread = i.no_thread ∙ ap has_thread (sym i.no_lws);
          })
  ]
]

-- Loading files changes nothing of the server.
abbrev Loads : Runtime → Attempt Alloc → Type 0
Loads r (ok a) = Unit
Loads r (failed message r') = r' ≡ r

bind-Loads :
    (r : Runtime) (m : Attempt Alloc) (f : Alloc → Attempt Alloc)
    → Loads r m
    → ((a : Alloc) → Loads r (f a))
    → Loads r (m >>= f)
bind-Loads r (ok a) f h k = k a
bind-Loads r (failed message r') f h k = h

load_or_fail-Loads :
    (s : Answers) (path message : CString) (a : Alloc) (r : Runtime)
    → Loads r (load_or_fail s path message a r)
unfolding load_or_fail
load_or_fail-Loads s path message a r = by_content (load_file (s.files path) a).0
  where
    by_content :
        (content : Option (List ℕ))
        → Loads r (elim content [
          | none ↦ failed message r
          | some bytes ↦ ok (load_file (s.files path) a).1
        ])
    by_content none = refl
    by_content (some bytes) = tt

load_ca-Loads : (s : Answers) (a : Alloc) (r : Runtime) → Loads r (load_ca s a r)
unfolding load_ca
load_ca-Loads s a r = by_path r.config.ca_cert_file
  where
    by_path :
        (file : Option CString)
        → Loads r (elim file [
          | none ↦ ok a
          | some path ↦ load_or_fail s path (codes "failed to load CA certificate") a r
        ])
    by_path none = tt
    by_path (some path) = load_or_fail-Loads s path (codes "failed to load CA certificate") a r

load_pair-Loads :
    (s : Answers) (a : Alloc) (r : Runtime) (cert key : CString)
    → Loads r (
        load_or_fail s cert (codes "failed to load SSL certificate") a r >>= λ a1.
        load_or_fail s key (codes "failed to load SSL key") a1 r >>= λ a2. load_ca s a2 r)
load_pair-Loads s a r cert key =
    bind-Loads r (load_or_fail s cert (codes "failed to load SSL certificate") a r)
      (λ a1. load_or_fail s key (codes "failed to load SSL key") a1 r >>= λ a2. load_ca s a2 r)
      (load_or_fail-Loads s cert (codes "failed to load SSL certificate") a r)
      (λ a1.
        bind-Loads r (load_or_fail s key (codes "failed to load SSL key") a1 r)
          (λ a2. load_ca s a2 r) (load_or_fail-Loads s key (codes "failed to load SSL key") a1 r)
          (λ a2. load_ca-Loads s a2 r))

load_pems-Loads : (s : Answers) (a : Alloc) (r : Runtime) → Loads r (load_pems s a r)
unfolding load_pems
load_pems-Loads s a r = by_files r.config.cert_file r.config.key_file
  where
    by_files :
        (cert key : Option CString)
        → Loads r (elim cert [
          | none ↦ failed (codes "SSL enabled but cert_file or key_file not set") r
          | some c ↦ elim key [
            | none ↦ failed (codes "SSL enabled but cert_file or key_file not set") r
            | some k ↦ load_or_fail s c (codes "failed to load SSL certificate") a r >>= λ a1.
                load_or_fail s k (codes "failed to load SSL key") a1 r >>= λ a2. load_ca s a2 r
          ]
        ])
    by_files none key = refl
    by_files (some c) none = refl
    by_files (some c) (some k) = load_pair-Loads s a r c k

pub start_daemon-Starts :
    (c : Config) (s : Answers) (a : Alloc) (r : Runtime)
    → IsStarting c r
    → Starts c (start_daemon s a r)
unfolding start_daemon
start_daemon-Starts c s a r i = elim (Bool-cases r.config.enable_ssl) [
  | inl e ↦
      subst (λ b. Starts c (after (if b then load_pems s a r else ok a))) (sym e)
        (by_files (load_pems s a r) (load_pems-Loads s a r))
  | inr e ↦
      subst (λ b. Starts c (after (if b then load_pems s a r else ok a))) (sym e)
        (by_daemon s.daemon)
]
  where
    by_daemon :
        (daemon : Option Refusal)
        → Starts c (elim daemon [
          | none ↦ ok (record r { daemon = open_now })
          | some why ↦ failed (refusal_text why) (record r { daemon = absent })
        ])
    by_daemon none = record {
      config = i.config;
      daemon = tt;
      no_lws = i.no_lws;
      template = i.template;
      no_thread = i.no_thread;
    }
    by_daemon (some why) =
        let j = starting-IsReady c r i in
        record { daemon = tt; lws = j.lws; template = j.template; thread = j.thread }

    after : Attempt Alloc → Attempt Runtime
    after m = m >>= λ a'. elim s.daemon [
      | none ↦ ok (record r { daemon = open_now })
      | some why ↦ failed (refusal_text why) (record r { daemon = absent })
    ]

    by_files : (m : Attempt Alloc) → Loads r m → Starts c (after m)
    by_files (ok a') h = by_daemon s.daemon
    by_files (failed message r') h = subst IsReady (sym h) (starting-IsReady c r i)
