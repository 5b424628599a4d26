-- ===== src/Lifecycle/DoubleStop.antt =====
-- When the context of libwebsockets cannot be created.
use libpapago.Prelude.{◌≡◌, ap, ◌∙◌, true, false, not, ◌&&◌, none, some, arith}
use libpapago.Prelude.Text.{codes}
use libpapago.Alloc.{Alloc}
use libpapago.Config.{Config, valid_config}
use libpapago.Lifecycle.{
  Runtime, Answers, Attempt, ok, failed, ◌>>=◌, start_template, start_daemon, stopped,
  start_websocket, start, release, destroy, left,
}
use libpapago.Lifecycle.Destroy.{valid_config_lem}

start_websocket-stopped :
    (s : Answers) (r : Runtime)
    → valid_config (some r.config) ≡ true
    → (not r.config.enable_ssl && r.config.require_client_cert) ≡ false
    → s.has_endpoints ≡ true
    → s.context_created ≡ false
    → start_websocket s r ≡ failed (codes "failed to create libwebsockets context") (stopped r)
unfolding start_websocket
start_websocket-stopped s r v f has none_created =
    let (g, h) = valid_config_lem r.config v in simp (has, f, g, h, none_created, start_websocket)

start-websocket :
    (s : Answers) (a : Alloc) (r r2 : Runtime)
    → (start_template s (record r { running = true }) >>= start_daemon s a) ≡ ok r2
    → start s a r ≡ start_websocket s r2
unfolding start
start-websocket s a r r2 e = by_template (start_template s (record r { running = true })) e
  where
    by_template :
        (m : Attempt Runtime)
        → (m >>= start_daemon s a) ≡ ok r2
        → (m >>= λ r1. start_daemon s a r1 >>= start_websocket s) ≡ start_websocket s r2
    by_template (ok r1) h = ap (λ n. n >>= start_websocket s) h
    by_template (failed message r1) h = absurd (cc)

-- A server with a websocket endpoint and a valid configuration, whose daemon was started: if the context
-- of libwebsockets cannot be created, papago_start fails, and then papago_destroy stops a second time
-- the daemon that papago_start has stopped.
pub destroy-start_twice :
    (s : Answers) (a : Alloc) (r r2 : Runtime)
    → (start_template s (record r { running = true }) >>= start_daemon s a) ≡ ok r2
    → valid_config (some r2.config) ≡ true
    → s.has_endpoints ≡ true
    → s.context_created ≡ false
    → (start s a r ≡ failed (codes "failed to create libwebsockets context") (stopped r2))
      × (destroy (left (start s a r)) ≡ none)
unfolding destroy release
destroy-start_twice s a r r2 e v has none_created =
    let q =
      start-websocket s a r r2 e
      ∙ start_websocket-stopped s r2 v (needs_ssl r2.config v) has none_created in
    (q, ap (λ m. destroy (left m)) q)
  where
    needs_ssl :
        (c : Config)
        → valid_config (some c) ≡ true
        → (not c.enable_ssl && c.require_client_cert) ≡ false
    needs_ssl c h = unfold valid_config in ground arith
