-- ===== src/Lifecycle/Tests.antt =====
-- A server with one websocket endpoint and no SSL.
use libpapago.Prelude.{◌≡◌, refl, true, false, [], none, some}
use libpapago.Prelude.Text.{codes}
use libpapago.Config.{config_new, valid_config}
use libpapago.Lifecycle.{
  Runtime, FileRead, Answers, ok, failed, ◌>>=◌, initial, new, open_now, start_template,
  start_daemon, stopped, start, destroy, left,
}
use libpapago.Lifecycle.Destroy.{IsOver, destroy-start}
use libpapago.Lifecycle.DoubleStop.{destroy-start_twice}

abbrev no_file : FileRead
no_file = record { opened = false; size = none; bytes = [] }

abbrev answers : Answers
answers = record {
  template_done = true;
  files = λ path. no_file;
  daemon = none;
  has_endpoints = true;
  context_created = true;
}

is_made : new (some config_new) [] ≡ (some (initial config_new), [])
unfolding new config_new valid_config
is_made = refl

destroy-start_example :
    (r : Runtime) × (destroy (left (start answers [] (initial config_new))) ≡ some r) × IsOver r
destroy-start_example = destroy-start config_new [] [] [] (initial config_new) answers is_made refl

abbrev no_context : Answers
no_context = record answers { context_created = false }

abbrev begun : Runtime
begun = record (initial config_new) { running = true; daemon = open_now }

is_begun :
    (start_template no_context (record (initial config_new) { running = true })
      >>= start_daemon no_context [])
    ≡ ok begun
unfolding start_template start_daemon config_new
is_begun = refl

is_valid : valid_config (some config_new) ≡ true
unfolding valid_config config_new
is_valid = refl

destroy-start_twice_example :
    (start no_context [] (initial config_new)
      ≡ failed (codes "failed to create libwebsockets context") (stopped begun))
    × (destroy (left (start no_context [] (initial config_new))) ≡ none)
destroy-start_twice_example =
    destroy-start_twice no_context [] (initial config_new) begun is_begun is_valid refl refl
