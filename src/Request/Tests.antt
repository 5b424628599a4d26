-- ===== src/Request/Tests.antt =====
-- The headers of papago.c on a request that has one.
use libpapago.Prelude.{[], ◌∷◌}
use libpapago.Prelude.Text.{codes}
use libpapago.Method.{get}
use libpapago.Request.{Request, new_request}

abbrev request : Request
request = record (new_request get (codes "/")) {
  headers = record { key = codes "host"; value = codes "a" } ∷ [];
}
