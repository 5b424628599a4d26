-- ===== src/Client/Tests.antt =====
-- A response with two headers and a body in two parts.
use libpapago.Prelude.{◌≡◌, refl, true, List, [], ◌∷◌, map, some, arith}
use libpapago.Prelude.Text.{codes}
use libpapago.Kv.{success}
use libpapago.Client.{Header}
use libpapago.Client.Headers.{
  IsHeader, ServerLine, status, field, blank, line_bytes, fields_of, newest_first,
}
use libpapago.Client.Refs.{new_client}
use libpapago.Client.Send.{Setting, Transfer, http_send, get_request}
use libpapago.Client.Transfer.{http_send_lem}

abbrev host : Header
host = record { key = codes "A"; value = codes "b" }

abbrev kind : Header
kind = record { key = codes "C"; value = [] }

-- An interim response, whose status line has a colon, and the final one.
abbrev received : List ServerLine
received =
    status (codes "1.1 100 Continue: go\r\n")
    ∷ blank
    ∷ status (codes "1.1 200 OK\r\n")
    ∷ field host
    ∷ field kind
    ∷ blank
    ∷ []

abbrev answer : List Setting → Transfer
answer options = record {
  lines = map line_bytes received;
  parts = codes "he" ∷ codes "llo" ∷ [];
  completed = true;
  code = 200;
}

host-IsHeader : IsHeader host
host-IsHeader = record {
  key_bytes = ((omega arith, λ e. absurd (omega arith), λ e. absurd (omega arith), refl), tt);
  value_bytes = ((omega arith, refl), tt);
  no_blank = refl;
}

kind-IsHeader : IsHeader kind
kind-IsHeader = record {
  key_bytes = ((omega arith, λ e. absurd (omega arith), λ e. absurd (omega arith), refl), tt);
  value_bytes = tt;
  no_blank = refl;
}

http_send_lem_example :
    http_send answer new_client [] (get_request (codes "http://h/")) []
    ≡ some (
      success,
      record {
        status_code = 200;
        body = codes "hello";
        body_len = 5;
        headers = newest_first (fields_of received);
      },
      [],
    )
http_send_lem_example =
    http_send_lem answer new_client [] (get_request (codes "http://h/")) received
      (codes "he" ∷ codes "llo" ∷ []) refl refl
      (tt, (tt, (tt, (host-IsHeader, (kind-IsHeader, (tt, tt)))))) (omega arith)
