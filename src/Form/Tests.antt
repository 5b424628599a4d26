-- ===== src/Form/Tests.antt =====
-- The form parser of papago.c on a concrete body.
use libpapago.Prelude.{◌≡◌, List, [], ◌∷◌, some, All, length, arith}
use libpapago.Prelude.Text.{codes}
use libpapago.Kv.{Kv}
use libpapago.Form.{form_body_parser}
use libpapago.Form.RoundTrip.{encode_form, IsTextKv, form_body_parser-encode_form}

abbrev pairs : List Kv
pairs =
    record { key = codes "q"; value = codes "&" }
    ∷ record { key = codes "n"; value = codes "" }
    ∷ []

pairs-text : All IsTextKv pairs
pairs-text = (
  (((omega arith, omega arith), tt), ((omega arith, omega arith), tt)),
  ((((omega arith, omega arith), tt), tt), tt),
)

form_body_parser-encode_form_example :
    form_body_parser [] (some (encode_form pairs)) (length (encode_form pairs)) [] ≡ (pairs, [])
form_body_parser-encode_form_example = form_body_parser-encode_form [] pairs pairs-text
