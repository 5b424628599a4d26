-- ===== src/Method/Tests.antt =====
-- The method table of papago.c on concrete masks and texts.
use libpapago.Prelude.{◌≡◌, ◌≢◌, refl, some}
use libpapago.Prelude.Text.{codes, str_eq}
use libpapago.Method.{post, unknown, find_method, parse_method}

parsed : parse_method (some (codes "POST")) ≡ post
unfolding parse_method find_method str_eq
parsed = refl

post-known : post ≢ unknown
post-known e = absurd (cc)
