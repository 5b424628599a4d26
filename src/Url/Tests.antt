-- ===== src/Url/Tests.antt =====
-- The encoder and the decoder of papago.c on concrete strings.
use libpapago.Prelude.{◌<◌, ◌≡◌, refl, All, arith}
use libpapago.Prelude.Text.{CString, codes}
use libpapago.Url.{encode, decode}
use libpapago.Url.RoundTrip.{decode-encode}

abbrev text : CString
text = codes "a b/%"

bytes : All (λ c. c < 256) text
bytes = (omega arith, (omega arith, (omega arith, (omega arith, (omega arith, tt)))))

encoded : encode text ≡ codes "a+b%2F%25"
unfolding encode
encoded = refl

decode-encode_example : decode (encode text) ≡ text
decode-encode_example = decode-encode text bytes
