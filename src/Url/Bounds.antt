-- ===== src/Url/Bounds.antt =====
-- The buffers of the encoder (three bytes for each of the input) and of the decoder suffice.
use libpapago.Prelude.{ℕ, ◌*◌, ◌≤◌, [], ◌∷◌, arith, length, length-append}
use libpapago.Prelude.Text.{CString}
use libpapago.Url.{encode_byte, encode, decode}

length-encode_byte : (c : ℕ) → length (encode_byte c) ≤ 3
unfolding encode_byte
length-encode_byte c = ground arith

-- The encoder writes at most three bytes for each byte of its input.
pub length-encode : (s : CString) → length (encode s) ≤ length s * 3
unfolding encode
length-encode [] = omega arith
length-encode (c ∷ s) =
    omega (arith, length-append (encode_byte c) (encode s), length-encode_byte c, length-encode s)

-- The decoder writes at most as many bytes as it reads.
pub length-decode : (s : CString) → length (decode s) ≤ length s
unfolding decode
length-decode [] = omega arith
length-decode (c ∷ []) = omega arith
length-decode (c ∷ x ∷ []) = omega arith
length-decode (c ∷ x ∷ y ∷ s) = ground (arith, length-decode s, length-decode (x ∷ y ∷ s))
