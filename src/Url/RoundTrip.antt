-- ===== src/Url/RoundTrip.antt =====
-- Decoding takes an encoded string back.
use libpapago.Prelude.{
  ℕ, ◌+◌, ◌*◌, ◌/◌, ◌%◌, ◌≤◌, ◌<◌, ◌≡◌, ◌≢◌, refl, true, [], ◌∷◌, ◌++◌, some, arith, ◌==◌, All,
  All-append, ap, ◌∙◌, ◌⊎◌, inl, inr, Bool-cases,
}
use libpapago.Prelude.Text.{CString}
use libpapago.Url.{
  is_unreserved, hex_digit, encode_byte, encode, is_space, hex_value, scan_second, scan_field,
  scan_hex, decode_plain, decode,
}

hex_value-hex_digit : (x : ℕ) → x < 16 → hex_value (hex_digit x) ≡ some x
unfolding hex_value hex_digit
hex_value-hex_digit x h = ground arith

hex_digit_bounds : (x : ℕ) → x < 16 → (48 ≤ hex_digit x) × (hex_digit x ≤ 70)
unfolding hex_digit
hex_digit_bounds x h = ground arith

scan_hex-hex_digit :
    (x y : ℕ) (s : CString)
    → x < 16
    → y < 16
    → scan_hex (hex_digit x ∷ hex_digit y ∷ s) ≡ some (x * 16 + y)
unfolding scan_hex scan_field scan_second is_space
scan_hex-hex_digit x y s h k =
    ground
      (arith, hex_digit_bounds x, hex_digit_bounds y, hex_value-hex_digit x, hex_value-hex_digit y)

decode-escape :
    (c : ℕ) (s : CString)
    → c < 256
    → decode (b'%' ∷ hex_digit (c / 16) ∷ hex_digit (c % 16) ∷ s) ≡ c ∷ decode s
unfolding decode
decode-escape c s h =
    ground (arith, scan_hex-hex_digit (c / 16) (c % 16) s (omega arith) (omega arith))

decode-plain : (c : ℕ) (s : CString) → c ≢ b'%' → decode (c ∷ s) ≡ decode_plain c ∷ decode s
unfolding decode
decode-plain c [] h = refl
decode-plain c (x ∷ []) h = refl
decode-plain c (x ∷ y ∷ s) h = ground arith

decode-encode_byte : (c : ℕ) (s : CString) → c < 256 → decode (encode_byte c ++ s) ≡ c ∷ decode s
unfolding encode_byte is_unreserved decode_plain
decode-encode_byte c s h = ground (arith, decode-escape c s, decode-plain c s, decode-plain b'+' s)

-- Decoding an encoded string gives the string back, for every string of bytes.
pub decode-encode : (s : CString) → All (λ c. c < 256) s → decode (encode s) ≡ s
unfolding encode
decode-encode [] h = unfold decode in refl
decode-encode (c ∷ s) h =
    decode-encode_byte c (encode s) h.0 ∙ ap (λ t. c ∷ t) (decode-encode s h.1)

-- The bytes that an encoded string holds.
abbrev pub IsEncoded : ℕ → Type 0
IsEncoded c = (is_unreserved c ≡ true) ⊎ ((c ≡ b'+') ⊎ (c ≡ b'%'))

hex_digit-is_unreserved : (x : ℕ) → x < 16 → is_unreserved (hex_digit x) ≡ true
unfolding is_unreserved hex_digit
hex_digit-is_unreserved x h = ground arith

encode_byte-IsEncoded : (c : ℕ) → c < 256 → All IsEncoded (encode_byte c)
unfolding encode_byte
encode_byte-IsEncoded c h = elim (Bool-cases (is_unreserved c)) [
  | inl e ↦ rw e (inl e, tt)
  | inr e ↦ rw e (elim (Bool-cases (c == 32)) [
    | inl f ↦ rw f (inr (inl refl), tt)
    | inr f ↦ rw f (
      inr (inr refl),
      (
        inl (hex_digit-is_unreserved (c / 16) (omega arith)),
        (inl (hex_digit-is_unreserved (c % 16) (omega arith)), tt),
      ),
    )
  ])
]

-- Every byte of an encoded string is unreserved, `+` or `%`.
pub encode-IsEncoded : (s : CString) → All (λ c. c < 256) s → All IsEncoded (encode s)
unfolding encode
encode-IsEncoded [] h = tt
encode-IsEncoded (c ∷ s) h =
    All-append IsEncoded (encode_byte c) (encode s) (encode_byte-IsEncoded c h.0)
      (encode-IsEncoded s h.1)
