-- ===== src/Form/RoundTrip.antt =====
-- A body made of encoded pairs is parsed into those pairs.
use libpapago.Prelude.{
  ℕ, ◌<◌, ◌≡◌, ◌≢◌, refl, List, [], ◌∷◌, ◌++◌, map, some, arith, length, All, All-append,
  append-nil, append_assoc, length-append,
}
use libpapago.Prelude.Text.{
  CString, cstr_text, IsText, IsText-bytes, IsText-pos, join, IsToken, tokens-join,
}
use libpapago.Kv.{Kv, success, add_kv}
use libpapago.Kv.Laws.{add_kv_n_plenty}
use libpapago.Url.{is_unreserved, encode, decode, url_decode}
use libpapago.Url.RoundTrip.{decode-encode, IsEncoded, encode-IsEncoded}
use libpapago.Form.{split_eq, store, form_pair, form_pairs, form_body_parser}

-- `key=value`, both encoded; and a body of such pairs with `&` between them.
abbrev pub encode_pair : Kv → CString
encode_pair kv = encode kv.key ++ b'=' ∷ encode kv.value

abbrev pub encode_form : List Kv → CString
encode_form kvs = join b'&' (map encode_pair kvs)

abbrev pub IsTextKv : Kv → Type 0
IsTextKv kv = IsText kv.key × IsText kv.value

IsEncoded-ne : (c : ℕ) → IsEncoded c → (0 < c) × (c ≢ b'=') × (c ≢ b'&')
unfolding is_unreserved
IsEncoded-ne c h = ground arith

module _ (P Q : ℕ → Type 0) (f : (c : ℕ) → P c → Q c) where
  All-map : (s : CString) → All P s → All Q s
  All-map [] h = tt
  All-map (c ∷ s) h = (f c h.0, All-map s h.1)

split_eq-append : (s v : CString) → All IsEncoded s → split_eq (s ++ b'=' ∷ v) ≡ some (s, v)
unfolding split_eq
split_eq-append [] v h = refl
split_eq-append (c ∷ s) v h = ground (arith, split_eq-append s v h.1, IsEncoded-ne c h.0)

add_kv_fresh :
    (form : List Kv) (kv : Kv)
    → add_kv form (some kv.key) (some kv.value) [] ≡ (success, form ++ kv ∷ [], [])
unfolding add_kv
add_kv_fresh form kv = add_kv_n_plenty form kv.key kv.value

url_decode_fresh : (s : CString) → url_decode (some s) [] ≡ (some (decode s), [])
unfolding url_decode
url_decode_fresh s = refl

form_pair-encode_pair :
    (form : List Kv) (kv : Kv)
    → IsTextKv kv
    → form_pair form (encode_pair kv) [] ≡ (form ++ kv ∷ [], [])
unfolding form_pair store
form_pair-encode_pair form kv h =
    let key = IsText-bytes kv.key h.0 in
    let value = IsText-bytes kv.value h.1 in
    ground (
      arith,
      split_eq-append (encode kv.key) (encode kv.value) (encode-IsEncoded kv.key key),
      url_decode_fresh (encode kv.key),
      url_decode_fresh (encode kv.value),
      decode-encode kv.key key,
      decode-encode kv.value value,
      cstr_text kv.key (IsText-pos kv.key h.0),
      cstr_text kv.value (IsText-pos kv.value h.1),
      add_kv_fresh form kv,
    )

form_pairs-encode_pair :
    (form kvs : List Kv)
    → All IsTextKv kvs
    → form_pairs form (map encode_pair kvs) [] ≡ (form ++ kvs, [])
unfolding form_pairs
form_pairs-encode_pair form [] h = rw append-nil
form_pairs-encode_pair form (kv ∷ kvs) h = ground (
  arith,
  form_pair-encode_pair form kv h.0,
  form_pairs-encode_pair (form ++ kv ∷ []) kvs h.1,
  append_assoc form (kv ∷ []) kvs,
)

-- A byte of an encoded pair.
abbrev IsPairByte : ℕ → Type 0
IsPairByte c = (0 < c) × (c ≢ b'&')

encode-IsPairByte : (s : CString) → IsText s → All IsPairByte (encode s)
encode-IsPairByte s h =
    All-map IsEncoded IsPairByte (λ c e. let (p, _, q) = IsEncoded-ne c e in (p, q)) (encode s)
      (encode-IsEncoded s (IsText-bytes s h))

encode_pair-IsPairByte : (kv : Kv) → IsTextKv kv → All IsPairByte (encode_pair kv)
encode_pair-IsPairByte kv h =
    All-append IsPairByte (encode kv.key) (b'=' ∷ encode kv.value) (encode-IsPairByte kv.key h.0)
      ((omega arith, omega arith), encode-IsPairByte kv.value h.1)

IsToken-append : (s t : CString) (c : ℕ) → All IsPairByte (s ++ c ∷ t) → IsToken b'&' (s ++ c ∷ t)
IsToken-append [] t c h = (h.0.1, All-map IsPairByte (λ b. b ≢ b'&') (λ b p. p.1) t h.1)
IsToken-append (d ∷ s) t c h =
    (h.0.1, All-map IsPairByte (λ b. b ≢ b'&') (λ b p. p.1) (s ++ c ∷ t) h.1)

map-encode_pair-IsToken :
    (kvs : List Kv) → All IsTextKv kvs → All (IsToken b'&') (map encode_pair kvs)
map-encode_pair-IsToken [] h = tt
map-encode_pair-IsToken (kv ∷ kvs) h = (
  IsToken-append (encode kv.key) (encode kv.value) b'=' (encode_pair-IsPairByte kv h.0),
  map-encode_pair-IsToken kvs h.1,
)

encode_form-pos : (kvs : List Kv) → All IsTextKv kvs → All (λ c. 0 < c) (encode_form kvs)
unfolding join
encode_form-pos [] h = tt
encode_form-pos (kv ∷ []) h =
    All-map IsPairByte (λ c. 0 < c) (λ b p. p.0) (encode_pair kv) (encode_pair-IsPairByte kv h.0)
encode_form-pos (kv ∷ kv' ∷ kvs) h =
    All-append (λ c. 0 < c) (encode_pair kv) (b'&' ∷ encode_form (kv' ∷ kvs))
      (All-map IsPairByte (λ c. 0 < c) (λ b p. p.0) (encode_pair kv)
        (encode_pair-IsPairByte kv h.0))
      (omega arith, encode_form-pos (kv' ∷ kvs) h.1)

encode_form-ne-nil : (kv : Kv) (kvs : List Kv) → length (encode_form (kv ∷ kvs)) ≢ 0
unfolding join
encode_form-ne-nil kv [] = omega (arith, length-append (encode kv.key) (b'=' ∷ encode kv.value))
encode_form-ne-nil kv (kv' ∷ kvs) = omega (
  arith,
  length-append (encode_pair kv) (b'&' ∷ encode_form (kv' ∷ kvs)),
  length-append (encode kv.key) (b'=' ∷ encode kv.value),
)

-- Parsing the body that encodes a list of pairs adds exactly those pairs to the form, in order, when
-- no allocation fails.
pub form_body_parser-encode_form :
    (form kvs : List Kv)
    → All IsTextKv kvs
    → form_body_parser form (some (encode_form kvs)) (length (encode_form kvs)) []
      ≡ (form ++ kvs, [])
unfolding form_body_parser
form_body_parser-encode_form form [] h = unfold join in rw append-nil
form_body_parser-encode_form form (kv ∷ kvs) h =
    let all = kv ∷ kvs in
    ground (
      arith,
      cstr_text (encode_form all) (encode_form-pos all h),
      tokens-join b'&' (map encode_pair all) (map-encode_pair-IsToken all h),
      form_pairs-encode_pair form all h,
      append-nil form,
      encode_form-ne-nil kv kvs,
    )
