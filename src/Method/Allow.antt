-- ===== src/Method/Allow.antt =====
-- Parsing takes the name of a method back, and the Allow header lists exactly the allowed methods.
use libpapago.Prelude.{
  ℕ, ◌+◌, ◌-◌, ◌<◌, ◌≡◌, ◌≢◌, refl, true, false, ◌||◌, List, [], ◌∷◌, ◌++◌, some, arith, ltb, leb,
  ◌==◌, if◌then◌else◌, length, lt→ltb, length-append, append_assoc, append-nil, sym, All,
  Bool-cases, inl, inr,
}
use libpapago.Prelude.Text.{CString, str_eq, str_eq_iff, codes}
use libpapago.Method.{
  Method, get, post, connect, options, unknown, number, method_name, methods, find_method,
  parse_method, test_bit, set_bit, allow_from, allow_value, allow_size,
}

-- The name of a method parses as that method, and so does no other text.
pub parse_method-method_name : (m : Method) → m ≢ unknown → parse_method (some (method_name m)) ≡ m
unfolding parse_method method_name str_eq
parse_method-method_name get h = refl
parse_method-method_name unknown h = absurd (h refl)
parse_method-method_name _ h = refl

pub test_bit-set_bit :
    (allowed : ℕ) (m n : Method)
    → test_bit (set_bit allowed m) n ≡ (number m == number n || test_bit allowed n)
unfolding set_bit
test_bit-set_bit allowed get get = ground arith
test_bit-set_bit allowed get post = ground arith
test_bit-set_bit allowed options connect = ground arith
test_bit-set_bit allowed _ _ = ground arith

find_method-name :
    (table : List (CString × Method)) (s : CString) {m : Method}
    → All (λ entry. entry.0 ≡ method_name entry.1) table
    → find_method table s ≡ m
    → m ≢ unknown
    → s ≡ method_name m
unfolding find_method
find_method-name [] s h e ne = absurd (ne (sym e))
find_method-name ((name, n) ∷ table) s {m} h e ne = elim (Bool-cases (str_eq s name)) [
  | inl same ↦ ground (arith, (str_eq_iff s name).0 same)
  | inr other ↦ find_method-name table s h.1 (rw other at e) ne
]

-- Only the name of a method parses as a method: any other text is unknown.
pub parse_method_sound :
    (s : CString) (m : Method) → parse_method (some s) ≡ m → m ≢ unknown → s ≡ method_name m
unfolding parse_method method_name
parse_method_sound s m e ne =
    find_method-name methods s
      (refl, (refl, (refl, (refl, (refl, (refl, (refl, (refl, (refl, tt))))))))) e ne

-- The names of the allowed methods, in the order of the table.
unfoldable pub allowed_names : ℕ → List (CString × Method) → List CString
allowed_names allowed [] = []
allowed_names allowed ((name, m) ∷ rest) =
    if test_bit allowed m then name ∷ allowed_names allowed rest else allowed_names allowed rest

-- Each name with a comma and a space in front of it.
abbrev comma_tail : List CString → CString
comma_tail [] = []
comma_tail (name ∷ names) = codes ", " ++ (name ++ comma_tail names)

-- The names with a comma and a space between them.
unfoldable pub comma_list : List CString → CString
comma_list [] = []
comma_list (name ∷ names) = name ++ comma_tail names

-- The most that the entries still to come can add to the buffer.
abbrev room : List (CString × Method) → ℕ
room [] = 0
room ((name, m) ∷ rest) = length name + 2 + room rest

-- One round of the loop, for a method that is not allowed and for one whose text fits.
allow_from_skip :
    (name : CString) (m : Method) (rest : List (CString × Method)) (allowed : ℕ) (buf : CString)
    → test_bit allowed m ≡ false
    → allow_from ((name, m) ∷ rest) allowed buf ≡ allow_from rest allowed buf
unfolding allow_from
allow_from_skip name m rest allowed buf e = rw e

allow_from_add :
    (name : CString) (m : Method) (rest : List (CString × Method)) (allowed : ℕ) (buf : CString)
    → test_bit allowed m ≡ true
    → let text = (if ltb 0 (length buf) then codes ", " else []) ++ name in
      leb (allow_size - length buf) (length text) ≡ false
      → allow_from ((name, m) ∷ rest) allowed buf ≡ allow_from rest allowed (buf ++ text)
unfolding allow_from
allow_from_add name m rest allowed buf e fits = rw (e, fits)

separator :
    (buf : CString) → 0 < length buf → (if ltb 0 (length buf) then codes ", " else []) ≡ codes ", "
separator buf h = rw (lt→ltb 0 (length buf) h)

lt→leb_sub : (a b n : ℕ) → a + b < n → leb (n - a) b ≡ false
lt→leb_sub a b n h = ground arith

allow_from-comma_tail :
    (rest : List (CString × Method)) (allowed : ℕ) (buf : CString)
    → 0 < length buf
    → length buf + room rest < allow_size
    → allow_from rest allowed buf ≡ buf ++ comma_tail (allowed_names allowed rest)
unfolding allowed_names
allow_from-comma_tail [] allowed buf p h = unfold allow_from in sym (append-nil buf)
allow_from-comma_tail ((name, m) ∷ rest) allowed buf p h = elim (Bool-cases (test_bit allowed m)) [
  | inl e ↦
      let added = allow_from_add name m rest allowed buf e (
        rw (separator buf p)
          (lt→leb_sub (length buf) (length (codes ", " ++ name)) allow_size (omega arith))) in
      let long =
        allow_from-comma_tail rest allowed (buf ++ (codes ", " ++ name))
          (omega (arith, length-append buf (codes ", " ++ name)))
          (omega (arith, length-append buf (codes ", " ++ name))) in
      rw (e, added, separator buf p, long, append_assoc)
  | inr e ↦
      rw (e, allow_from_skip name m rest allowed buf e)
        (allow_from-comma_tail rest allowed buf p (omega arith))
]

IsNamed : List (CString × Method) → Type 0
IsNamed table = All (λ (entry : CString × Method). 0 < length entry.0) table

allow_from-comma_list :
    (rest : List (CString × Method)) (allowed : ℕ)
    → IsNamed rest
    → room rest < allow_size
    → allow_from rest allowed [] ≡ comma_list (allowed_names allowed rest)
unfolding IsNamed allowed_names comma_list
allow_from-comma_list [] allowed n h = unfold allow_from in refl
allow_from-comma_list ((name, m) ∷ rest) allowed n h = elim (Bool-cases (test_bit allowed m)) [
  | inl e ↦
      rw
        (
          e,
          allow_from_add name m rest allowed [] e
              (lt→leb_sub 0 (length name) allow_size (omega arith)),
        )
        (allow_from-comma_tail rest allowed name n.0 (omega arith))
  | inr e ↦
      rw (e, allow_from_skip name m rest allowed [] e)
        (allow_from-comma_list rest allowed n.1 (omega arith))
]

-- The Allow header lists the names of exactly the allowed methods, none of them cut off by the buffer
-- of 64 bytes.
pub allow_value_lem :
    (allowed : ℕ) → allow_value allowed ≡ comma_list (allowed_names allowed methods)
unfolding allow_value IsNamed
allow_value_lem allowed = allow_from-comma_list methods allowed (omega arith) (omega arith)
