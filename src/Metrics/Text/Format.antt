-- ===== src/Metrics/Text/Format.antt =====
-- The lengths of what the formats of the metrics print.
use libpapago.Prelude.{
  ℕ, zero, suc, ◌+◌, ◌*◌, ◌/◌, ◌%◌, ◌^◌, ◌≤◌, ◌<◌, ◌≡◌, refl, ap, sym, ◌∙◌, true, false, List, [],
  ◌∷◌, ◌++◌, some, arith, All, ltb, leb, length, length-append, append-nil, append_assoc,
  Bool-cases, inl, inr,
}
use native.Mathlib.Nat.{pow-suc}
use libpapago.Prelude.Text.{CString, decimal_from, decimal}
use libpapago.Metrics.Text.{metrics_buf_size, Piece, lit, num, shown, format, print, print_sections}

-- A number below 10^k has k digits at most.
length-decimal_from : (fuel k n : ℕ) → n < 10 ^ suc k → length (decimal_from fuel n) ≤ suc k
unfolding decimal_from
length-decimal_from zero k n h = omega arith
length-decimal_from (suc fuel) zero n h =
    let one : ltb n 10 ≡ true = ground arith in rw one (omega arith)
length-decimal_from (suc fuel) (suc k) n h =
    let power : 10 ^ suc (suc k) ≡ 10 ^ suc k * 10 = pow-suc 10 (suc k) in
    let ih = length-decimal_from fuel k (n / 10) (omega (arith, power)) in
    let sum = length-append (decimal_from fuel (n / 10)) ((48 + n % 10) ∷ []) in
    elim (Bool-cases (ltb n 10)) [
      | inl e ↦ rw e (omega arith)
      | inr e ↦ rw e (omega (arith, ih, sum))
    ]

pub length-decimal : (n : ℕ) → n < 2 ^ 64 → length (decimal n) ≤ 20
unfolding decimal
length-decimal n h = length-decimal_from (suc n) 19 n (omega arith)

-- The room that a format is given: 20 characters for a number.
abbrev pub room : List Piece → ℕ
room [] = 0
room (lit s ∷ ps) = length s + room ps
room (num n ∷ ps) = 20 + room ps
room (shown s ∷ ps) = length s + room ps

abbrev pub AreShort : List Piece → Type 0
AreShort [] = Unit
AreShort (lit s ∷ ps) = AreShort ps
AreShort (num n ∷ ps) = (n < 2 ^ 64) × AreShort ps
AreShort (shown s ∷ ps) = AreShort ps

pub length-format : (ps : List Piece) → AreShort ps → length (format ps) ≤ room ps
unfolding format
length-format [] h = omega arith
length-format (lit s ∷ ps) h = omega (arith, length-append s (format ps), length-format ps h)
length-format (num n ∷ ps) h =
    omega (arith, length-append (decimal n) (format ps), length-decimal n h.0, length-format ps h.1)
length-format (shown s ∷ ps) h = omega (arith, length-append s (format ps), length-format ps h)

pub print-fits :
    (out : CString) (ps : List Piece)
    → length out + length (format ps) < metrics_buf_size
    → print out ps ≡ some (out ++ format ps)
unfolding print
print-fits out ps h =
    let ok : leb metrics_buf_size (length out + length (format ps)) ≡ false = ground arith in
    rw ok refl

abbrev pub texts : List (List Piece) → CString
texts [] = []
texts (ps ∷ rest) = format ps ++ texts rest

abbrev pub rooms : List (List Piece) → ℕ
rooms [] = 0
rooms (ps ∷ rest) = room ps + rooms rest

pub length-texts : (ss : List (List Piece)) → All AreShort ss → length (texts ss) ≤ rooms ss
length-texts [] h = omega arith
length-texts (ps ∷ rest) h =
    omega
      (arith, length-append (format ps) (texts rest), length-format ps h.0, length-texts rest h.1)

pub print_sections-fits :
    (out : CString) (ss : List (List Piece))
    → All AreShort ss
    → length out + rooms ss < metrics_buf_size
    → print_sections out ss ≡ some (out ++ texts ss)
unfolding print_sections
print_sections-fits out [] h small = ap some (sym (append-nil out))
print_sections-fits out (ps ∷ rest) h small =
    let short = length-format ps h.0 in
    let sum = length-append out (format ps) in
    let ih = print_sections-fits (out ++ format ps) rest h.1 (omega (arith, short, sum)) in
    rw (print-fits out ps (omega (arith, short)), print_sections)
      (ih ∙ ap some (append_assoc out (format ps) (texts rest)))
