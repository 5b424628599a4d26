-- ===== src/Route/Collapse.antt =====
-- What collapse_slashes computes: the segments of its input with one slash between them.
use libpapago.Prelude.{
  ℕ, ◌≡◌, ◌≢◌, refl, ap, ◌∙◌, Bool, true, false, List, [], ◌∷◌, ◌++◌, arith, ◌==◌, if◌then◌else◌,
  append_assoc, append-nil, inl, inr, Bool-cases,
}
use libpapago.Prelude.Text.{CString, in_token, push_byte, tokens, join, join_tail}
use libpapago.Route.{collapse_from, written, strip_slash}

-- The string that is left in the buffer.
abbrev pub collapsed : CString → CString
collapsed s = written (strip_slash (collapse_from [] s))

-- What is still to be written behind a byte of a segment.
glue : CString → CString
glue s = if in_token b'/' s then join b'/' (tokens b'/' s) else join_tail b'/' (tokens b'/' s)

join-push_byte :
    (c : ℕ) (t : CString) (ts : List CString) → join b'/' ((c ∷ t) ∷ ts) ≡ c ∷ join b'/' (t ∷ ts)
unfolding join
join-push_byte c t [] = refl
join-push_byte c t (u ∷ ts) = refl

join-nil_cons : (ts : List CString) → join b'/' ([] ∷ ts) ≡ join_tail b'/' ts
unfolding join join_tail
join-nil_cons [] = refl
join-nil_cons (t ∷ ts) = refl

join-push_byte-true :
    (c : ℕ) (ts : List CString) → join b'/' (push_byte c true ts) ≡ c ∷ join b'/' ts
unfolding push_byte
join-push_byte-true c [] = unfold join in refl
join-push_byte-true c (t ∷ ts) = join-push_byte c t ts

join-push_byte-false :
    (c : ℕ) (ts : List CString) → join b'/' (push_byte c false ts) ≡ c ∷ join_tail b'/' ts
unfolding push_byte
join-push_byte-false c ts = join-push_byte c [] ts ∙ ap (λ s. c ∷ s) (join-nil_cons ts)

-- A byte of a segment, then the rest.
join-tokens-cons : (c : ℕ) (s : CString) → c ≢ b'/' → join b'/' (tokens b'/' (c ∷ s)) ≡ c ∷ glue s
unfolding glue tokens
join-tokens-cons c s h =
    ground (arith, join-push_byte-true c (tokens b'/' s), join-push_byte-false c (tokens b'/' s))

tokens-slash : (s : CString) → tokens b'/' (b'/' ∷ s) ≡ tokens b'/' s
unfolding tokens
tokens-slash s = refl

glue-slash : (s : CString) → glue (b'/' ∷ s) ≡ join_tail b'/' (tokens b'/' s)
unfolding glue in_token
glue-slash s = rw (tokens-slash s)

glue-cons : (c : ℕ) (s : CString) → c ≢ b'/' → glue (c ∷ s) ≡ c ∷ glue s
unfolding glue in_token
glue-cons c s h = ground (arith, join-tokens-cons c s h)

push_byte_tail :
    (c : ℕ) (b : Bool) (ts : List CString)
    → join_tail b'/' (push_byte c b ts) ≡ b'/' ∷ join b'/' (push_byte c b ts)
unfolding push_byte join_tail
push_byte_tail c true [] = refl
push_byte_tail c true (t ∷ ts) = refl
push_byte_tail c false ts = refl

join_tail-tokens-cons :
    (c : ℕ) (s : CString) → c ≢ b'/' → join_tail b'/' (tokens b'/' (c ∷ s)) ≡ b'/' ∷ c ∷ glue s
unfolding tokens
join_tail-tokens-cons c s h =
    ground (arith, push_byte_tail c (in_token b'/' s) (tokens b'/' s), join-tokens-cons c s h)

written-cons : (o : ℕ) (out : List ℕ) → written (o ∷ out) ≡ written out ++ o ∷ []
unfolding written
written-cons o out = refl

written-then : (o : ℕ) (out : List ℕ) (s : CString) → written (o ∷ out) ++ s ≡ written out ++ o ∷ s
written-then o out s = rw (written-cons o out, append_assoc)

written-one : (o : ℕ) (s : CString) → written (o ∷ []) ++ s ≡ o ∷ s
unfolding written
written-one o s = refl

glue-nil : glue [] ≡ []
unfolding glue in_token join_tail tokens
glue-nil = refl

tail-nil : join_tail b'/' (tokens b'/' []) ≡ []
unfolding join_tail tokens
tail-nil = refl

-- What the buffer holds at the end, after a byte of a segment and after a slash.
collapse_from_word :
    (s : CString) (o : ℕ) (out : List ℕ)
    → o ≢ b'/'
    → (written (strip_slash (collapse_from (o ∷ out) s)) ≡ written (o ∷ out) ++ glue s)
      × (written (strip_slash (collapse_from (b'/' ∷ o ∷ out) s))
          ≡ written (o ∷ out) ++ join_tail b'/' (tokens b'/' s))
unfolding collapse_from strip_slash
collapse_from_word [] o out h = ground (arith, glue-nil, tail-nil, append-nil (written (o ∷ out)))
collapse_from_word (c ∷ s) o out h = elim (Bool-cases (c == b'/')) [
  | inl e ↦ ground (arith, collapse_from_word s o out h, glue-slash s, tokens-slash s)
  | inr e ↦ ground (
    arith,
    collapse_from_word s c (o ∷ out),
    collapse_from_word s c (b'/' ∷ o ∷ out),
    glue-cons c s,
    join_tail-tokens-cons c s,
    written-then c (o ∷ out) (glue s),
    written-then c (b'/' ∷ o ∷ out) (glue s),
    written-then b'/' (o ∷ out) (c ∷ glue s),
  )
]

-- collapse_slashes leaves the segments of its input, with one slash between them and none at the
-- ends.
pub collapsed-eq-join : (s : CString) → collapsed s ≡ join b'/' (tokens b'/' s)
unfolding collapse_from
collapsed-eq-join [] = unfold written strip_slash tokens join in refl
collapsed-eq-join (c ∷ s) = elim (Bool-cases (c == b'/')) [
  | inl e ↦ ground (arith, collapsed-eq-join s, tokens-slash s)
  | inr e ↦ ground (arith, collapse_from_word s c [], join-tokens-cons c s, written-one c (glue s))
]
