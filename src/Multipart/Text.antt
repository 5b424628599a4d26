-- ===== src/Multipart/Text.antt =====
-- What a text part leaves in the form, and what it leaves behind a file.
use libpapago.Prelude.{
  ℕ, ◌+◌, ◌^◌, ◌<◌, ◌≡◌, ◌≢◌, refl, sym, ap, ap₂, ◌∙◌, Bool, true, false, List, [], ◌∷◌, ◌++◌, map,
  Option, none, some, arith, length, length-append, take-short, append-nil, append_assoc,
}
use mathlib.Core.Path.{subst}
use libpapago.Prelude.Text.{CString, cstr, truncated}
use libpapago.Alloc.{Alloc}
use libpapago.Kv.Laws.{add_kv_plenty}
use libpapago.Multipart.Buffer.{Holds, Grows, append_bytes-Grows}
use libpapago.Multipart.Iterate.{Chunk, start_part, padded, append_bytes, begin_part, iterate}
use libpapago.Multipart.{
  Field, Session, read_text, field_text, closed_text, settle_text, is_idle, settle,
}

-- The chunks of a text part with this name.
abbrev pub text_chunk : Bool → CString → Option CString → List ℕ → Chunk
text_chunk first key type bytes = record {
  key = key;
  filename = none;
  content_type = type;
  bytes = bytes;
  first = first;
  temp = none;
  opens = false;
  writes = false;
}

-- The calls of the iterator for some chunks, as long as it answers MHD_YES.
unfoldable pub iterate_all : Session → List Chunk → Alloc → Option (Bool × Session × Alloc)
iterate_all s [] a = some (true, s, a)
iterate_all s (c ∷ cs) a = elim (iterate s c a) [
  | none ↦ none
  | some (true, s', a') ↦ iterate_all s' cs a'
  | some (false, s', a') ↦ some (false, s', a')
]

iterate_all-step :
    (s s' : Session) (c : Chunk) (cs : List Chunk)
    → iterate s c [] ≡ some (true, s', [])
    → iterate_all s (c ∷ cs) [] ≡ iterate_all s' cs []
unfolding iterate_all
iterate_all-step s s' c cs e = rw (e, iterate_all)

abbrev pub concat : List (List ℕ) → List ℕ
concat [] = []
concat (b ∷ bs) = b ++ concat bs

-- The chunks behind the first.
more-Grows :
    (s : Session) (before : List ℕ) (key : CString) (type : Option CString) (bs : List (List ℕ))
    → Holds s.field before
    → length before + length (concat bs) < 2 ^ 61
    → Grows s
        (before ++ concat bs)
        s.field.key
        (iterate_all s (map (text_chunk false key type) bs) [])
unfolding iterate
more-Grows s before key type [] h small =
    (s.field, unfold iterate_all in refl, subst (Holds s.field) (sym (append-nil before)) h, refl)
more-Grows s before key type (b ∷ bs) h small =
    let c = text_chunk false key type b in
    let sum = length-append b (concat bs) in
    let (f, step, held, name) = append_bytes-Grows s before c h (omega (arith, sum)) in
    let s' : Session = record s { field = f } in
    let (f', rest, held', name') =
      more-Grows s' (before ++ b) key type bs held (omega (arith, sum, length-append before b)) in
    (
      f',
      iterate_all-step s s' c (map (text_chunk false key type) bs) step ∙ rest,
      subst (Holds f') (append_assoc before b (concat bs)) held',
      name' ∙ name,
    )

-- No part is open, and nothing is left of the one before.
pub record IsFresh (f : Field) : Type 0 where
  pub key : f.key ≡ []
  pub no_file : f.is_file ≡ false
  pub no_value : f.value ≡ none
  pub no_len : f.value_len ≡ 0
  pub no_cap : f.value_cap ≡ 0

-- The field at the start of a text part.
abbrev pub named : Field → CString → Field
named f key = record f { key = truncated 256 key; is_file = false }

pub is_idle-empty : (f : Field) → f.key ≡ [] → f.is_file ≡ false → is_idle f ≡ true
unfolding is_idle
is_idle-empty f e n = rw (e, n, is_idle)

pub is_idle-named : (f : Field) (c : ℕ) (key : CString) → f.key ≡ c ∷ key → is_idle f ≡ false
unfolding is_idle
is_idle-named f c key e = rw (e, is_idle)

pub settle-idle :
    (s : Session) (commit : Bool) (a : Alloc)
    → is_idle s.field ≡ true
    → settle s commit a ≡ some (s, a)
unfolding settle
settle-idle s commit a e = rw e

pub settle-text :
    (s : Session) (commit : Bool) (a : Alloc)
    → is_idle s.field ≡ false
    → s.field.is_file ≡ false
    → settle s commit a ≡ settle_text s commit a
unfolding settle
settle-text s commit a e n = simp (e, n)

settle_text-commit :
    (s : Session) (text : CString)
    → field_text s.field.value ≡ some text
    → settle_text s true []
      ≡ some (
        record s {
          field = closed_text s.field;
          form = s.form ++ record { key = s.field.key; value = text } ∷ [];
        },
        [],
      )
unfolding settle_text
settle_text-commit s text e = rw (e, settle_text, add_kv_plenty s.form s.field.key text)

pub iterate-first :
    (s s' : Session) (c : Chunk) (a a' : Alloc)
    → c.first ≡ true
    → settle s true a ≡ some (s', a')
    → iterate s c a ≡ begin_part s' c a'
unfolding iterate
iterate-first s s' c a a' e h = simp (e, h, iterate)

pub begin_text :
    (s : Session) (key : CString) (type : Option CString) (bytes : List ℕ) (a : Alloc)
    → begin_part s (text_chunk true key type bytes) a
      ≡ append_bytes (record s { field = named s.field key }) (text_chunk true key type bytes) a
unfolding begin_part start_part
begin_text s key type bytes a = refl

named-Holds : (f : Field) (key : CString) → IsFresh f → Holds (named f key) []
unfolding field_text read_text cstr
named-Holds f key h = record {
  text = refl;
  cells = ap₂ padded h.no_value h.no_len;
  shown = ap field_text h.no_value;
  len = h.no_len;
  room = omega (arith, h.no_cap);
}

-- The name of a part as it is stored.
pub name_kept : (key : CString) → length key < 256 → truncated 256 key ≡ key
name_kept key h = take-short 255 key (omega arith)

-- A text part that starts with nothing left of the one before, in any number of chunks: the form gets
-- its name and the bytes of all chunks, in order, up to a first NUL; no memory is read that was never
-- written, and nothing is left for the next part. Its name is not empty and has fewer than 256 bytes,
-- it is shorter than 2^61 bytes, and no allocation fails.
pub settle-iterate_all :
    (s : Session) (key : CString) (type : Option CString) (b : List ℕ) (bs : List (List ℕ))
    → IsFresh s.field
    → key ≢ []
    → length key < 256
    → length b + length (concat bs) < 2 ^ 61
    → (s' : Session) × (f : Field) × (iterate_all s
          (text_chunk true key type b ∷ map (text_chunk false key type) bs)
          []
        ≡ some (true, s', []))
      × (settle s' true []
          ≡ some (
            record s {
              field = f;
              form = s.form ++ record { key = key; value = cstr (b ++ concat bs) } ∷ [];
            },
            [],
          ))
      × IsFresh f
settle-iterate_all s [] type b bs fresh ne short small = absurd (ne refl)
settle-iterate_all s (k ∷ key) type b bs fresh ne short small =
    let c = text_chunk true (k ∷ key) type b in
    let start : Session = record s { field = named s.field (k ∷ key) } in
    let (f1, step, held, name) =
      append_bytes-Grows start [] c (named-Holds s.field (k ∷ key) fresh) (omega arith) in
    let mid : Session = record s { field = f1 } in
    let (f2, rest, held', name') = more-Grows mid b (k ∷ key) type bs held small in
    let idle = settle-idle s true [] (is_idle-empty s.field fresh.key fresh.no_file) in
    let first = iterate-first s s c [] [] refl idle ∙ begin_text s (k ∷ key) type b [] ∙ step in
    let last : Session = record s { field = f2 } in
    let named2 : f2.key ≡ k ∷ key = name' ∙ name ∙ name_kept (k ∷ key) short in
    let settled =
      settle-text last true [] (is_idle-named f2 k key named2) held'.text
      ∙ settle_text-commit last (cstr (b ++ concat bs)) held'.shown in
    (
      last,
      closed_text f2,
      iterate_all-step s mid c (map (text_chunk false (k ∷ key) type) bs) first ∙ rest,
      settled
          ∙ ap
              (λ n. some (
                record s {
                  field = closed_text f2;
                  form = s.form ++ record { key = n; value = cstr (b ++ concat bs) } ∷ [];
                },
                [],
              ))
              named2,
      record { key = refl; no_file = refl; no_value = refl; no_len = refl; no_cap = refl },
    )
