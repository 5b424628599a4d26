-- ===== src/Multipart/Stale.antt =====
-- A text part that comes after a file.
use libpapago.Prelude.{
  ℕ, zero, suc, ◌^◌, ◌≤◌, ◌<◌, ◌≡◌, ◌≢◌, refl, ap, ◌∙◌, true, false, List, [], ◌∷◌, ◌++◌, map,
  Option, none, some, arith, ◌==◌, length,
}
use libpapago.Prelude.Text.{CString}
use libpapago.Alloc.{Alloc}
use libpapago.Multipart.Iterate.{begin_part, iterate, padded, add_size}
use libpapago.Multipart.{
  Cells, dup_opt, commit_file, settle_file, closed_file, Field, Session, read_text, field_text,
  settle_text, settle, is_idle,
}
use libpapago.Multipart.Buffer.{append_bytes-text, reserve_lem, appended, append_text-reserved}
use libpapago.Multipart.Text.{
  text_chunk, named, settle-text, is_idle-named, iterate-first, begin_text, name_kept,
}

-- A file is open that has received some bytes, with no text left over.
pub record IsOpenFile (f : Field) : Type 0 where
  pub file : f.is_file ≡ true
  pub no_value : f.value ≡ none
  pub received : 0 < f.value_len
  pub bounded : f.value_len < 2 ^ 60
  pub no_cap : f.value_cap ≡ 0

dup_opt-alloc : (o : Option CString) → (dup_opt o []).1 ≡ []
unfolding dup_opt
dup_opt-alloc none = refl
dup_opt-alloc (some s) = refl

settle_file-alloc : (s : Session) → (settle_file s true []).1 ≡ []
unfolding settle_file commit_file
settle_file-alloc s =
    rw
      (
        dup_opt-alloc (some s.field.key),
        dup_opt-alloc s.field.filename,
        dup_opt-alloc s.field.content_type,
      )
      (dup_opt-alloc (some s.field.tmp_path))

settle_file-field : (s : Session) (a : Alloc) → (settle_file s true a).0.field ≡ closed_file s.field
unfolding settle_file
settle_file-field s a = refl

settle-file :
    (s : Session) (a : Alloc)
    → s.field.is_file ≡ true
    → settle s true a ≡ some (settle_file s true a)
unfolding settle is_idle
settle-file s a e = ground arith

settle_text-fault : (s : Session) → field_text s.field.value ≡ none → settle_text s true [] ≡ none
unfolding settle_text
settle_text-fault s e = rw (e, settle_text)

-- The first byte of such a buffer was never written.
stale_text :
    (value : Option Cells) (len : ℕ) (bytes : List ℕ)
    → value ≡ none
    → 0 < len
    → field_text (some (padded value len ++ map some bytes)) ≡ none
unfolding field_text read_text
stale_text value zero bytes e h = absurd (omega arith)
stale_text value (suc len) bytes e h = rw e

-- The first text part after a file that received any bytes: its bytes are accepted, and storing them
-- reads memory that was never written, since the length of the file is kept as the offset of the text.
-- The sizes are below 2^60, and no allocation fails.
pub iterate-after_file :
    (s : Session) (key : CString) (type : Option CString) (bytes : List ℕ)
    → IsOpenFile s.field
    → key ≢ []
    → length key < 256
    → 0 < length bytes
    → length bytes < 2 ^ 60
    → (s' : Session) × (iterate s (text_chunk true key type bytes) [] ≡ some (true, s', []))
      × (settle s' true [] ≡ none)
iterate-after_file s [] type bytes h ne short some_bytes small = absurd (ne refl)
iterate-after_file s (k ∷ key) type bytes h ne short some_bytes small =
    let c = text_chunk true (k ∷ key) type bytes in
    let after = (settle_file s true []).0 in
    let start : Session = record after { field = named after.field (k ∷ key) } in
    let need : add_size (add_size start.field.value_len (length bytes)) 1 ≤ 2 ^ 62 =
      omega (arith, h.bounded, settle_file-len s) in
    let (cap, r, fits) =
      reserve_lem start.field (add_size (add_size start.field.value_len (length bytes)) 1)
        (omega (arith, h.no_cap, settle_file-cap s)) need in
    let end : Session = record start { field = appended start.field bytes cap } in
    let first =
      iterate-first s after c [] (settle_file s true []).1 refl (settle-file s [] h.file) in
    let alloc = ap (begin_part after c) (settle_file-alloc s) in
    let step =
      begin_text after (k ∷ key) type bytes []
      ∙ append_bytes-text start c [] (has_bytes bytes some_bytes) refl
      ∙ append_text-reserved start bytes cap r in
    (
      end,
      first ∙ alloc ∙ step,
      settle-text end true [] (is_idle-named end.field k key (name_kept (k ∷ key) short)) refl
          ∙ settle_text-fault end (
              stale_text start.field.value start.field.value_len bytes
                (ap (λ (f : Field). f.value) (settle_file-field s []) ∙ h.no_value)
                (omega (arith, h.received, settle_file-len s))),
    )
  where
    has_bytes : (bytes : List ℕ) → 0 < length bytes → (length bytes == 0) ≡ false
    has_bytes bytes p = ground arith

    settle_file-len : (s : Session) → (settle_file s true []).0.field.value_len ≡ s.field.value_len
    settle_file-len s = ap (λ (f : Field). f.value_len) (settle_file-field s [])

    settle_file-cap : (s : Session) → (settle_file s true []).0.field.value_cap ≡ s.field.value_cap
    settle_file-cap s = ap (λ (f : Field). f.value_cap) (settle_file-field s [])
