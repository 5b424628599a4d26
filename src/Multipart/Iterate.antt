-- ===== src/Multipart/Iterate.antt =====
-- papago.c, multipart_iterator.
use libpapago.Prelude.{
  ℕ, ◌+◌, ◌-◌, ◌%◌, ◌^◌, Bool, true, false, not, List, [], ◌∷◌, ◌++◌, map, Option, none, some, ltb,
  ◌==◌, is_none, if◌then◌else◌, length, take, replicate,
}
use mathlib.Core.Option
use libpapago.Prelude.Text.{CString, truncated}
use libpapago.Alloc.{Alloc, malloc}
use libpapago.Growth.{grown}
use libpapago.Multipart.{Cells, Field, Session, dup_opt, settle}

-- One call of the iterator with a key: `first` is `off == 0`, and `temp`, `opens` and `writes` are what
-- mkstemp, fdopen and fwrite answer.
pub record Chunk : Type 0 where
  pub key : CString
  pub filename : Option CString
  pub content_type : Option CString
  pub bytes : List ℕ
  pub first : Bool
  pub temp : Option CString
  pub opens : Bool
  pub writes : Bool

-- The temporary file of a part that is a file: is it there, and the session.
unfoldable pub open_temp : Session → Chunk → Bool × Session
open_temp s c = elim c.temp [
  | none ↦ (false, record s { field = record s.field { tmp_path = [] } })
  | some path ↦
      if c.opens
      then (true, record s { field = record s.field { tmp_path = path; fp = some [] } })
      else (
        false,
        record s { field = record s.field { tmp_path = [] }; unlinked = s.unlinked ++ path ∷ [] },
      )
]

-- The start of a part, after the one before was settled.
unfoldable pub start_part : Session → Chunk → Alloc → Bool × Session × Alloc
start_part s c a =
    let (filename, a1) = dup_opt c.filename a in
    let (type, a2) = dup_opt c.content_type a1 in
    let named : Field = record s.field {
      key = truncated 256 c.key;
      is_file = not (is_none c.filename);
    } in
    let file : Field = record named { filename = filename; content_type = type; value_len = 0 } in
    let (ok, opened) = open_temp (record s { field = file }) c in
    if is_none c.filename then (true, record s { field = named }, a) else (ok, opened, a2)

-- `value` up to `value_len`, where a part of it may never have been written.
abbrev pub padded : Option Cells → ℕ → Cells
padded none len = replicate len none
padded (some cells) len = take len (cells ++ replicate (len - length cells) none)

abbrev pub add_size : ℕ → ℕ → ℕ
add_size a b = (a + b) % 2 ^ 64

-- The buffer's capacity for a need: what it was, or grown; false when the memory is exhausted.
unfoldable pub reserve : Field → ℕ → Alloc → Option (Bool × ℕ × Alloc)
reserve f need a =
    let (done, a') = malloc a in
    if ltb f.value_cap need
    then Option.map (λ (cap : ℕ). (done, cap, a')) (grown 4096 f.value_cap need)
    else some (true, f.value_cap, a)

-- The bytes of a text part.
unfoldable pub append_text : Session → List ℕ → Alloc → Option (Bool × Session × Alloc)
append_text s bytes a =
    let f = s.field in
    let len = add_size f.value_len (length bytes) in
    elim (reserve f (add_size len 1) a) [
      | none ↦ none
      | some (true, cap, a') ↦ some (
        true,
        record s {
          field = record f {
            value = some (padded f.value f.value_len ++ map some bytes);
            value_len = len;
            value_cap = cap;
          };
        },
        a',
      )
      | some (false, cap, a') ↦ some (false, s, a')
    ]

-- The bytes of a file.
unfoldable pub append_file : Session → List ℕ → Bool → Bool × Session
append_file s bytes writes = elim s.field.fp [
  | none ↦ (false, s)
  | some before ↦
      if writes
      then (
        true,
        record s {
          field = record s.field {
            fp = some (before ++ bytes);
            value_len = add_size s.field.value_len (length bytes);
          };
        },
      )
      else (false, s)
]

-- What follows the start of a part.
unfoldable pub append_bytes : Session → Chunk → Alloc → Option (Bool × Session × Alloc)
append_bytes s c a =
    let (ok, s') = append_file s c.bytes c.writes in
    if length c.bytes == 0
    then some (true, s, a)
    else if s.field.is_file
    then some (ok, s', a)
    else append_text s c.bytes a

-- After the part before was settled.
unfoldable pub begin_part : Session → Chunk → Alloc → Option (Bool × Session × Alloc)
begin_part s c a =
    let (ok, s', a') = start_part s c a in if ok then append_bytes s' c a' else some (false, s', a')

-- multipart_iterator with a field and a key: MHD_YES or MHD_NO.
unfoldable pub iterate : Session → Chunk → Alloc → Option (Bool × Session × Alloc)
iterate s c a = elim c.first [
  | false ↦ append_bytes s c a
  | true ↦ elim (settle s true a) [ none ↦ none | some (s', a') ↦ begin_part s' c a' ]
]
