-- ===== src/Multipart.antt =====
-- papago.c, multipart uploads: multipart_field_t, papago_file_upload_t and
-- multipart_proc_current_field. The post processor of libmicrohttpd, which calls the iterator, and the
-- temporary files are arguments.
pub mod Iterate
pub mod Requested
pub mod Buffer
pub mod Text
pub mod Stale
pub mod Files
pub mod Completed
pub mod Spool
pub mod Outcome
pub mod Unlinked
mod Tests
use libpapago.Prelude.{
  ℕ, zero, suc, ◌+◌, ◌-◌, ◌%◌, ◌^◌, Bool, true, false, not, ◌&&◌, List, [], ◌∷◌, ◌++◌, map, Option,
  none, some, ltb, ◌==◌, is_none, if◌then◌else◌, length, take, replicate, set,
}
use mathlib.Core.Option
use libpapago.Prelude.Text.{CString, str_eq, truncated}
use libpapago.Alloc.{Alloc, malloc}
use libpapago.Kv.{Kv, add_kv}
use libpapago.Growth.{grown}

-- The bytes before `value_len` of a buffer; `none` is a byte that was never written.
abbrev pub Cells : Type 0
Cells = List (Option ℕ)

-- `multipart_field_t`; `fp` holds what was written to the open temporary file.
pub record Field : Type 0 where
  pub key : CString
  pub value : Option Cells
  pub value_len : ℕ
  pub value_cap : ℕ
  pub filename : Option CString
  pub content_type : Option CString
  pub tmp_path : CString
  pub fp : Option (List ℕ)
  pub is_file : Bool

-- `papago_file_upload_t`, with what its temporary file holds.
pub record FileUpload : Type 0 where
  pub field_name : CString
  pub filename : Option CString
  pub content_type : Option CString
  pub tmp_path : CString
  pub size : ℕ
  pub contents : List ℕ

-- What the iterator changes: the current field, the form, the files, newest first, and the temporary
-- files that were unlinked.
pub record Session : Type 0 where
  pub field : Field
  pub form : List Kv
  pub files : List FileUpload
  pub unlinked : List CString

-- `_strdup`
unfoldable pub dup_opt : Option CString → Alloc → Option CString × Alloc
dup_opt none a = (none, a)
dup_opt (some s) a = let (done, a') = malloc a in (if done then some s else none, a')

-- `if (tmp_path[0] != '\0') unlink(tmp_path)`
unfoldable pub unlink_tmp : Session → Session
unlink_tmp s = elim s.field.tmp_path [
  | [] ↦ s
  | c ∷ path ↦ record s { unlinked = s.unlinked ++ (c ∷ path) ∷ [] }
]

-- The copies of the name and of the temporary path must be there.
unfoldable pub push_file :
    Session → Option CString → Option CString → Option CString → Option CString → Session
push_file s (some name) filename type (some tmp) =
    let upload : FileUpload = record {
      field_name = name;
      filename = filename;
      content_type = type;
      tmp_path = tmp;
      size = s.field.value_len;
      contents = elim s.field.fp [ none ↦ [] | some bytes ↦ bytes ];
    } in
    record s { files = upload ∷ s.files }
push_file s none filename type tmp = unlink_tmp s
push_file s (some name) filename type none = unlink_tmp s

unfoldable pub commit_file : Session → Alloc → Session × Alloc
commit_file s a =
    let (done, a1) = malloc a in
    let (name, a2) = dup_opt (some s.field.key) a1 in
    let (filename, a3) = dup_opt s.field.filename a2 in
    let (type, a4) = dup_opt s.field.content_type a3 in
    let (tmp, a5) = dup_opt (some s.field.tmp_path) a4 in
    if done then (push_file s name filename type tmp, a5) else (unlink_tmp s, a1)

-- The C string in a buffer; `none` when a byte is read that was never written.
unfoldable pub read_text : Cells → Option CString
read_text [] = some []
read_text (none ∷ cells) = none
read_text (some c ∷ cells) =
    let rest = Option.map (λ (s : CString). c ∷ s) (read_text cells) in
    if c == 0 then some [] else rest

-- `value != NULL ? value : ""`
unfoldable pub field_text : Option Cells → Option CString
field_text none = some []
field_text (some cells) = read_text cells

-- What is reset when a file or a text is settled. The length of a file stays.
abbrev pub closed_file : Field → Field
closed_file f = record f {
  key = [];
  fp = none;
  filename = none;
  content_type = none;
  tmp_path = [];
  is_file = false;
}

abbrev pub closed_text : Field → Field
closed_text f = record f { key = []; value = none; value_len = 0; value_cap = 0; is_file = false }

unfoldable pub settle_file : Session → Bool → Alloc → Session × Alloc
settle_file s commit a =
    let (s', a') = commit_file s a in
    let after = if commit then s' else unlink_tmp s in
    (record after { field = closed_file s.field }, if commit then a' else a)

unfoldable pub settle_text : Session → Bool → Alloc → Option (Session × Alloc)
settle_text s false a = some (record s { field = closed_text s.field }, a)
settle_text s true a = elim (field_text s.field.value) [
  | none ↦ none
  | some text ↦
      let (rc, form, a') = add_kv s.form (some s.field.key) (some text) a in
      some (record s { field = closed_text s.field; form = form }, a')
]

-- `key[0] == '\0' && !is_file`
unfoldable pub is_idle : Field → Bool
is_idle f = elim f.key [ [] ↦ not f.is_file | c ∷ key ↦ false ]

-- multipart_proc_current_field; `none` is a read of memory that was never written.
unfoldable pub settle : Session → Bool → Alloc → Option (Session × Alloc)
settle s commit a =
    if is_idle s.field
    then some (s, a)
    else if s.field.is_file
    then some (settle_file s commit a)
    else settle_text s commit a
