-- ===== src/Mime/Extension.antt =====
-- The extension that papago_mime_type uses.
use libpapago.Prelude.{
  ℕ, suc, ◌≡◌, ◌≢◌, refl, [], ◌∷◌, ◌++◌, none, some, arith, ◌==◌, if◌then◌else◌, length, drop,
  get_elem?, All, length-append, append-nil, append_assoc,
}
use libpapago.Prelude.Text.{CString}
use libpapago.Mime.{find_ext, mime_table, octet_stream, type_of_ext, mime_type}

-- A byte of an extension, or of a name without one.
abbrev pub IsPlain : ℕ → Type 0
IsPlain c = (c ≢ b'.') × (c ≢ b'/')

get_elem?-append_head :
    (pre : CString) (c : ℕ) (s : CString) → get_elem? (pre ++ c ∷ s) (length pre) ≡ some c
get_elem?-append_head [] c s = refl
get_elem?-append_head (d ∷ pre) c s = get_elem?-append_head pre c s

drop-append_head :
    (pre : CString) (c : ℕ) (s : CString) → drop (suc (length pre)) (pre ++ c ∷ s) ≡ s
drop-append_head [] c s = refl
drop-append_head (d ∷ pre) c s = drop-append_head pre c s

-- One round of the loop, at a byte between what stands before and behind it.
find_ext-step :
    (pre : CString) (c : ℕ) (s : CString)
    → find_ext (pre ++ c ∷ s) (suc (length pre)) ≡ (
        if c == b'.'
        then some s
        else if c == b'/'
        then none
        else find_ext (pre ++ c ∷ s) (length pre))
unfolding find_ext
find_ext-step pre c s = ground (arith, get_elem?-append_head pre c s, drop-append_head pre c s)

-- Plain bytes at the end are passed over.
find_ext-skip :
    (pre mid : CString)
    → All IsPlain mid
    → find_ext (pre ++ mid) (length (pre ++ mid)) ≡ find_ext (pre ++ mid) (length pre)
find_ext-skip pre [] h = rw append-nil
find_ext-skip pre (c ∷ mid) h =
    let whole : (pre ++ c ∷ []) ++ mid ≡ pre ++ c ∷ mid = append_assoc pre (c ∷ []) mid in
    let len : length (pre ++ c ∷ []) ≡ suc (length pre) =
      omega (arith, length-append pre (c ∷ [])) in
    let ih = find_ext-skip (pre ++ c ∷ []) mid h.1 in
    ground (arith, whole, len, ih, find_ext-step pre c mid)

find_ext_last :
    (pre : CString) (c : ℕ) (s : CString)
    → All IsPlain s
    → find_ext (pre ++ c ∷ s) (length (pre ++ c ∷ s)) ≡ (
        if c == b'.'
        then some s
        else if c == b'/'
        then none
        else find_ext (pre ++ c ∷ s) (length pre))
find_ext_last pre c s h =
    let whole : (pre ++ c ∷ []) ++ s ≡ pre ++ c ∷ s = append_assoc pre (c ∷ []) s in
    let len : length (pre ++ c ∷ []) ≡ suc (length pre) =
      omega (arith, length-append pre (c ∷ [])) in
    ground (arith, whole, len, find_ext-skip (pre ++ c ∷ []) s h, find_ext-step pre c s)

find_ext-zero : (s : CString) → find_ext s 0 ≡ none
unfolding find_ext
find_ext-zero s = refl

-- The type of a file is that of the text behind the last dot of its name.
pub mime_type-extension :
    (pre ext : CString)
    → All IsPlain ext
    → mime_type (some (pre ++ b'.' ∷ ext)) ≡ type_of_ext mime_table ext
unfolding mime_type
mime_type-extension pre ext h = ground (arith, find_ext_last pre b'.' ext h)

-- A file whose name has no dot is a byte stream, whatever directory it stands in.
pub mime_type-no_extension :
    (pre name : CString)
    → All IsPlain name
    → (mime_type (some name) ≡ octet_stream)
      × (mime_type (some (pre ++ b'/' ∷ name)) ≡ octet_stream)
unfolding mime_type
mime_type-no_extension pre name h = (
  ground (arith, find_ext-skip [] name h, find_ext-zero name),
  ground (arith, find_ext_last pre b'/' name h),
)
