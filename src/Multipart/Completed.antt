-- ===== src/Multipart/Completed.antt =====
-- papago.c, free_file_uploads, and request_completed as far as it settles the parts of a request: the
-- rest of it is calls of `free`.
use libpapago.Prelude.{List, [], ◌∷◌, ◌++◌, Option, none, some, false}
use libpapago.Prelude.Text.{CString}
use libpapago.Alloc.{Alloc}
use libpapago.Multipart.{FileUpload, Session, settle}

-- The files that were unlinked, with those of the uploads.
unfoldable pub free_file_uploads : List FileUpload → List CString → List CString
free_file_uploads [] unlinked = unlinked
free_file_uploads (f ∷ files) unlinked = free_file_uploads files (unlinked ++ f.tmp_path ∷ [])

unfoldable pub request_completed : Session → Alloc → Option Session
request_completed s a = elim (settle s false a) [
  | none ↦ none
  | some (s', a') ↦
      some (record s' { files = []; unlinked = free_file_uploads s'.files s'.unlinked })
]
