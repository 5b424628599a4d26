-- ===== src/Multipart/Tests.antt =====
-- A form with a text in two chunks, two uploads of one name, and a text after an upload.
use libpapago.Alloc.{Alloc}
use libpapago.Prelude.{
  Bool, All, ℕ, ◌<◌, ◌≡◌, refl, true, false, List, [], ◌∷◌, ◌++◌, map, none, some, arith, length,
  get_elem?,
}
use libpapago.Prelude.Text.{CString, codes, cstr}
use libpapago.Multipart.Iterate.{Chunk, iterate}
use libpapago.Multipart.Requested.{req_files}
use libpapago.Multipart.{Field, FileUpload, Session, is_idle, settle}
use libpapago.Multipart.Text.{IsFresh, text_chunk, iterate_all, concat, settle-iterate_all}
use libpapago.Multipart.Stale.{IsOpenFile, iterate-after_file}
use libpapago.Multipart.Completed.{request_completed}
use libpapago.Multipart.Spool.{count}
use libpapago.Multipart.Outcome.{IsUpload, IsIdle}
use libpapago.Multipart.Unlinked.{created_all, request_completed-iterate_all}
use libpapago.Multipart.Files.{in_order, entry, handed_over, req_files_lem}

abbrev no_field : Field
no_field = record {
  key = [];
  value = none;
  value_len = 0;
  value_cap = 0;
  filename = none;
  content_type = none;
  tmp_path = [];
  fp = none;
  is_file = false;
}

abbrev start : Session
start = record { field = no_field; form = []; files = []; unlinked = [] }

no_field-IsFresh : IsFresh no_field
no_field-IsFresh = record {
  key = refl;
  no_file = refl;
  no_value = refl;
  no_len = refl;
  no_cap = refl;
}

settle-iterate_all_example :
    (s' : Session) × (f : Field) × (iterate_all start
        (text_chunk true (codes "a") none (codes "he")
          ∷ map (text_chunk false (codes "a") none) (codes "llo" ∷ []))
        []
      ≡ some (true, s', []))
    × (settle s' true []
        ≡ some (
          record start {
            field = f;
            form =
                []
                ++ record {
                  key = codes "a";
                  value = cstr (codes "he" ++ concat (codes "llo" ∷ []));
                }
                  ∷ [];
          },
          [],
        ))
    × IsFresh f
settle-iterate_all_example =
    settle-iterate_all start (codes "a") none (codes "he") (codes "llo" ∷ []) no_field-IsFresh
      (λ h. absurd (cc)) (omega arith) (omega arith)

abbrev uploading : Session
uploading = record start {
  field = record no_field {
    key = codes "f";
    value_len = 3;
    filename = some (codes "x.txt");
    tmp_path = codes "/tmp/papago_1";
    fp = some (codes "abc");
    is_file = true;
  };
}

uploading-IsOpenFile : IsOpenFile uploading.field
uploading-IsOpenFile = record {
  file = refl;
  no_value = refl;
  received = omega arith;
  bounded = omega arith;
  no_cap = refl;
}

iterate-after_file_example :
    (s' : Session) × (iterate uploading (text_chunk true (codes "a") none (codes "hi")) []
      ≡ some (true, s', []))
    × (settle s' true [] ≡ none)
iterate-after_file_example =
    iterate-after_file uploading (codes "a") none (codes "hi") uploading-IsOpenFile
      (λ h. absurd (cc)) (omega arith) (omega arith) (omega arith)

abbrev upload : CString → ℕ → FileUpload
upload name size = record {
  field_name = name;
  filename = none;
  content_type = none;
  tmp_path = codes "/tmp/papago_2";
  size = size;
  contents = [];
}

abbrev uploads : List FileUpload
uploads = upload (codes "f") 2 ∷ upload (codes "g") 5 ∷ upload (codes "f") 1 ∷ []

req_files_lem_example :
    let (count, out) = req_files uploads (codes "f") 1 (none ∷ []) in
    (count ≡ handed_over 1 (length (in_order uploads (codes "f"))))
    × ((j : ℕ)
        → j < 1
        → get_elem? out j
          ≡ entry (get_elem? (in_order uploads (codes "f")) j) (get_elem? (none ∷ []) j))
req_files_lem_example = req_files_lem uploads (codes "f") 1 (none ∷ []) refl

abbrev photo : Chunk
photo = record {
  key = codes "photo";
  filename = some (codes "a.png");
  content_type = none;
  bytes = 1 ∷ 2 ∷ [];
  first = true;
  temp = some (codes "/tmp/papago_upload_a");
  opens = true;
  writes = true;
}

-- The rest of the first upload, and a second one that cannot be opened.
abbrev more : List Chunk
more =
    record photo { first = false; temp = none }
    ∷ record photo { temp = some (codes "/tmp/papago_upload_b"); opens = false }
    ∷ []

are_uploads : All IsUpload (photo ∷ more)
are_uploads = (
  record { has_name = refl; has_path = λ h. absurd (cc) },
  (
    record { has_name = refl; has_path = λ h. absurd (cc) },
    (record { has_name = refl; has_path = λ h. absurd (cc) }, tt),
  ),
)

start-IsIdle : IsIdle start
unfolding is_idle
start-IsIdle = record { idle = refl; no_path = refl }

request_completed-iterate_all_example :
    (ok : Bool) × (s1 : Session) × (a1 : Alloc) × (s2 : Session) × (iterate_all start
        (photo ∷ more)
        (true ∷ false ∷ [])
      ≡ some (ok, s1, a1))
    × (request_completed s1 a1 ≡ some s2)
    × (s2.files ≡ [])
    × ((p : CString)
        → count p s2.unlinked ≡ count p (created_all start (photo ∷ more) (true ∷ false ∷ [])))
request_completed-iterate_all_example =
    request_completed-iterate_all start photo more (true ∷ false ∷ []) start-IsIdle refl refl refl
      are_uploads
