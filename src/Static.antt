-- ===== src/Static.antt =====
-- papago.c, the handlers that serve files: papago_serve_embedded_handler and
-- papago_serve_static_handler. What `realpath`, `stat` and `open` answer is a parameter.
pub mod Inside
mod Tests
use libpapago.Prelude.{
  ℕ, Bool, true, false, ◌&&◌, List, [], ◌∷◌, ◌++◌, Option, none, some, leb, ◌==◌, if◌then◌else◌,
  length, drop,
}
use libpapago.Prelude.Text.{CString, codes, str_eq, starts_with}
use libpapago.Alloc.{Alloc, malloc}
use libpapago.Request.{Request, req_param}
use libpapago.Response.{
  Response, held, set_status, res_header, res_send, FileProbe, sendfile_mime, content_type,
}

-- What `stat` says of a path: it fails, or S_ISREG, or S_ISDIR, or neither.
pub data FileKind : Type 0 where
  missing regular directory other : FileKind

-- The answers of the file system.
pub record FileSystem : Type 0 where
  pub realpath : CString → Option CString
  pub stat : CString → FileKind
  pub probe : CString → FileProbe

abbrev pub path_max : ℕ
path_max = 4096

-- papago_res_set_status, then papago_res_send.
unfoldable pub refuse : ℕ → CString → Response → Alloc → Response × Alloc
refuse status text res a =
    let (rc, res', a') = res_send (set_status res status) (some text) a in (res', a')

-- The file to serve, or a status and a text.
pub data Located : Type 0 where
  found : CString → Located
  refused : ℕ → CString → Located

-- `index.html` of a directory.
unfoldable pub locate_index : FileSystem → CString → Located
locate_index fs filepath =
    if leb path_max (length filepath)
    then refused 414 (codes "path too long")
    else elim (fs.stat filepath) [
      | regular ↦ found filepath
      | _ ↦ refused 403 (codes "directory listing not allowed")
    ]

unfoldable pub locate : FileSystem → CString → CString → Located
locate fs dir path =
    if leb path_max (length (dir ++ path))
    then refused 414 (codes "path too long")
    else elim (fs.stat (dir ++ path)) [
      | missing ↦ refused 404 (codes "file not found")
      | regular ↦ found (dir ++ path)
      | directory ↦ locate_index fs (dir ++ path ++ codes "/index.html")
      | other ↦ refused 403 (codes "not a regular file")
    ]

-- `p[0] == '/' || p[0] == '\0'`
abbrev pub ends_component : CString → Bool
ends_component [] = true
ends_component (c ∷ s) = c == b'/'

-- The test on the resolved path.
unfoldable pub is_inside : CString → CString → Bool
is_inside root path = starts_with root path && ends_component (drop (length root) path)

-- papago_res_sendfile, and the answer when it fails.
unfoldable pub send_resolved : FileSystem → CString → Response → Alloc → Response × Alloc
send_resolved fs path res a =
    let (rc, res', closed, a') = sendfile_mime res path none (fs.probe path) a in
    if rc == 0 then (res', a') else refuse 500 (codes "failed to serve file") res' a'

-- From the resolution of the file on.
unfoldable pub serve_located : FileSystem → CString → Located → Response → Alloc → Response × Alloc
serve_located fs root (refused status text) res a = refuse status text res a
serve_located fs root (found filepath) res a = elim (fs.realpath filepath) [
  | none ↦ refuse 404 (codes "file not found") res a
  | some path ↦
      if is_inside root path
      then send_resolved fs path res a
      else refuse 403 (codes "invalid path") res a
]

-- The path below the root: the wildcard's capture if there is one, which may be too long, or the
-- request's.
unfoldable pub relative_path : Request → Option CString
relative_path req = elim (req_param req (some (codes "*"))) [
  | none ↦ some req.path
  | some rel ↦ if leb path_max (length (b'/' ∷ rel)) then none else some (b'/' ∷ rel)
]

-- papago_serve_static_handler with the configured directory; `none` stands for a NULL server too.
unfoldable pub serve_static :
    FileSystem → Option CString → Request → Response → Alloc → Response × Alloc
serve_static fs none req res a = refuse 500 (codes "static directory not configured") res a
serve_static fs (some dir) req res a = elim (relative_path req) [
  | none ↦ refuse 414 (codes "path too long") res a
  | some path ↦ elim (fs.realpath dir) [
    | none ↦ refuse 500 (codes "static directory not configured") res a
    | some root ↦ serve_located fs root (locate fs dir path) res a
  ]
]

-- `papago_embedded_file_t`; `bytes` are the `size` bytes at `data`.
pub record EmbeddedFile : Type 0 where
  pub path : CString
  pub bytes : List ℕ
  pub content_type : CString

-- The file's copy becomes the body.
unfoldable pub send_embedded : EmbeddedFile → Response → Alloc → Response × Alloc
send_embedded file res a =
    let (res', a1) = res_header res (some content_type) (some file.content_type) a in
    let (done, a2) = malloc a1 in
    if done
    then (record res' { body = held file.bytes; body_length = length file.bytes }, a2)
    else (res', a2)

-- The loop over the files up to the one with no path.
unfoldable pub find_embedded : List EmbeddedFile → CString → Option EmbeddedFile
find_embedded [] path = none
find_embedded (file ∷ files) path =
    if str_eq file.path path then some file else find_embedded files path

abbrev pub index_path : CString → CString
index_path path = if str_eq path (codes "/") then codes "/index.html" else path

-- papago_serve_embedded_handler; `none` before any file was registered.
unfoldable pub serve_embedded :
    Option (List EmbeddedFile) → Request → Response → Alloc → Response × Alloc
serve_embedded none req res a = refuse 404 (codes "No embedded files registered") res a
serve_embedded (some files) req res a = elim (find_embedded files (index_path req.path)) [
  | none ↦ refuse 404 (codes "file not found") res a
  | some file ↦ send_embedded file res a
]
