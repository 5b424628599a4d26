-- ===== src/Response.antt =====
-- papago.c, struct papago_response and the response helpers.
pub mod Valid
mod Tests
use libpapago.Prelude.{
  ℕ, Bool, true, false, ◌&&◌, List, [], ◌∷◌, Option, none, some, if◌then◌else◌, length,
}
use libpapago.Prelude.Text.{CString, codes, decimal}
use libpapago.Alloc.{Alloc, malloc}
use libpapago.Kv.{Kv, add_kv}
use libpapago.Mime.{mime_type}

-- A `char *` that the response owns: NULL, a buffer, or one that was freed and not reset.
pub data Body : Type 0 where
  null : Body
  held : List ℕ → Body
  freed : Body

-- `struct papago_response`; `stream_fd` is -1 at `none`.
pub record Response : Type 0 where
  pub status : ℕ
  pub body : Body
  pub body_length : ℕ
  pub headers : List Kv
  pub stream_fd : Option ℕ
  pub stream_file_size : ℕ
  pub sent : Bool
  pub is_stream_file : Bool

-- What mhd_handler sets up: `calloc`, status 200 and no descriptor.
abbrev pub fresh : Response
fresh = record {
  status = 200;
  body = null;
  body_length = 0;
  headers = [];
  stream_fd = none;
  stream_file_size = 0;
  sent = false;
  is_stream_file = false;
}

abbrev pub set_status : Response → ℕ → Response
set_status res status = record res { status = status }

-- papago_res_header; a failure is ignored.
unfoldable pub res_header : Response → Option CString → Option CString → Alloc → Response × Alloc
res_header res key value a =
    let (rc, headers, a') = add_kv res.headers key value a in (record res { headers = headers }, a')

-- `free(res->body)`, if it is not NULL; the pointer stays.
abbrev pub free_body : Body → Body
free_body null = null
free_body (held bytes) = freed
free_body freed = freed

-- `_strdup`, and the length that is recorded whether it succeeded or not.
unfoldable pub strdup_body : Option CString → Alloc → Body × ℕ × Alloc
strdup_body none a = (null, 0, a)
strdup_body (some body) a =
    let (done, a') = malloc a in (if done then held body else null, length body, a')

-- papago_res_send: the return code, 1 when the response is a file.
unfoldable pub res_send : Response → Option CString → Alloc → ℕ × Response × Alloc
unfolding strdup_body
res_send res body a =
    let (copy, len, a') = strdup_body body a in
    if res.is_stream_file
    then (1, record res { body = free_body res.body }, a)
    else (0, record res { body = copy; body_length = len; sent = true }, a')

abbrev pub content_type : CString
content_type = codes "Content-Type"

unfoldable pub res_json : Response → Option CString → Alloc → ℕ × Response × Alloc
unfolding res_header res_send
res_json res json a =
    let (res', a') = res_header res (some content_type) (some (codes "application/json")) a in
    res_send res' json a'

unfoldable pub res_html : Response → Option CString → Alloc → ℕ × Response × Alloc
unfolding res_header res_send
res_html res html a =
    let (res', a') =
      res_header res (some content_type) (some (codes "text/html; charset=utf-8")) a in
    res_send res' html a'

unfoldable pub set_file_headers : Response → CString → Option CString → ℕ → Alloc → Response × Alloc
unfolding res_header
set_file_headers res filepath mime size a =
    let type : CString = elim mime [ some m ↦ m | none ↦ mime_type (some filepath) ] in
    let (r1, a1) = res_header res (some content_type) (some type) a in
    let (r2, a2) = res_header r1 (some (codes "Content-Length")) (some (decimal size)) a1 in
    res_header r2 (some (codes "X-Content-Type-Options")) (some (codes "nosniff")) a2

-- What `open`, `fstat` with `S_ISREG`, and `fcntl` answer for a path: no descriptor is -1.
pub record FileProbe : Type 0 where
  pub fd : Option ℕ
  pub is_regular : Bool
  pub made_blocking : Bool
  pub size : ℕ

-- The body of a response that becomes a file is freed and reset.
unfoldable pub drop_body : Response → Response
drop_body res = elim res.body [
  | null ↦ res
  | _ ↦ record res { body = null; body_length = 0; sent = true }
]

-- The descriptor that is held, if any.
abbrev pub owned_fd : Option ℕ → List ℕ
owned_fd none = []
owned_fd (some fd) = fd ∷ []

-- papago_res_sendfile_mime with its three pointers given, after `open`: the return code, the response,
-- and the descriptors closed on the way.
unfoldable pub sendfile_opened :
    Response → CString → Option CString → ℕ → FileProbe → Alloc → ℕ × Response × List ℕ × Alloc
sendfile_opened res filepath mime fd file a =
    let (r1, a1) = set_file_headers res filepath mime file.size a in
    let r2 = drop_body r1 in
    if file.is_regular && file.made_blocking
    then (
      0,
      record r2 { is_stream_file = true; stream_fd = some fd; stream_file_size = file.size },
      owned_fd r2.stream_fd,
      a1,
    )
    else (1, res, fd ∷ [], a)

unfoldable pub sendfile_mime :
    Response → CString → Option CString → FileProbe → Alloc → ℕ × Response × List ℕ × Alloc
sendfile_mime res filepath mime file a = elim file.fd [
  | none ↦ (1, res, [], a)
  | some fd ↦ sendfile_opened res filepath mime fd file a
]
