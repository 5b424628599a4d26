-- ===== src/Upload.antt =====
-- papago.c, mhd_handler while the body of a request arrives, and when it is complete, before the
-- response is created. The post processor of libmicrohttpd is a parameter.
pub mod Body
mod Tests
use libpapago.Prelude.{
  ℕ, ◌+◌, ◌%◌, ◌^◌, Bool, true, false, ◌&&◌, ◌||◌, List, [], ◌∷◌, ◌++◌, map, Option, none, some,
  ltb, ◌==◌, is_none, if◌then◌else◌, length, take,
}
use libpapago.Prelude.Text.{CString, codes, starts_with, to_lower}
use libpapago.Alloc.{Alloc, malloc}
use libpapago.Kv.{Kv}
use libpapago.Multipart.Iterate.{add_size}
use libpapago.Multipart.{Session, settle}
use libpapago.Form.{form_body_parser}
use libpapago.Request.{Request, query_string_parser}

-- The bytes at `body`; NULL has none.
abbrev pub body_bytes : Option (List ℕ) → List ℕ
body_bytes none = []
body_bytes (some bytes) = bytes

-- A part of a body that is not multipart, for a limit of `max_body_size`.
unfoldable pub receive_body : ℕ → Request → List ℕ → Alloc → Request × Alloc
receive_body max req bytes a =
    let (done, a') = malloc a in
    let total = add_size req.body_length (length bytes) in
    if ltb max total
    then (record req { body = none; body_length = 0; body_too_large = true }, a)
    else if done
    then (
      record req {
        body = some (take req.body_length (body_bytes req.body) ++ bytes);
        body_length = total;
      },
      a',
    )
    else (req, a')

-- A request on its way in: `processor` tells whether `mhd_post_processor` is there.
pub record Incoming : Type 0 where
  pub req : Request
  pub is_multipart : Bool
  pub processor : Bool
  pub parts : Session

-- MHD_post_process with the bytes of one call: MHD_YES or not, and what its calls of the iterator
-- leave.
abbrev pub PostProcess : Type 0
PostProcess = List ℕ → Session → Alloc → Option (Bool × Session × Alloc)

-- The multipart upload is given up: the current part is discarded.
unfoldable pub give_up : Incoming → Session → Alloc → Option (Incoming × Alloc)
give_up inc parts a = elim (settle parts false a) [
  | none ↦ none
  | some (parts', a') ↦ some (
    record inc {
      req = record inc.req { body_too_large = true };
      processor = false;
      parts = parts';
    },
    a',
  )
]

-- A part of a multipart body.
unfoldable pub receive_multipart :
    PostProcess → ℕ → Incoming → List ℕ → Alloc → Option (Incoming × Alloc)
receive_multipart post max inc bytes a =
    let total = add_size inc.req.body_length (length bytes) in
    let counted : Incoming = record inc { req = record inc.req { body_length = total } } in
    if ltb max total then give_up counted inc.parts a else elim (post bytes inc.parts a) [
      | none ↦ none
      | some (true, parts, a') ↦ some (record counted { parts = parts }, a')
      | some (false, parts, a') ↦ give_up counted parts a'
    ]

unfoldable pub receive : PostProcess → ℕ → Incoming → List ℕ → Alloc → Option (Incoming × Alloc)
receive post max inc bytes a =
    let (req, a') = receive_body max inc.req bytes a in
    if inc.is_multipart && inc.processor
    then receive_multipart post max inc bytes a
    else some (record inc { req = req }, a')

-- The last part is settled, and the form is that of the parts.
unfoldable pub end_parts : Incoming → Alloc → Option (Incoming × Alloc)
end_parts inc a =
    if inc.is_multipart && inc.processor
    then elim (settle inc.parts true a) [
      | none ↦ none
      | some (parts, a') ↦ some (record inc { processor = false; parts = parts }, a')
    ]
    else some (inc, a)

-- MHD_get_connection_values for the arguments of the URL: it stops at the first MHD_NO.
unfoldable pub read_query : List (CString × Option CString) → Request → Alloc → Request × Alloc
read_query [] req a = (req, a)
read_query ((key, value) ∷ args) req a =
    let (go, req', a') = query_string_parser req (some key) value a in
    let rest = read_query args req' a' in if go then rest else (req', a')

-- `strncasecmp(ct, prefix, strlen(prefix)) == 0`
abbrev pub has_type : CString → Option CString → Bool
has_type prefix none = false
has_type prefix (some ct) = starts_with (map to_lower prefix) (map to_lower ct)

abbrev pub is_empty : List Kv → Bool
is_empty [] = true
is_empty (kv ∷ kvs) = false

-- The form of a body that is not multipart.
unfoldable pub read_form : Option CString → Request → Alloc → Request × Alloc
read_form ct req a =
    let (form, a') = form_body_parser req.form req.body req.body_length a in
    if is_empty req.form && has_type (codes "application/x-www-form-urlencoded") ct
    then (record req { form = form }, a')
    else (req, a)

-- From the end of the upload to the creation of the response: the request for the handlers.
unfoldable pub complete :
    List (CString × Option CString) → Option CString → Incoming → Alloc → Option (Request × Alloc)
complete args ct inc a = elim (end_parts inc a) [
  | none ↦ none
  | some (inc', a1) ↦
      let req : Request = record inc'.req {
        form = if inc'.is_multipart then inc'.parts.form else inc'.req.form;
      } in
      let queried = read_query args req a1 in
      let (r2, a2) = if is_empty req.query then queried else (req, a1) in some (read_form ct r2 a2)
]
