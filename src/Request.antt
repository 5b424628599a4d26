-- ===== src/Request.antt =====
-- papago.c, struct papago_request and the request accessors.
pub mod Lookup
mod Tests
use libpapago.Prelude.{ℕ, Bool, true, false, List, [], ◌∷◌, Option, none, some, ◌==◌, if◌then◌else◌}
use libpapago.Prelude.Text.{CString}
use libpapago.Alloc.{Alloc}
use libpapago.Kv.{Kv, Status, success, failure, add_kv, find_kv}
use libpapago.Method.{Method}

-- `struct papago_request`. The copy of the URL is taken to have succeeded.
pub record Request : Type 0 where
  pub method : Method
  pub path : CString
  pub version : CString
  pub body : Option (List ℕ)
  pub body_length : ℕ
  pub host : CString
  pub user_agent : CString
  pub headers : List Kv
  pub params : List Kv
  pub query : List Kv
  pub form : List Kv
  pub body_too_large : Bool
  pub client_cert_cn : CString
  pub has_client_cert : Bool

-- `calloc`, then the path and the method.
abbrev pub new_request : Method → CString → Request
new_request method path = record {
  method = method;
  path = path;
  version = [];
  body = none;
  body_length = 0;
  host = [];
  user_agent = [];
  headers = [];
  params = [];
  query = [];
  form = [];
  body_too_large = false;
  client_cert_cn = [];
  has_client_cert = false;
}

unfoldable pub req_header : Request → Option CString → Option CString
req_header req key = find_kv req.headers key

unfoldable pub req_param : Request → Option CString → Option CString
req_param req key = find_kv req.params key

unfoldable pub req_query : Request → Option CString → Option CString
req_query req key = find_kv req.query key

unfoldable pub req_form : Request → Option CString → Option CString
req_form req key = find_kv req.form key

unfoldable pub req_client_cert_cn : Request → Option CString
req_client_cert_cn req = if req.has_client_cert then some req.client_cert_cn else none

-- The value that is stored for NULL.
abbrev pub value_or_empty : Option CString → Option CString
value_or_empty none = some []
value_or_empty (some value) = some value

-- MHD_YES for 0 and MHD_NO for 1
abbrev pub mhd_result : Status → Bool
mhd_result success = true
mhd_result failure = false

-- header_iterator with a request: is MHD_YES returned, and the request.
unfoldable pub header_iterator :
    Request → Option CString → Option CString → Alloc → Bool × Request × Alloc
header_iterator req none value a = (false, req, a)
header_iterator req (some key) value a =
    let (rc, headers, a') = add_kv req.headers (some key) (value_or_empty value) a in
    (mhd_result rc, record req { headers = headers }, a')

-- query_string_parser with a request.
unfoldable pub query_string_parser :
    Request → Option CString → Option CString → Alloc → Bool × Request × Alloc
query_string_parser req none value a = (false, req, a)
query_string_parser req (some key) value a =
    let (rc, query, a') = add_kv req.query (some key) (value_or_empty value) a in
    (mhd_result rc, record req { query = query }, a')

-- What MHD_get_connection_info answers for the address of a client: IPv4, with the text of inet_ntop, or
-- IPv6.
pub data ClientAddr : Type 0 where
  inet : CString → ClientAddr
  inet6 : ClientAddr

-- papago_req_client_ip.
unfoldable pub req_client_ip : Option ClientAddr → Option CString
req_client_ip none = none
req_client_ip (some (inet text)) = some text
req_client_ip (some inet6) = none
