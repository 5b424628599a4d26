-- ===== src/Client/Send.antt =====
-- papago_http_send: the options that it sets, and what it makes of the transfer.
use libpapago.Prelude.{
  ℕ, Bool, ◌&&◌, List, [], ◌∷◌, ◌++◌, map, Option, none, some, ltb, if◌then◌else◌, length,
}
use libpapago.Prelude.Text.{CString, codes, truncated}
use libpapago.Alloc.{Alloc}
use libpapago.Kv.{Status, success, failure}
use libpapago.Method.{Method, post, put, delete, patch, head, options}
use libpapago.Client.{Header, Body, HttpClient, HttpRequest, request_default}
use libpapago.Client.Headers.{header_cbs}
use libpapago.Client.Download.{write_cbs}

-- A call of curl_easy_setopt.
pub data Setting : Type 0 where
  url : CString → Setting
  is_post : Setting
  post_fields : CString → Setting
  post_field_size : ℕ → Setting
  custom_request : CString → Setting
  http_get : Setting
  http_header : List CString → Setting
  timeout_ms : ℕ → Setting
  follow_location : Bool → Setting
  verify_peer : Bool → Setting
  verify_host : ℕ → Setting
  ca_info : CString → Setting
  ca_path : CString → Setting

-- `blen`
unfoldable pub body_size : HttpRequest → ℕ
body_size req = elim req.body [
  | none ↦ 0
  | some text ↦ if ltb 0 req.body_len then req.body_len else length text
]

abbrev pub body_settings : HttpRequest → List Setting
body_settings req = elim req.body [
  | none ↦ []
  | some text ↦ post_fields text ∷ post_field_size (body_size req) ∷ []
]

-- The switch over the method; `name` is what papago_req_method returns for the pointer that it is
-- given.
unfoldable pub method_settings : CString → HttpRequest → List Setting
method_settings name req = elim req.method [
  | post ↦ elim req.body [
    | none ↦ is_post ∷ post_field_size 0 ∷ []
    | some text ↦ is_post ∷ body_settings req
  ]
  | put ↦ custom_request name ∷ body_settings req
  | patch ↦ custom_request name ∷ body_settings req
  | delete ↦ custom_request name ∷ []
  | head ↦ custom_request name ∷ []
  | options ↦ custom_request name ∷ []
  | _ ↦ http_get ∷ []
]

-- The headers of the request, cut to the size of their buffers; curl_slist_append is taken to succeed.
unfoldable pub header_texts : HttpRequest → List CString
header_texts req =
    let extra = map (λ (h : Header). truncated 1024 (h.key ++ codes ": " ++ h.value)) req.headers in
    elim req.content_type [
      | none ↦ extra
      | some type ↦ truncated 256 (codes "Content-Type: " ++ type) ∷ extra
    ]

abbrev pub header_settings : List CString → List Setting
header_settings [] = []
header_settings (t ∷ ts) = http_header (t ∷ ts) ∷ []

abbrev pub ca_settings : HttpClient → List Setting
ca_settings client =
    (elim client.ca_cert_file [ none ↦ [] | some path ↦ ca_info path ∷ [] ])
    ++ (elim client.ca_cert_path [ none ↦ [] | some path ↦ ca_path path ∷ [] ])

unfoldable pub settings : HttpClient → CString → HttpRequest → List Setting
settings client name req =
    url req.url ∷ method_settings name req
    ++ header_settings (header_texts req)
    ++ (timeout_ms (if ltb 0 req.timeout_ms then req.timeout_ms else 30000)
        ∷ follow_location req.follow_redirects
        ∷ verify_peer client.verify_ssl
        ∷ verify_host (if client.verify_ssl then 2 else 0)
        ∷ [])
    ++ ca_settings client

-- What libcurl does with the options: the lines and the parts that it gives to the callbacks, whether
-- curl_easy_perform returns CURLE_OK if they take all of it, and the status.
pub record Transfer : Type 0 where
  pub lines : List (List ℕ)
  pub parts : List (List ℕ)
  pub completed : Bool
  pub code : ℕ

-- `papago_http_response_t`
pub record HttpResponse : Type 0 where
  pub status_code : ℕ
  pub body : List ℕ
  pub body_len : ℕ
  pub headers : List Header

-- `memset(res, 0, sizeof(*res))`
abbrev pub no_response : HttpResponse
no_response = record { status_code = 0; body = []; body_len = 0; headers = [] }

abbrev pub no_body : Body
no_body = record { bytes = []; len = 0; cap = 0 }

-- The end of papago_http_send, when the callbacks have run.
unfoldable pub finish : Transfer → List Header → Bool → Body → Alloc → Status × HttpResponse × Alloc
finish t headers taken b a =
    if taken && t.completed
    then (
      success,
      record { status_code = t.code; body = b.bytes; body_len = b.len; headers = headers },
      a,
    )
    else (failure, no_response, a)

-- papago_http_send with its three pointers and a handle; `none` is a read behind a line, or a loop that
-- does not end.
unfoldable pub http_send :
    (List Setting → Transfer)
    → HttpClient
    → CString
    → HttpRequest
    → Alloc
    → Option (Status × HttpResponse × Alloc)
http_send perform client name req a =
    let t = perform (settings client name req) in
    elim (header_cbs [] t.lines a) [
      | none ↦ none
      | some (headers, a1) ↦ elim (write_cbs no_body t.parts a1) [
        | none ↦ none
        | some (taken, b, a2) ↦ some (finish t headers taken b a2)
      ]
    ]

-- The requests of papago_http_get, papago_http_post_json, papago_http_put_json and papago_http_delete.
abbrev pub get_request : CString → HttpRequest
get_request target = request_default target

abbrev pub json_request : Method → CString → Option CString → HttpRequest
json_request method target body = record (request_default target) {
  method = method;
  body = body;
  content_type = some (codes "application/json");
}

abbrev pub delete_request : CString → HttpRequest
delete_request target = record (request_default target) { method = delete }
