-- ===== src/Client/Transfer.antt =====
-- The result of papago_http_send.
use libpapago.Prelude.{
  ℕ, ◌^◌, ◌<◌, ◌≡◌, refl, ap, ◌∙◌, true, List, [], map, some, arith, All, if◌then◌else◌, length,
  append-nil,
}
use libpapago.Prelude.Text.{CString}
use libpapago.Kv.{success, failure}
use libpapago.Multipart.Text.{concat}
use libpapago.Client.{Header, Body, HttpClient, HttpRequest}
use libpapago.Client.Headers.{
  ServerLine, line_bytes, IsLine, fields_of, header_cbs, newest_first, header_cbs-line_bytes,
}
use libpapago.Client.Download.{Arrived, write_cbs, write_cbs-Arrived}
use libpapago.Client.Send.{Setting, settings, Transfer, no_response, no_body, finish, http_send}

http_send-finish :
    (perform : List Setting → Transfer) (client : HttpClient) (name : CString) (req : HttpRequest)
    (headers : List Header) (b : Body)
    → let t = perform (settings client name req) in
      header_cbs [] t.lines [] ≡ some (headers, [])
      → write_cbs no_body t.parts [] ≡ some (true, b, [])
      → http_send perform client name req [] ≡ some (finish t headers true b [])
unfolding http_send
http_send-finish perform client name req headers b e f = rw (e, f, http_send) refl

-- A transfer in which libcurl passes on status lines, headers and empty lines in any order, and a body in
-- any parts, of fewer than 2^61 bytes; the key of a header has no NUL, colon, slash or end of a line, and its
-- value no NUL or end of a line and no blank at its start. If libcurl completes it, papago_http_send
-- returns 0 with the status, the whole body, its length and all headers, those of interim responses and
-- redirects among them, the last one first; otherwise it returns 1 and an empty response. Status lines,
-- whatever is in them, and empty lines leave no header. No allocation fails.
pub http_send_lem :
    (perform : List Setting → Transfer) (client : HttpClient) (name : CString) (req : HttpRequest)
    (ls : List ServerLine) (parts : List (List ℕ))
    → (perform (settings client name req)).lines ≡ map line_bytes ls
    → (perform (settings client name req)).parts ≡ parts
    → All IsLine ls
    → length (concat parts) < 2 ^ 61
    → http_send perform client name req []
      ≡ some (
          if (perform (settings client name req)).completed
          then (
            success,
            record {
              status_code = (perform (settings client name req)).code;
              body = concat parts;
              body_len = length (concat parts);
              headers = newest_first (fields_of ls);
            },
            [],
          )
          else (failure, no_response, []))
http_send_lem perform client name req ls parts lines bytes valid small =
    let t = perform (settings client name req) in
    let (b, ran, r) =
      write_cbs-Arrived no_body [] parts (record { kept = refl; len = refl; room = omega arith })
        (omega arith) in
    let headers =
      ap (λ bs. header_cbs [] bs []) lines
      ∙ header_cbs-line_bytes [] ls valid
      ∙ ap (λ (all : List Header). some (all, [])) (append-nil (newest_first (fields_of ls))) in
    http_send-finish perform client name req (newest_first (fields_of ls)) b headers
      (ap (λ ps. write_cbs no_body ps []) bytes ∙ ran)
    ∙ ap some (finish-Arrived t (newest_first (fields_of ls)) b (concat parts) r)
  where
    finish-Arrived :
        (t : Transfer) (headers : List Header) (b : Body) (bytes : List ℕ)
        → Arrived b bytes
        → finish t headers true b [] ≡ (
            if t.completed
            then (
              success,
              record {
                status_code = t.code;
                body = bytes;
                body_len = length bytes;
                headers = headers;
              },
              [],
            )
            else (failure, no_response, []))
    finish-Arrived t headers b bytes r = unfold finish in (rw (r.kept, r.len) refl)
