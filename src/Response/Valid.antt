-- ===== src/Response/Valid.antt =====
-- The response's body is owned once, its recorded length is that of the body, and a file response has
-- no body: an invariant of the helpers while no allocation fails.
use libpapago.Prelude.{
  ℕ, ◌≡◌, refl, true, false, [], ◌∷◌, Option, none, some, arith, length, Bool-cases, Option-cases,
  ◌&&◌, ap, ◌∙◌, inl, inr, ◌⊎◌,
}
use libpapago.Prelude.Text.{CString}
use libpapago.Alloc.{Alloc}
use libpapago.Response.{
  Body, null, held, freed, Response, fresh, free_body, res_header, res_send, FileProbe,
  set_file_headers, sendfile_opened, sendfile_mime, strdup_body, drop_body, owned_fd,
}

-- The length that belongs to a body; a freed one has none.
abbrev pub HasLength : Body → ℕ → Type 0
HasLength null n = n ≡ 0
HasLength (held bytes) n = n ≡ length bytes
HasLength freed n = ⊥

pub record IsValid (res : Response) : Type 0 where
  pub owned : HasLength res.body res.body_length
  pub file_or_body : res.is_stream_file ≡ true → res.body ≡ null

-- A new response is valid.
pub fresh-IsValid : IsValid fresh
fresh-IsValid = record { owned = refl; file_or_body = λ h. refl }

pub res_header-IsValid :
    (res : Response) (key value : Option CString) (a : Alloc)
    → IsValid res
    → IsValid (res_header res key value a).0
unfolding res_header
res_header-IsValid res key value a v = record { owned = v.owned; file_or_body = v.file_or_body }

-- Freeing what a valid file response does not have changes nothing.
free_body-null :
    (b : Body) (n : ℕ) → b ≡ null → HasLength b n → HasLength (free_body b) n × (free_body b ≡ null)
free_body-null null n e h = (h, refl)
free_body-null (held bytes) n e h = absurd (cc)
free_body-null freed n e h = elim h [ ]

res_send_file :
    (res : Response) (body : Option CString) (a : Alloc)
    → res.is_stream_file ≡ true
    → res_send res body a ≡ (1, record res { body = free_body res.body }, a)
unfolding res_send
res_send_file res body a e = rw e

res_send_body :
    (res : Response) (body : Option CString) (a : Alloc)
    → res.is_stream_file ≡ false
    → let (copy, len, rest) = strdup_body body a in
      res_send res body a ≡ (0, record res { body = copy; body_length = len; sent = true }, rest)
unfolding res_send
res_send_body res body a e = rw e

strdup_body-HasLength :
    (body : Option CString) → let (copy, len, rest) = strdup_body body [] in HasLength copy len
unfolding strdup_body
strdup_body-HasLength none = refl
strdup_body-HasLength (some body) = refl

-- Sending a body keeps the response valid when its copy can be allocated; it returns 0, and marks the
-- response as sent, unless the response is a file.
pub res_send-IsValid :
    (res : Response) (body : Option CString)
    → IsValid res
    → let (rc, out, rest) = res_send res body [] in
      IsValid out × (((rc ≡ 0) × (out.sent ≡ true)) ⊎ (res.is_stream_file ≡ true))
res_send-IsValid res body v = elim (Bool-cases res.is_stream_file) [
  | inl e ↦
      let (owned, null_body) = free_body-null res.body res.body_length (v.file_or_body e) v.owned in
      rw (res_send_file res body [] e)
        (record { owned = owned; file_or_body = λ h. null_body }, inr e)
  | inr e ↦
      rw (res_send_body res body [] e)
        (record { owned = strdup_body-HasLength body; file_or_body = λ h. cc }, inl (refl, refl))
]

-- Adding the headers of a file touches no other field.
set_file_headers_rest :
    (res : Response) (filepath : CString) (mime : Option CString) (size : ℕ) (a : Alloc)
    → let (out, rest) = set_file_headers res filepath mime size a in
      (out.body ≡ res.body) × (out.body_length ≡ res.body_length) × (out.stream_fd ≡ res.stream_fd)
unfolding set_file_headers res_header
set_file_headers_rest res filepath mime size a = (refl, refl, refl)

drop_body_lem :
    (res : Response) (b : Body)
    → res.body ≡ b
    → HasLength b res.body_length
    → ((drop_body res).body ≡ null)
      × ((drop_body res).body_length ≡ 0)
      × ((drop_body res).stream_fd ≡ res.stream_fd)
unfolding drop_body
drop_body_lem res null e h = ground arith
drop_body_lem res (held bytes) e h = ground arith
drop_body_lem res freed e h = elim h [ ]

sendfile_opened-IsValid :
    (res : Response) (filepath : CString) (mime : Option CString) (fd : ℕ) (file : FileProbe)
    (a : Alloc)
    → IsValid res
    → let (rc, out, closed, rest) = sendfile_opened res filepath mime fd file a in
      IsValid out
      × (((rc ≡ 0)
            × (out.is_stream_file ≡ true)
            × (out.stream_fd ≡ some fd)
            × (closed ≡ owned_fd res.stream_fd))
          ⊎ ((rc ≡ 1) × (out ≡ res) × (closed ≡ fd ∷ [])))
unfolding sendfile_opened
sendfile_opened-IsValid res filepath mime fd file a v =
    elim (Bool-cases (file.is_regular && file.made_blocking)) [
      | inl e ↦
          let (r1, a1) = set_file_headers res filepath mime file.size a in
          let (same_body, same_length, same_fd) =
            set_file_headers_rest res filepath mime file.size a in
          let (no_body, no_length, kept_fd) =
            drop_body_lem r1 res.body same_body (rw same_length v.owned) in
          rw e (
            record { owned = rw (no_body, no_length) refl; file_or_body = λ h. no_body },
            inl (refl, refl, refl, ap owned_fd (kept_fd ∙ same_fd)),
          )
      | inr e ↦ rw e (v, inr (refl, refl, refl))
    ]

-- Streaming a file keeps the response valid on every branch, and no descriptor is lost: on success
-- the response owns the new one and the one it had was closed, on failure the new one, if it was
-- opened, was closed and the response is as it was.
pub sendfile_mime-IsValid :
    (res : Response) (filepath : CString) (mime : Option CString) (file : FileProbe) (a : Alloc)
    → IsValid res
    → let (rc, out, closed, rest) = sendfile_mime res filepath mime file a in
      IsValid out
      × (((rc ≡ 0)
            × (out.is_stream_file ≡ true)
            × (out.stream_fd ≡ file.fd)
            × (closed ≡ owned_fd res.stream_fd))
          ⊎ ((rc ≡ 1) × (out ≡ res) × (closed ≡ owned_fd file.fd)))
unfolding sendfile_mime sendfile_opened
sendfile_mime-IsValid res filepath mime file a v = elim (Option-cases file.fd) [
  | inl e ↦ rw e (v, inr (refl, refl, refl))
  | inr (fd, e) ↦ rw e (sendfile_opened-IsValid res filepath mime fd file a v)
]
