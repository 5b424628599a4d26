-- ===== src/Dispatch/Good.antt =====
-- The answers of mhd_handler itself keep the response valid.
use libpapago.Prelude.{ℕ, ◌≡◌, refl, ap, sym, ◌∙◌, [], some, Bool-cases, inl, inr}
use mathlib.Core.Path.{subst}
use libpapago.Prelude.Text.{CString, codes}
use libpapago.Kv.Laws.{add_kv_plenty}
use libpapago.Response.{Response, set_status, res_header, res_send, res_json, content_type}
use libpapago.Response.Valid.{IsValid, res_header-IsValid, res_send-IsValid}
use libpapago.Server.{State}
use libpapago.Dispatch.{json, answer}

res_send_plenty :
    (res : Response) (body : CString) → let (rc, out, a) = res_send res (some body) [] in a ≡ []
unfolding res_send
res_send_plenty res body = elim (Bool-cases res.is_stream_file) [
  | inl e ↦ rw e refl
  | inr e ↦ rw e refl
]

res_header_plenty : (res : Response) (k v : CString) → (res_header res (some k) (some v) []).1 ≡ []
unfolding res_header
res_header_plenty res k v = rw (add_kv_plenty res.headers k v) refl

module _ {W : Type 0} where
  -- The response is valid and there is memory.
  pub record IsGood (s : State W) : Type 0 where
    pub valid : IsValid s.res
    pub plenty : s.alloc ≡ []

  pub header-IsGood :
      (s : State W) (k v : CString)
      → IsGood s
      → (let (res, a) = res_header s.res (some k) (some v) s.alloc in
          IsGood (record s { res = res; alloc = a }))
  header-IsGood s k v g = record {
    valid = res_header-IsValid s.res (some k) (some v) s.alloc g.valid;
    plenty =
        ap (λ a. (res_header s.res (some k) (some v) a).1) g.plenty ∙ res_header_plenty s.res k v;
  }

  send-IsGood :
      (s : State W) (body : CString)
      → IsGood s
      → (let (rc, res, a) = res_send s.res (some body) s.alloc in
          IsGood (record s { res = res; alloc = a }))
  send-IsGood s body g =
      subst
        (λ rest.
          let (rc, res, a) = res_send s.res (some body) rest in
          IsGood (record s { res = res; alloc = a }))
        (sym g.plenty)
        (record {
          valid = (res_send-IsValid s.res (some body) g.valid).0;
          plenty = res_send_plenty s.res body;
        })

  -- papago_res_json keeps the response valid.
  pub json-IsGood : (text : CString) (s : State W) → IsGood s → IsGood (json text s)
  unfolding json res_json
  json-IsGood text s g =
      let (res, a) =
        res_header s.res (some content_type) (some (codes "application/json")) s.alloc in
      send-IsGood (record s { res = res; alloc = a }) text
        (header-IsGood s content_type (codes "application/json") g)

  pub status-IsGood :
      (s : State W) (status : ℕ) → IsGood s → IsGood (record s { res = set_status s.res status })
  status-IsGood s status g = record {
    valid = record { owned = g.valid.owned; file_or_body = g.valid.file_or_body };
    plenty = g.plenty;
  }

  pub answer-IsGood :
      (status : ℕ) (text : CString) (s : State W) → IsGood s → IsGood (answer status text s)
  unfolding answer
  answer-IsGood status text s g =
      json-IsGood text (record s { res = set_status s.res status }) (status-IsGood s status g)
