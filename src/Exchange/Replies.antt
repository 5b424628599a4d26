-- ===== src/Exchange/Replies.antt =====
-- What libmicrohttpd is given for a response.
use libpapago.Prelude.{
  ℕ, ◌≡◌, ◌≢◌, ◌↔◌, ap, ◌∙◌, ◌∷◌, ◌⊎◌, ◌<◌, refl, sym, Bool, true, false, ◌&&◌, List, [], ◌++◌,
  Option, none, some, arith, ltb, leb, if◌then◌else◌, length, Bool-cases, Option-cases, &&-cases,
  inl, inr, ltb→lt, take-length,
}
use mathlib.Core.Path.{subst}
use mathlib.Core.Option.{some-injective}
use libpapago.Prelude.Text.{CString, codes}
use libpapago.Response.{Body, null, held, freed, Response}
use libpapago.Response.Valid.{HasLength, IsValid}
use libpapago.Exchange.{
  Reply, stream, buffer, sent_bytes, has_part, wants_gzip, gzip_kvs, choose, reply_body, reply,
}

-- The bytes of a body; there are none for NULL.
abbrev pub payload : Body → List ℕ
payload null = []
payload (held bytes) = bytes
payload freed = []

sent_bytes-payload : (b : Body) (len : ℕ) → HasLength b len → sent_bytes b len ≡ some (payload b)
unfolding sent_bytes
sent_bytes-payload null len h = rw h refl
sent_bytes-payload (held bytes) len h =
    let e : leb len (length bytes) ≡ true = ground arith in rw (e, h, take-length bytes) refl
sent_bytes-payload freed len h = elim h [ ]

-- A body that is not empty, and a client that accepts gzip.
wants_gzip_iff :
    (accept : Option CString) (b : Body) (len : ℕ)
    → HasLength b len
    → (wants_gzip accept b len ≡ true) ↔ (
        (payload b ≢ [])
        × ((text : CString) × (accept ≡ some text) × (has_part (codes "gzip") text ≡ true)))
unfolding wants_gzip
wants_gzip_iff none b len v =
    (λ h. absurd (cc), λ h. let (text, same, part) = h.1 in absurd (none_ne_some same))
  where
    none_ne_some : {text : CString} → none ≡ some text → ⊥
    none_ne_some e = cc
wants_gzip_iff (some text) null len v = (λ h. absurd (cc), λ h. absurd (h.0 refl))
wants_gzip_iff (some text) (held []) len v = (λ h. absurd (ground arith), λ h. absurd (h.0 refl))
wants_gzip_iff (some text) (held (c ∷ bytes)) len v = (
  λ h. ((λ e. absurd (cc)), (text, refl, ground arith)),
  λ h.
      let (other, same, part) = h.1 in
      let at : has_part (codes "gzip") text ≡ true =
        ap (has_part (codes "gzip")) (some-injective text other same) ∙ part in
      ground arith,
)
wants_gzip_iff (some text) freed len v = elim v [ ]

module _ (compression : Bool) (gzip : List ℕ → Option (List ℕ)) (accept : Option CString) where
  -- A client that accepts gzip, a server that compresses, and a body that is not empty.
  abbrev pub IsWanted : Response → Type 0
  IsWanted res =
      (compression ≡ true)
      × (payload res.body ≢ [])
      × ((text : CString) × (accept ≡ some text) × (has_part (codes "gzip") text ≡ true))

  -- gzip makes the body shorter.
  abbrev pub IsShorter : Response → List ℕ → Type 0
  IsShorter res packed =
      (gzip (payload res.body) ≡ some packed) × (length packed < length (payload res.body))

  -- The body as it is, where it is not to be compressed or gzip does not make it shorter.
  abbrev pub IsPlain : Response → Option Reply → Type 0
  IsPlain res out =
      ((¬ IsWanted res) ⊎ ((packed : List ℕ) → ¬ IsShorter res packed))
      × (out ≡ some (buffer res.status (payload res.body) res.headers))

  -- The body compressed, for a client that accepts it, and shorter than it was.
  abbrev pub IsPacked : Response → Option Reply → Type 0
  IsPacked res out =
      IsWanted res
      × ((packed : List ℕ) × IsShorter res packed
          × (out ≡ some (buffer res.status packed (gzip_kvs ++ res.headers))))

  choose_lem :
      (res : Response) (bytes : List ℕ) (len : res.body_length ≡ length bytes)
      (packed : Option (List ℕ))
      → (((short : List ℕ) → ¬ ((packed ≡ some short) × (length short < length bytes)))
          × (choose res bytes packed ≡ buffer res.status bytes res.headers))
        ⊎ ((short : List ℕ) × ((packed ≡ some short) × (length short < length bytes))
            × (choose res bytes packed ≡ buffer res.status short (gzip_kvs ++ res.headers)))
  unfolding choose
  choose_lem res bytes len none = inl (λ short h. absurd (none_ne_some h.0), refl)
    where
      none_ne_some : {short : List ℕ} → none ≡ some short → ⊥
      none_ne_some e = cc
  choose_lem res bytes len (some packed) = elim (Bool-cases (ltb (length packed) res.body_length)) [
    | inl e ↦ inr (
      packed,
      (refl, subst (λ n. length packed < n) len (ltb→lt (length packed) res.body_length e)),
      rw e refl,
    )
    | inr e ↦ inl (
      λ short h.
          let same = ap length (some-injective packed short h.0) in
          absurd (longer (length packed) (length short) e same h.1),
      rw e refl,
    )
  ]
    where
      longer : (n k : ℕ) → ltb n res.body_length ≡ false → n ≡ k → k < length bytes → ⊥
      longer n k e same h = ground (arith, len)

  -- A file exactly when the response is one.
  abbrev pub IsFile : Response → ℕ → Type 0
  IsFile res fd = (res.stream_fd ≡ some fd) × (res.is_stream_file ≡ true)

  -- The three things that libmicrohttpd can be given, each on its condition.
  abbrev pub Sent : Response → Option Reply → Type 0
  Sent res out =
      ((fd : ℕ) × IsFile res fd
        × (out ≡ some (stream res.status fd res.stream_file_size res.headers)))
      ⊎ (((fd : ℕ) → ¬ IsFile res fd) × (IsPlain res out ⊎ IsPacked res out))

  length-payload : (b : Body) (len : ℕ) → HasLength b len → len ≡ length (payload b)
  length-payload null len h = h
  length-payload (held bytes) len h = h
  length-payload freed len h = elim h [ ]

  reply_body-some :
      (res : Response) (bytes : List ℕ)
      → sent_bytes res.body res.body_length ≡ some bytes
      → reply_body compression gzip accept res
        ≡ some (
            if compression && wants_gzip accept res.body res.body_length
            then choose res bytes (gzip bytes)
            else buffer res.status bytes res.headers)
  unfolding reply_body
  reply_body-some res bytes sent = rw (sent, reply_body) refl

  wanted_lem :
      (res : Response)
      → IsValid res
      → ((compression && wants_gzip accept res.body res.body_length ≡ true) × IsWanted res)
        ⊎ ((compression && wants_gzip accept res.body res.body_length ≡ false) × (¬ IsWanted res))
  wanted_lem res v = elim (Bool-cases (compression && wants_gzip accept res.body res.body_length)) [
    | inl e ↦
        let (on, w) = &&-cases compression (wants_gzip accept res.body res.body_length) e in
        let (some_bytes, accepts) = (wants_gzip_iff accept res.body res.body_length v.owned).0 w in
        inl (e, (on, some_bytes, accepts))
    | inr e ↦ inr (
      e,
      λ h.
          let w = (wants_gzip_iff accept res.body res.body_length v.owned).1 (h.1, h.2) in
          absurd (both h.0 w e),
    )
  ]
    where
      both : {b c : Bool} → b ≡ true → c ≡ true → (b && c) ≡ false → ⊥
      both h k e = ground arith

  reply_body_lem :
      (res : Response)
      → IsValid res
      → IsPlain res (reply_body compression gzip accept res)
        ⊎ IsPacked res (reply_body compression gzip accept res)
  reply_body_lem res v =
      let sent =
        reply_body-some res (payload res.body)
          (sent_bytes-payload res.body res.body_length v.owned) in
      elim (wanted_lem res v) [
        | inr (e, unwanted) ↦ inl (inl unwanted, rw (sent, e) refl)
        | inl (e, wanted) ↦
            elim (choose_lem res (payload res.body)
              (length-payload res.body res.body_length v.owned) (gzip (payload res.body))) [
                | inl (long, plain) ↦ inl (inr long, rw (sent, e, plain) refl)
                | inr (packed, short, c) ↦ inr (wanted, (packed, short, rw (sent, e, c) refl))
              ]
      ]

  reply-none :
      (res : Response)
      → res.stream_fd ≡ none
      → reply compression gzip accept res ≡ reply_body compression gzip accept res
  unfolding reply
  reply-none res e = simp (e, reply)

  reply_other :
      (res : Response) (fd : ℕ)
      → res.stream_fd ≡ some fd
      → res.is_stream_file ≡ false
      → reply compression gzip accept res ≡ reply_body compression gzip accept res
  unfolding reply
  reply_other res fd e f = simp (e, f, reply)

  reply_stream :
      (res : Response) (fd : ℕ)
      → res.stream_fd ≡ some fd
      → res.is_stream_file ≡ true
      → reply compression gzip accept res
        ≡ some (stream res.status fd res.stream_file_size res.headers)
  unfolding reply
  reply_stream res fd e f = simp (e, f, reply)

  -- The reply of a valid response: its file exactly when it is one, and else its body, byte for byte, or
  -- what gzip makes of it exactly when compression is on, the client accepts gzip, the body is not empty
  -- and the result is shorter. The body is never read past its end or after it was freed.
  pub reply-Sent : (res : Response) → IsValid res → Sent res (reply compression gzip accept res)
  reply-Sent res v = elim (Option-cases res.stream_fd) [
    | inl e ↦ inr (
      λ fd h. absurd (none_ne_some (sym e ∙ h.0)),
      subst (λ out. IsPlain res out ⊎ IsPacked res out) (sym (reply-none res e))
          (reply_body_lem res v),
    )
    | inr (fd, e) ↦ elim (Bool-cases res.is_stream_file) [
      | inl f ↦ inl (fd, (e, f), reply_stream res fd e f)
      | inr f ↦ inr (
        λ other h. absurd (false_ne_true (sym f ∙ h.1)),
        subst (λ out. IsPlain res out ⊎ IsPacked res out) (sym (reply_other res fd e f))
            (reply_body_lem res v),
      )
    ]
  ]
    where
      none_ne_some : {fd : ℕ} → none ≡ some fd → ⊥
      none_ne_some e = cc

      false_ne_true : false ≡ true → ⊥
      false_ne_true e = cc
