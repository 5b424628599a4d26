-- ===== src/Compression/Decoded.antt =====
-- What a client reads from a compressed reply.
use libpapago.Prelude.{
  ℕ, ◌^◌, ◌<◌, ◌≡◌, ◌⊎◌, refl, ap, sym, ◌∙◌, Bool, true, false, not, List, ◌++◌, Option, none, some,
  arith, length, take, take-length, Bool-cases, inl, inr,
}
use libpapago.Prelude.Text.{CString}
use libpapago.Alloc.{Alloc, malloc}
use libpapago.Kv.{Kv}
use libpapago.Response.{Response}
use libpapago.Response.Valid.{IsValid}
use libpapago.Exchange.{Reply, buffer, gzip_kvs, reply}
use libpapago.Exchange.Replies.{payload, Sent, reply-Sent}
use libpapago.Compression.{Zlib, as_uint, compress_gzip}

-- What zlib documents: the output that `deflate` completes is that of its input.
abbrev pub Inflates : Zlib → (List ℕ → Option (List ℕ)) → Type 0
Inflates z gunzip =
    (input : List ℕ) (size : ℕ) (packed : List ℕ)
    → z.deflate input size ≡ some packed
    → gunzip packed ≡ some input

compress_gzip-Inflates :
    (z : Zlib) (gunzip : List ℕ → Option (List ℕ)) (body : List ℕ) (a : Alloc) (packed : List ℕ)
    → Inflates z gunzip
    → (compress_gzip z body a).0 ≡ some packed
    → gunzip packed ≡ some (take (as_uint (length body)) body)
compress_gzip-Inflates z gunzip body a packed h e = elim (Bool-cases (not (malloc a).0)) [
  | inl no_memory ↦ absurd (none_left (without no_memory))
  | inr memory ↦ elim (Bool-cases (not z.init_done)) [
    | inl no_init ↦ absurd (none_left (without_init memory no_init))
    | inr init ↦
        h (take (as_uint (length body)) body) (as_uint (z.bound (length body))) packed
          (sym (deflated memory init) ∙ e)
  ]
]
  where
    none_left : (compress_gzip z body a).0 ≡ none → ⊥
    none_left f = cc

    without : not (malloc a).0 ≡ true → (compress_gzip z body a).0 ≡ none
    without f = unfold compress_gzip in (simp (f, compress_gzip))

    without_init :
        not (malloc a).0 ≡ false → not z.init_done ≡ true → (compress_gzip z body a).0 ≡ none
    without_init f g = unfold compress_gzip in (simp (f, g, compress_gzip))

    deflated :
        not (malloc a).0 ≡ false
        → not z.init_done ≡ false
        → (compress_gzip z body a).0
          ≡ z.deflate (take (as_uint (length body)) body) (as_uint (z.bound (length body)))
    deflated f g = unfold compress_gzip in (simp (f, g, compress_gzip))

module _ (z : Zlib) (gunzip : List ℕ → Option (List ℕ)) (a : Alloc) where
  abbrev pub gzip : List ℕ → Option (List ℕ)
  gzip body = (compress_gzip z body a).0

  -- A buffer whose bytes are the body, or are the body when they are unpacked and are marked so.
  abbrev pub Decodes : Response → Option Reply → Type 0
  Decodes res out =
      (bytes : List ℕ) × (headers : List Kv) × (out ≡ some (buffer res.status bytes headers))
      × (((bytes ≡ payload res.body) × (headers ≡ res.headers))
          ⊎ ((gunzip bytes ≡ some (payload res.body)) × (headers ≡ gzip_kvs ++ res.headers)))

  -- A valid response that is no file and has a body of fewer than 2^32 bytes, for a zlib whose output
  -- unpacks to its input: whatever the allocator and zlib answer and whether the client accepts gzip or
  -- not, the reply carries exactly the body, as it is, or packed and then marked as gzip.
  pub reply-Decodes :
      (compression : Bool) (accept : Option CString) (res : Response)
      → Inflates z gunzip
      → IsValid res
      → res.stream_fd ≡ none
      → length (payload res.body) < 2 ^ 32
      → Decodes res (reply compression gzip accept res)
  reply-Decodes compression accept res h v no_file small =
      by_reply (reply-Sent compression gzip accept res v)
    where
      whole : take (as_uint (length (payload res.body))) (payload res.body) ≡ payload res.body
      whole =
          let exact : as_uint (length (payload res.body)) ≡ length (payload res.body) =
            omega (arith, small) in
          ap (λ n. take n (payload res.body)) exact ∙ take-length (payload res.body)

      by_reply :
          Sent compression gzip accept res (reply compression gzip accept res)
          → Decodes res (reply compression gzip accept res)
      by_reply (inl (fd, file, out)) = absurd (clash (sym no_file ∙ file.0))
        where
          clash : none ≡ some fd → ⊥
          clash e = cc
      by_reply (inr (other, inl (reason, plain))) =
          (payload res.body, res.headers, plain, inl (refl, refl))
      by_reply (inr (other, inr (wanted, (packed, short, out)))) = (
        packed,
        gzip_kvs ++ res.headers,
        out,
        inr (
          compress_gzip-Inflates z gunzip (payload res.body) a packed h short.0 ∙ ap some whole,
          refl,
        ),
      )
