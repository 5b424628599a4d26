-- ===== src/Static/Inside.antt =====
-- A file is served only from inside the configured directory.
use mathlib.Core.Path.{subst}
use libpapago.Prelude.{
  ℕ, ◌≡◌, ◌⊎◌, ◌↔◌, refl, sym, ap, ◌∙◌, true, false, [], ◌∷◌, ◌++◌, Option, none, some, arith,
  ==_iff, length, drop, drop-append, Bool-cases, Option-cases, &&-cases, inl, inr, append-nil,
}
use libpapago.Prelude.Text.{CString, codes, starts_with, starts_with_iff}
use libpapago.Alloc.{Alloc}
use libpapago.Request.{Request}
use libpapago.Response.{Response, res_send, sendfile_mime}
use libpapago.Response.Valid.{IsValid, sendfile_mime-IsValid}
use libpapago.Static.{
  FileSystem, regular, refuse, Located, found, refused, locate_index, locate, ends_component,
  is_inside, send_resolved, serve_located, relative_path, serve_static,
}

-- A path is a directory itself or lies below it.
abbrev pub Inside : CString → CString → Type 0
Inside root path = (path ≡ root) ⊎ ((rest : CString) × (path ≡ root ++ b'/' ∷ rest))

Inside-rest : (root rest : CString) → ends_component rest ≡ true → Inside root (root ++ rest)
Inside-rest root [] h = inl (append-nil root)
Inside-rest root (c ∷ s) h = inr (s, ap (λ d. root ++ d ∷ s) ((==_iff c b'/').0 h))

starts_with-append : (root rest : CString) → starts_with root (root ++ rest) ≡ true
starts_with-append root rest = (starts_with_iff root (root ++ rest)).1 (rest, refl)

is_inside-append : (root rest : CString) → is_inside root (root ++ rest) ≡ ends_component rest
unfolding is_inside
is_inside-append root rest = rw (starts_with-append root rest, drop-append root rest)

-- The test on the resolved path is exact.
pub is_inside_iff : (root path : CString) → (is_inside root path ≡ true) ↔ Inside root path
unfolding is_inside
is_inside_iff root path = (
  λ h.
      let (s, e) = &&-cases _ _ h in
      let (rest, q) = (starts_with_iff root path).0 s in
      let r : ends_component rest ≡ true =
        sym (ap ends_component (drop-append root rest))
        ∙ ap (λ p. ends_component (drop (length root) p)) (sym q)
        ∙ e in
      subst (Inside root) (sym q) (Inside-rest root rest r),
  λ h. elim h [
    | inl e ↦ ap (is_inside root) (e ∙ sym (append-nil root)) ∙ is_inside-append root []
    | inr (rest, e) ↦ ap (is_inside root) e ∙ is_inside-append root (b'/' ∷ rest)
  ],
)

-- A refusal streams nothing that was not streamed before.
refuse-stream :
    (status : ℕ) (text : CString) (res : Response) (a : Alloc)
    → (refuse status text res a).0.is_stream_file ≡ res.is_stream_file
unfolding refuse res_send
refuse-stream status text res a = ground arith

-- What a response that streams a file was given: a regular file that resolves to a path inside the
-- root, and the descriptor that was opened there.
pub record IsServed (fs : FileSystem) (root : CString) (out : Response) : Type 0 where
  pub filepath : CString
  pub path : CString
  pub is_regular : fs.stat filepath ≡ regular
  pub resolved : fs.realpath filepath ≡ some path
  pub inside : Inside root path
  pub opened : out.stream_fd ≡ (fs.probe path).fd

locate_index-regular :
    (fs : FileSystem) (p f : CString) → locate_index fs p ≡ found f → fs.stat f ≡ regular
unfolding locate_index
locate_index-regular fs p f h = ground arith

locate-regular :
    (fs : FileSystem) (dir path f : CString) → locate fs dir path ≡ found f → fs.stat f ≡ regular
unfolding locate
locate-regular fs dir path f h =
    ground (arith, locate_index-regular fs (dir ++ path ++ codes "/index.html") f)

-- The ways through serve_located.
serve_located-missing :
    (fs : FileSystem) (root f : CString) (res : Response) (a : Alloc)
    → fs.realpath f ≡ none
    → serve_located fs root (found f) res a ≡ refuse 404 (codes "file not found") res a
unfolding serve_located
serve_located-missing fs root f res a e = rw (e, serve_located)

serve_located-outside :
    (fs : FileSystem) (root f path : CString) (res : Response) (a : Alloc)
    → fs.realpath f ≡ some path
    → is_inside root path ≡ false
    → serve_located fs root (found f) res a ≡ refuse 403 (codes "invalid path") res a
unfolding serve_located
serve_located-outside fs root f path res a e i = rw (e, i, serve_located)

serve_located-inside :
    (fs : FileSystem) (root f path : CString) (res : Response) (a : Alloc)
    → fs.realpath f ≡ some path
    → is_inside root path ≡ true
    → serve_located fs root (found f) res a ≡ send_resolved fs path res a
unfolding serve_located
serve_located-inside fs root f path res a e i = rw (e, i, serve_located)

module _ (fs : FileSystem) (res : Response) (v : IsValid res)
    (plain : res.is_stream_file ≡ false) where
  refuse_no_stream :
      (status : ℕ) (text : CString) (a : Alloc)
      → (refuse status text res a).0.is_stream_file ≡ true
      → ⊥
  refuse_no_stream status text a h = absurd (cc (h, refuse-stream status text res a, plain))

  send_resolved-fd :
      (path : CString) (a : Alloc)
      → (send_resolved fs path res a).0.is_stream_file ≡ true
      → (send_resolved fs path res a).0.stream_fd ≡ (fs.probe path).fd
  unfolding send_resolved
  send_resolved-fd path a h =
      let sent = sendfile_mime res path none (fs.probe path) a in
      elim (sendfile_mime-IsValid res path none (fs.probe path) a v).1 [
        | inl (rc, stream, fd, closed) ↦ rw rc fd
        | inr (rc, same, closed) ↦ absurd (
            cc (
              h,
              rc,
              refuse-stream 500 (codes "failed to serve file") sent.1 sent.3,
              ap (λ (r : Response). r.is_stream_file) same,
              plain,
            ))
      ]

  serve_located-IsServed :
      (root : CString) (l : Located) (a : Alloc)
      → ((f : CString) → l ≡ found f → fs.stat f ≡ regular)
      → (serve_located fs root l res a).0.is_stream_file ≡ true
      → IsServed fs root (serve_located fs root l res a).0
  serve_located-IsServed root (refused status text) a r h =
      absurd (refuse_no_stream status text a (unfold serve_located in h))
  serve_located-IsServed root (found f) a r h = elim (Option-cases (fs.realpath f)) [
    | inl e ↦ absurd (
        refuse_no_stream 404 (codes "file not found") a
          (sym (ap (λ t. t.0.is_stream_file) (serve_located-missing fs root f res a e)) ∙ h))
    | inr (path, e) ↦ elim (Bool-cases (is_inside root path)) [
      | inl i ↦
          let same = serve_located-inside fs root f path res a e i in
          record {
            filepath = f;
            path = path;
            is_regular = r f refl;
            resolved = e;
            inside = (is_inside_iff root path).0 i;
            opened =
                ap (λ t. t.0.stream_fd) same
                ∙ send_resolved-fd path a (sym (ap (λ t. t.0.is_stream_file) same) ∙ h);
          }
      | inr i ↦ absurd (
          refuse_no_stream 403 (codes "invalid path") a (
            sym (ap (λ t. t.0.is_stream_file) (serve_located-outside fs root f path res a e i))
            ∙ h))
    ]
  ]

  serve_static-located :
      (dir root path : CString) (req : Request) (a : Alloc)
      → relative_path req ≡ some path
      → fs.realpath dir ≡ some root
      → serve_static fs (some dir) req res a ≡ serve_located fs root (locate fs dir path) res a
  unfolding serve_static
  serve_static-located dir root path req a p q = rw (p, q, serve_static)

  serve_static-long :
      (dir : CString) (req : Request) (a : Alloc)
      → relative_path req ≡ none
      → serve_static fs (some dir) req res a ≡ refuse 414 (codes "path too long") res a
  unfolding serve_static
  serve_static-long dir req a p = rw (p, serve_static)

  serve_static-no_root :
      (dir path : CString) (req : Request) (a : Alloc)
      → relative_path req ≡ some path
      → fs.realpath dir ≡ none
      → serve_static fs (some dir) req res a
        ≡ refuse 500 (codes "static directory not configured") res a
  unfolding serve_static
  serve_static-no_root dir path req a p q = rw (p, q, serve_static)

  -- The handler for static files streams a file only if a directory is configured and resolves, and
  -- then it is a regular file whose resolved path lies inside the resolved directory, whatever the
  -- request's path holds and whatever links the file system has. The response is valid and no file
  -- before.
  pub serve_static-IsServed :
      (static_dir : Option CString) (req : Request) (a : Alloc)
      → (serve_static fs static_dir req res a).0.is_stream_file ≡ true
      → (dir : CString) × (root : CString) × (static_dir ≡ some dir)
        × (fs.realpath dir ≡ some root)
        × IsServed fs root (serve_static fs static_dir req res a).0
  serve_static-IsServed none req a h =
      absurd (
        refuse_no_stream 500 (codes "static directory not configured") a (unfold serve_static in h))
  serve_static-IsServed (some dir) req a h = elim (Option-cases (relative_path req)) [
    | inl p ↦ absurd (
        refuse_no_stream 414 (codes "path too long") a
          (sym (ap (λ t. t.0.is_stream_file) (serve_static-long dir req a p)) ∙ h))
    | inr (path, p) ↦ elim (Option-cases (fs.realpath dir)) [
      | inl q ↦ absurd (
          refuse_no_stream 500 (codes "static directory not configured") a
            (sym (ap (λ t. t.0.is_stream_file) (serve_static-no_root dir path req a p q)) ∙ h))
      | inr (root, q) ↦
          let same = serve_static-located dir root path req a p q in
          let located = locate fs dir path in
          let served =
            serve_located-IsServed root located a (λ f e. locate-regular fs dir path f e)
              (sym (ap (λ t. t.0.is_stream_file) same) ∙ h) in
          (dir, root, refl, q, rw same served)
    ]
  ]
