-- ===== src/Template.antt =====
-- papago.c, rendering of templates: papago_render_file, papago_render_template and papago_res_render.
-- The template engine, its context and what it writes are parameters; the stream that it writes to is
-- that of MemStream.
pub mod Stream
pub mod Fits
mod Tests
use libpapago.Prelude.{
  ℕ, Bool, true, false, not, ◌&&◌, ◌||◌, List, [], ◌∷◌, ◌++◌, Option, none, some, leb, ◌==◌,
  is_none, if◌then◌else◌, length, drop,
}
use libpapago.Prelude.Text.{CString, codes}
use libpapago.Alloc.{Alloc, malloc}
use libpapago.Response.{Response, res_header, res_send, content_type}
use libpapago.MemStream.{MemStream, ms_create, ms_write}

-- The arguments behind the fixed ones: a key, and a value that may be NULL.
abbrev pub Vars : Type 0
Vars = List (CString × Option CString)

-- The engine: mp_set_var, and the parts that a template writes with the code that it returns.
pub record Engine (T : Type 0) : Type 0 where
  pub set_var : T → CString → CString → T
  pub render : T → CString → List (List ℕ) × ℕ

-- What a caller gives for a template, the server with its context, and the output.
pub data Rendered (T : Type 0) : Type 0 where
  code : ℕ → T → List ℕ → Rendered T

module _ {T : Type 0} (engine : Engine T) where
  -- The loop over the variables; a NULL value is skipped.
  unfoldable pub set_vars : T → Vars → T
  set_vars t [] = t
  set_vars t ((key, none) ∷ vars) = set_vars t vars
  set_vars t ((key, some value) ∷ vars) = set_vars (engine.set_var t key value) vars

-- The variables before an empty key, at which papago_render_template ends too.
unfoldable pub until_empty : Vars → Vars
until_empty [] = []
until_empty (([], value) ∷ vars) = []
until_empty ((c ∷ key, value) ∷ vars) = (c ∷ key, value) ∷ until_empty vars

-- The parts are written to a stream. What stdio does after a write without memory is not part of the
-- repository; such a part is taken to be lost.
unfoldable pub write_parts : MemStream → List (List ℕ) → Alloc → Option (MemStream × Alloc)
write_parts m [] a = some (m, a)
write_parts m (part ∷ parts) a = elim (ms_write m part a) [
  | none ↦ none
  | some (n, m', a') ↦ write_parts m' parts a'
]

-- `memcpy` of the stream to the output; `none` is a write behind it.
unfoldable pub copy_out : List ℕ → List ℕ → Option (List ℕ)
copy_out output text =
    if leb (length text) (length output) then some (text ++ drop (length text) output) else none

-- _fmemopen: ms_create has two allocations, and the stream of stdio one.
unfoldable pub open_stream : Alloc → Bool × Alloc
open_stream a =
    let (m, a1) = malloc a in
    let (bytes, a2) = malloc a1 in
    let (file, a3) = malloc a2 in
    if not m then (false, a1) else (if bytes then (file, a3) else (false, a2))

module _ {T : Type 0} (engine : Engine T) where
  -- From the copy of a rendered template on; the context has its variables.
  unfoldable pub finish_render : T → List (List ℕ) → List ℕ → Alloc → Option (Rendered T × Alloc)
  finish_render t parts output a = elim (write_parts ms_create parts a) [
    | none ↦ none
    | some (m, a') ↦ elim (copy_out output m.bytes) [
      | none ↦ none
      | some output' ↦ some (code 0 t output', a')
    ]
  ]

  -- The common part of the three: `no_stream` and `no_text` are the codes without a stream, and when the
  -- engine fails.
  unfoldable pub render_into :
      ℕ → ℕ → T → Vars → CString → List ℕ → Alloc → Option (Rendered T × Alloc)
  render_into no_stream no_text t vars tmpl output a =
      let t' = set_vars engine t vars in
      let (opened, a') = open_stream a in
      let (parts, ret) = engine.render t' tmpl in
      if not opened
      then some (code no_stream t' output, a')
      else if not (ret == 0)
      then some (code no_text t' output, a')
      else finish_render t' parts output a'

  -- papago_render_file with a server and a context, and with an output that is not NULL; the engine is
  -- that for files. No output is a size of 0.
  unfoldable pub render_file : T → Vars → CString → List ℕ → Alloc → Option (Rendered T × Alloc)
  render_file t vars path [] a = some (code 4 t [], a)
  render_file t vars path (b ∷ output) a = render_into 5 6 t vars path (b ∷ output) a

  -- papago_render_template, likewise.
  unfoldable pub render_template : T → Vars → CString → List ℕ → Alloc → Option (Rendered T × Alloc)
  render_template t vars tmpl [] a = some (code 4 t [], a)
  render_template t vars tmpl (b ∷ output) a =
      render_into 4 5 t (until_empty vars) tmpl (b ∷ output) a

-- The C string in a buffer; `none` is a read behind it.
unfoldable pub read_cstr : List ℕ → Option CString
read_cstr [] = none
read_cstr (c ∷ bytes) =
    let rest = read_cstr bytes in
    if c == 0 then some [] else elim rest [ none ↦ none | some s ↦ some (c ∷ s) ]

-- The response for a rendered page.
unfoldable pub send_page : Response → CString → Alloc → ℕ × Response × Alloc
send_page res page a =
    let (r1, a1) = res_header res (some content_type) (some (codes "text/html; charset=utf-8")) a in
    let (r2, a2) =
      res_header r1 (some (codes "X-Content-Type-Options")) (some (codes "nosniff")) a1 in
    res_send r2 (some page) a2

-- papago_res_render behind the rendering: the code 0 sends the page.
unfoldable pub send_rendered :
    {T : Type 0} → Response → Rendered T → Alloc → Option (ℕ × T × Response × Alloc)
send_rendered res (code rc t output) a =
    if rc == 0
    then elim (read_cstr output) [
      | none ↦ none
      | some page ↦ let (rc', res', a') = send_page res page a in some (rc', t, res', a')
    ]
    else some (1, t, res, a)

module _ {T : Type 0} (engine : Engine T) where
  -- papago_res_render with a server, a context, a response, a template and an output.
  unfoldable pub res_render :
      T → Response → Vars → CString → List ℕ → Alloc → Option (ℕ × T × Response × Alloc)
  res_render t res vars tmpl [] a = some (1, t, res, a)
  res_render t res vars tmpl (b ∷ output) a =
      elim (render_into engine 1 1 t vars tmpl (b ∷ output) a) [
        | none ↦ none
        | some (rendered, a') ↦ send_rendered res rendered a'
      ]
