-- ===== src/Template/Fits.antt =====
-- A rendered page either fits the output with its NUL and is sent, or the output is overrun.
use libpapago.Prelude.{
  ℕ, suc, ◌-◌, ◌^◌, ◌≤◌, ◌<◌, ◌≡◌, ◌⊎◌, refl, ap, ◌∙◌, List, [], ◌++◌, Option, none, some, arith,
  All, length, replicate, append-nil, inl, inr,
}
use libpapago.Prelude.Text.{CString}
use libpapago.Alloc.{Alloc}
use libpapago.Response.{Response}
use libpapago.Multipart.Text.{concat}
use libpapago.MemStream.{ms_create}
use libpapago.MemStream.Write.{IsWithin}
use libpapago.Template.Stream.{
  write_parts-concat, copy_out-fits, copy_out-overflows, read_cstr-text, read_cstr-none,
}
use libpapago.Template.{
  Vars, Engine, Rendered, code, set_vars, copy_out, open_stream, finish_render, render_into,
  read_cstr, send_page, send_rendered, res_render,
}

pub ms_create-IsWithin : IsWithin ms_create
ms_create-IsWithin = record { counted = refl; inside = omega arith; room = omega arith }

module _ {T : Type 0} (engine : Engine T) where
  finish_render_lem :
      (t : T) (parts : List (List ℕ)) (output : List ℕ)
      → length (concat parts) < 2 ^ 62
      → finish_render engine t parts output [] ≡ elim (copy_out output (concat parts)) [
        | none ↦ none
        | some output' ↦ some (code 0 t output', [])
      ]
  unfolding finish_render
  finish_render_lem t parts output small =
      let (m, wrote, bytes) =
        write_parts-concat ms_create parts ms_create-IsWithin refl (omega (arith, small)) in
      rw (wrote, bytes, finish_render) refl

  abbrev sent : Response → Option (Rendered T × Alloc) → Option (ℕ × T × Response × Alloc)
  sent res none = none
  sent res (some (rendered, a')) = send_rendered res rendered a'

  abbrev rendered_as : T → Option (List ℕ) → Option (Rendered T × Alloc)
  rendered_as t none = none
  rendered_as t (some output') = some (code 0 t output', [])

  -- What papago_res_render makes of a template that renders, when there is memory.
  res_render-rendered :
      (t : T) (res : Response) (vars : Vars) (tmpl : CString) (n : ℕ) (parts : List (List ℕ))
      → engine.render (set_vars engine t vars) tmpl ≡ (parts, 0)
      → length (concat parts) < 2 ^ 62
      → res_render engine t res vars tmpl (replicate (suc n) 0) []
        ≡ elim (copy_out (replicate (suc n) 0) (concat parts)) [
          | none ↦ none
          | some output ↦ send_rendered res (code 0 (set_vars engine t vars) output) []
        ]
  unfolding res_render render_into open_stream
  res_render-rendered t res vars tmpl n parts e small =
      let t' = set_vars engine t vars in
      rw (e, res_render, render_into, finish_render_lem t' parts (replicate (suc n) 0) small)
        (by_copy (copy_out (replicate (suc n) 0) (concat parts)))
    where
      by_copy :
          (o : Option (List ℕ))
          → sent res (rendered_as (set_vars engine t vars) o) ≡ elim o [
            | none ↦ none
            | some output ↦ send_rendered res (code 0 (set_vars engine t vars) output) []
          ]
      by_copy none = refl
      by_copy (some output) = refl

  send_rendered-page :
      (t : T) (res : Response) (output text : List ℕ)
      → read_cstr output ≡ some text
      → send_rendered res (code 0 t output) []
        ≡ (let (rc, res', a) = send_page res text [] in some (rc, t, res', a))
  unfolding send_rendered
  send_rendered-page t res output text e = rw e refl

  send_rendered-none :
      (t : T) (res : Response) (output : List ℕ)
      → read_cstr output ≡ none
      → send_rendered res (code 0 t output) [] ≡ none
  unfolding send_rendered
  send_rendered-none t res output e = rw e refl

  -- An output without room for the NUL is overrun, by the copy or by the reader.
  overrun :
      (t : T) (res : Response) (n : ℕ) (text : List ℕ)
      → All (λ c. 0 < c) text
      → n < length text
      → elim (copy_out (replicate (suc n) 0) text) [
        | none ↦ none
        | some output ↦ send_rendered res (code 0 t output) []
      ]
        ≡ none
  overrun t res n text texts long = elim (split (length text) long) [
    | inl fills ↦
        let nothing : suc n - length text ≡ 0 = omega (arith, fills) in
        let page =
          ap (λ k. read_cstr (text ++ replicate k 0)) nothing
          ∙ ap read_cstr (append-nil text)
          ∙ read_cstr-none text texts in
        rw (copy_out-fits (suc n) text (omega (arith, fills)))
          (send_rendered-none t res (text ++ replicate (suc n - length text) 0) page)
    | inr over ↦ rw (copy_out-overflows (suc n) text over) refl
  ]
    where
      split : (k : ℕ) → n < k → (k ≡ suc n) ⊎ (suc n < k)
      split k h = ground arith

  -- A template renders to a text without NUL bytes of fewer than 2^62 bytes, there is memory, and the
  -- output is zeroed: papago_res_render sends the text as a page when the output has room for it and
  -- for a NUL; and otherwise it runs past the end of the output.
  pub res_render_lem :
      (t : T) (res : Response) (vars : Vars) (tmpl : CString) (n : ℕ) (parts : List (List ℕ))
      → engine.render (set_vars engine t vars) tmpl ≡ (parts, 0)
      → length (concat parts) < 2 ^ 62
      → All (λ c. 0 < c) (concat parts)
      → ((length (concat parts) ≤ n)
          × (res_render engine t res vars tmpl (replicate (suc n) 0) [] ≡ (
              let (rc, res', a) = send_page res (concat parts) [] in
              some (rc, set_vars engine t vars, res', a))))
        ⊎ ((n < length (concat parts))
            × (res_render engine t res vars tmpl (replicate (suc n) 0) [] ≡ none))
  res_render_lem t res vars tmpl n parts e small texts =
      let text = concat parts in
      let rendered = res_render-rendered t res vars tmpl n parts e small in
      elim (split (length text)) [
        | inl fits ↦
            let room : suc n - length text ≡ suc (n - length text) = omega (arith, fits) in
            let page =
              ap (λ k. read_cstr (text ++ replicate k 0)) room
              ∙ read_cstr-text text (n - length text) texts in
            inl (
              fits,
              rendered
                  ∙ (rw (copy_out-fits (suc n) text (omega (arith, fits))) (
                      send_rendered-page (set_vars engine t vars) res
                        (text ++ replicate (suc n - length text) 0) text page)),
            )
        | inr long ↦ inr (long, rendered ∙ overrun (set_vars engine t vars) res n text texts long)
      ]
    where
      split : (k : ℕ) → (k ≤ n) ⊎ (n < k)
      split k = ground arith
