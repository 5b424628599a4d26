-- ===== src/Template/Tests.antt =====
-- A template that shows one variable.
use libpapago.Prelude.{
  ℕ, ◌≤◌, ◌<◌, ◌≡◌, ◌⊎◌, refl, List, [], ◌∷◌, none, some, arith, All, length, replicate,
}
use libpapago.Prelude.Text.{CString, codes}
use libpapago.Response.{fresh}
use libpapago.Multipart.Text.{concat}
use libpapago.Template.{Vars, Engine, set_vars, send_page, res_render}
use libpapago.Template.Fits.{res_render_lem}

-- The context is the value of the variable that was set last.
abbrev shows_name : Engine CString
shows_name = record { set_var = λ t key value. value; render = λ t tmpl. (tmpl ∷ t ∷ [], 0) }

abbrev vars : Vars
vars = (codes "name", some (codes "Ann")) ∷ (codes "age", none) ∷ []

abbrev parts : List (List ℕ)
parts = codes "Hello, " ∷ codes "Ann" ∷ []

is_rendered : shows_name.render (set_vars shows_name [] vars) (codes "Hello, ") ≡ (parts, 0)
unfolding set_vars
is_rendered = refl

are_texts : All (λ c. 0 < c) (concat parts)
are_texts = ground arith

res_render_lem_example :
    ((length (concat parts) ≤ 15)
      × (res_render shows_name [] fresh vars (codes "Hello, ") (replicate 16 0) [] ≡ (
          let (rc, res', a) = send_page fresh (concat parts) [] in
          some (rc, set_vars shows_name [] vars, res', a))))
    ⊎ ((15 < length (concat parts))
        × (res_render shows_name [] fresh vars (codes "Hello, ") (replicate 16 0) [] ≡ none))
res_render_lem_example =
    res_render_lem shows_name [] fresh vars (codes "Hello, ") 15 parts is_rendered (omega arith)
      are_texts
