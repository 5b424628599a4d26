-- ===== src/Compression/Tests.antt =====
-- A body that is packed as one byte.
use libpapago.Prelude.{
  ℕ, ◌≡◌, refl, true, List, [], ◌∷◌, Option, none, some, arith, ap, sym, Bool-cases, inl, inr,
  if◌then◌else◌,
}
use mathlib.Core.Path.{subst}
use libpapago.Prelude.Text.{codes, str_eq, str_eq_iff}
use libpapago.Response.{Response, fresh, held}
use libpapago.Response.Valid.{IsValid}
use libpapago.Exchange.{reply}
use libpapago.Compression.{Zlib}
use libpapago.Compression.Decoded.{Inflates, Decodes, gzip, reply-Decodes}

abbrev text : List ℕ
text = codes "aaaaaaaa"

abbrev short : Zlib
short = record {
  bound = λ n. n;
  init_done = true;
  deflate = λ input size. if str_eq input text then some (8 ∷ []) else none;
}

abbrev unpack : List ℕ → Option (List ℕ)
unpack packed = some text

short-Inflates : Inflates short unpack
short-Inflates input size packed e = elim (Bool-cases (str_eq input text)) [
  | inl same ↦ ap some (sym ((str_eq_iff input text).0 same))
  | inr other ↦ absurd (nothing (subst (λ o. o ≡ some packed) (rw other refl) e))
]
  where
    nothing : none ≡ some packed → ⊥
    nothing h = cc

abbrev page : Response
page = record fresh { body = held text; body_length = 8 }

page-IsValid : IsValid page
page-IsValid = record { owned = refl; file_or_body = λ h. absurd (cc) }

reply-Decodes_example :
    Decodes short unpack
      (true ∷ [])
      page
      (reply true (gzip short unpack (true ∷ [])) (some (codes "gzip, br")) page)
reply-Decodes_example =
    reply-Decodes short unpack (true ∷ []) true (some (codes "gzip, br")) page short-Inflates
      page-IsValid refl (omega arith)
