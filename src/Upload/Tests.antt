-- ===== src/Upload/Tests.antt =====
-- A body in two parts, with a limit of ten bytes.
use libpapago.Prelude.{◌<◌, ◌≡◌, ◌⊎◌, refl, true, [], ◌∷◌, arith, length}
use libpapago.Prelude.Text.{codes}
use libpapago.Method.{post}
use libpapago.Request.{Request, new_request}
use libpapago.Multipart.Text.{concat}
use libpapago.Upload.Body.{Received, receive_bodies, receive_bodies_lem}

abbrev request : Request
request = new_request post (codes "/")

receive_bodies_lem_example :
    Received 10
      (receive_bodies 10 request (codes "a=1" ∷ codes "&b=2" ∷ []))
      (concat (codes "a=1" ∷ codes "&b=2" ∷ []))
    ⊎ ((10 < length (concat (codes "a=1" ∷ codes "&b=2" ∷ [])))
        × ((receive_bodies 10 request (codes "a=1" ∷ codes "&b=2" ∷ [])).body_too_large ≡ true))
receive_bodies_lem_example =
    receive_bodies_lem 10 request (codes "a=1" ∷ codes "&b=2" ∷ []) refl refl refl (omega arith)
