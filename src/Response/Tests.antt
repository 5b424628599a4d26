-- ===== src/Response/Tests.antt =====
-- The response helpers of papago.c on a fresh response.
use libpapago.Prelude.{◌≡◌, ◌⊎◌, true, false, [], ◌∷◌, none, some}
use libpapago.Prelude.Text.{codes}
use libpapago.Response.{fresh, FileProbe, sendfile_mime}
use libpapago.Response.Valid.{IsValid, fresh-IsValid, sendfile_mime-IsValid}

abbrev regular : FileProbe
regular = record { fd = some 7; is_regular = true; made_blocking = true; size = 120 }

sendfile_mime-IsValid_example :
    let (rc, out, closed, rest) = sendfile_mime fresh (codes "a.txt") none regular (false ∷ []) in
    IsValid out
    × (((rc ≡ 0) × (out.is_stream_file ≡ true) × (out.stream_fd ≡ some 7) × (closed ≡ []))
        ⊎ ((rc ≡ 1) × (out ≡ fresh) × (closed ≡ 7 ∷ [])))
sendfile_mime-IsValid_example =
    sendfile_mime-IsValid fresh (codes "a.txt") none regular (false ∷ []) fresh-IsValid
