-- ===== src/Mime.antt =====
-- papago.c, papago_mime_type: the MIME type of a file by its extension.
pub mod Extension
use libpapago.Prelude.{
  ℕ, zero, suc, Bool, true, false, List, [], ◌∷◌, Option, none, some, ◌==◌, if◌then◌else◌, length,
  drop, get_elem?,
}
use libpapago.Prelude.Text.{CString, str_case_eq, codes}

-- The loop that finds the last dot: `i` goes down, and a slash ends it.
unfoldable pub find_ext : CString → ℕ → Option CString
find_ext filename zero = none
find_ext filename (suc i) =
    let c = get_elem? filename i in
    let before = find_ext filename i in
    elim c [
      | none ↦ none
      | some b ↦
          if b == b'.' then some (drop (suc i) filename) else if b == b'/' then none else before
    ]

-- The comparisons in their order; those joined by `||` stand one after the other.
abbrev pub mime_table : List (CString × CString)
mime_table =
    (codes "html", codes "text/html; charset=utf-8")
    ∷ (codes "htm", codes "text/html; charset=utf-8")
    ∷ (codes "css", codes "text/css; charset=utf-8")
    ∷ (codes "js", codes "application/javascript; charset=utf-8")
    ∷ (codes "json", codes "application/json")
    ∷ (codes "xml", codes "application/xml")
    ∷ (codes "txt", codes "text/plain; charset=utf-8")
    ∷ (codes "png", codes "image/png")
    ∷ (codes "jpg", codes "image/jpeg")
    ∷ (codes "jpeg", codes "image/jpeg")
    ∷ (codes "gif", codes "image/gif")
    ∷ (codes "svg", codes "image/svg+xml")
    ∷ (codes "ico", codes "image/x-icon")
    ∷ (codes "webp", codes "image/webp")
    ∷ (codes "mp4", codes "video/mp4")
    ∷ (codes "webm", codes "video/webm")
    ∷ (codes "ogg", codes "video/ogg")
    ∷ (codes "mp3", codes "audio/mpeg")
    ∷ (codes "wav", codes "audio/wav")
    ∷ (codes "m4a", codes "audio/mp4")
    ∷ (codes "pdf", codes "application/pdf")
    ∷ (codes "zip", codes "application/zip")
    ∷ (codes "tar", codes "application/x-tar")
    ∷ (codes "gz", codes "application/gzip")
    ∷ (codes "woff", codes "font/woff")
    ∷ (codes "woff2", codes "font/woff2")
    ∷ (codes "ttf", codes "font/ttf")
    ∷ []

abbrev pub octet_stream : CString
octet_stream = codes "application/octet-stream"

unfoldable pub type_of_ext : List (CString × CString) → CString → CString
unfolding str_case_eq
type_of_ext [] ext = octet_stream
type_of_ext ((name, type) ∷ rest) ext = if str_case_eq ext name then type else type_of_ext rest ext

unfoldable pub mime_type : Option CString → CString
mime_type none = octet_stream
mime_type (some filename) = elim (find_ext filename (length filename)) [
  | none ↦ octet_stream
  | some ext ↦ type_of_ext mime_table ext
]
