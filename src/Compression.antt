-- ===== src/Compression.antt =====
-- papago.c, compress_gzip. zlib is a parameter.
pub mod Decoded
mod Tests
use libpapago.Prelude.{
  ℕ, ◌%◌, ◌^◌, Bool, not, List, Option, none, some, if◌then◌else◌, length, take,
}
use libpapago.Alloc.{Alloc, malloc}

-- zlib: compressBound, is deflateInit2 `Z_OK`, and the bytes of `deflate` for an input and the size of
-- an output, if it answers `Z_STREAM_END`.
pub record Zlib : Type 0 where
  pub bound : ℕ → ℕ
  pub init_done : Bool
  pub deflate : List ℕ → ℕ → Option (List ℕ)

-- The conversion to `uInt`.
abbrev pub as_uint : ℕ → ℕ
as_uint n = n % 2 ^ 32

unfoldable pub compress_gzip : Zlib → List ℕ → Alloc → Option (List ℕ) × Alloc
compress_gzip z body a =
    let max_compressed = z.bound (length body) in
    let (done, a') = malloc a in
    if not done
    then (none, a')
    else if not z.init_done
    then (none, a')
    else (z.deflate (take (as_uint (length body)) body) (as_uint max_compressed), a')
