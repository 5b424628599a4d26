-- ===== src/MemStream/Laws.antt =====
-- What was written into a stream is read again.
use libpapago.Prelude.{ℕ, ◌≡◌, List, length}
use libpapago.Alloc.{Alloc}
use libpapago.MemStream.{MemStream, ms_read, seek_set, ms_seek}

-- Seeking to where a write began, and reading as much, gives what was written.
abbrev pub ReadsBack : MemStream → ℕ → List ℕ → Type 0
ReadsBack m pos buf =
    let (rc, at) = ms_seek m pos seek_set in
    (rc ≡ 0) × (at ≡ record m { pos = pos }) × ((ms_read at (length buf)).0 ≡ buf)
