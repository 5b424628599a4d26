-- ===== src/MemStream.antt =====
-- papago.c, the stream in memory behind papago_render_file and its kin: memstream_t, ms_create,
-- ms_read, ms_write and ms_seek, in their versions for systems other than Apple's.
pub mod Write
pub mod Laws
mod Tests
use libpapago.Prelude.{
  ℕ, ◌+◌, ◌-◌, ◌*◌, ◌%◌, ◌^◌, Bool, true, false, not, ◌&&◌, List, [], ◌++◌, Option, none, some, ltb,
  leb, if◌then◌else◌, length, take, drop,
}
use libpapago.Alloc.{Alloc, malloc}

-- `memstream_t`; `bytes` are the `size` bytes at `data`, before the NUL.
pub record MemStream : Type 0 where
  pub bytes : List ℕ
  pub size : ℕ
  pub capacity : ℕ
  pub pos : ℕ

-- ms_create when it succeeds.
abbrev pub ms_create : MemStream
ms_create = record { bytes = []; size = 0; capacity = 128; pos = 0 }

-- ms_read: the bytes, and the stream behind them.
unfoldable pub ms_read : MemStream → ℕ → List ℕ × MemStream
ms_read m size =
    let remain = m.size - m.pos in
    let count = if ltb remain size then remain else size in
    if leb m.size m.pos
    then ([], m)
    else (take count (drop m.pos m.bytes), record m { pos = m.pos + count })

abbrev pub add_size : ℕ → ℕ → ℕ
add_size a b = (a + b) % 2 ^ 64

-- `memcpy` to a position of the bytes.
abbrev pub overwrite : List ℕ → ℕ → List ℕ → List ℕ
overwrite bytes pos buf = take pos bytes ++ (buf ++ drop (pos + length buf) bytes)

-- The bytes are copied and the NUL is written, into a buffer of this capacity; `none` is a write behind
-- it.
unfoldable pub copy_in : MemStream → List ℕ → ℕ → Option MemStream
copy_in m buf capacity =
    let pos = add_size m.pos (length buf) in
    let size = if ltb m.size pos then pos else m.size in
    if ltb size capacity
    then some (record {
      bytes = overwrite m.bytes m.pos buf;
      size = size;
      capacity = capacity;
      pos = pos;
    })
    else none

-- ms_write: the number that it returns, which is 1 when there is no memory.
unfoldable pub ms_write : MemStream → List ℕ → Alloc → Option (ℕ × MemStream × Alloc)
ms_write m buf a =
    let need = add_size (add_size m.pos (length buf)) 1 in
    let grows = ltb m.capacity need in
    let (done, a') = malloc a in
    if grows && not done
    then some (1, m, a')
    else elim (copy_in m buf (if grows then (need * 2) % 2 ^ 64 else m.capacity)) [
      | none ↦ none
      | some m' ↦ some (length buf, m', if grows then a' else a)
    ]

pub data Whence : Type 0 where
  seek_set seek_cur seek_end seek_other : Whence

-- The new position; an offset is taken modulo 2^64, as its conversion to `size_t` does.
unfoldable pub new_pos : MemStream → ℕ → Whence → Option ℕ
new_pos m offset seek_set = some (offset % 2 ^ 64)
new_pos m offset seek_cur = some (add_size m.pos offset)
new_pos m offset seek_end = some (add_size m.size offset)
new_pos m offset seek_other = none

-- ms_seek: the number that it returns.
unfoldable pub ms_seek : MemStream → ℕ → Whence → ℕ × MemStream
ms_seek m offset whence = elim (new_pos m offset whence) [
  | none ↦ (1, m)
  | some pos ↦ if ltb m.size pos then (1, m) else (0, record m { pos = pos })
]
