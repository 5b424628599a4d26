-- ===== src/MemStream/Write.antt =====
-- A write into a stream stays within its buffer.
use libpapago.Prelude.{
  ℕ, zero, suc, ◌+◌, ◌*◌, ◌%◌, ◌^◌, ◌≤◌, ◌<◌, ◌≡◌, ◌⊎◌, refl, ap, sym, ◌∙◌, true, false, List, [],
  ◌∷◌, ◌++◌, some, arith, ltb, if◌then◌else◌, length, length-append, take, take-append, drop,
  drop-append, length-drop, Bool-cases, inl, inr,
}
use libpapago.Alloc.{Alloc, malloc}
use libpapago.MemStream.{MemStream, add_size, overwrite, copy_in, ms_write}

-- The bytes and the NUL behind them fit, and the position is among them.
pub record IsWithin (m : MemStream) : Type 0 where
  pub counted : m.size ≡ length m.bytes
  pub inside : m.pos ≤ m.size
  pub room : m.size < m.capacity

length-take_le : (n : ℕ) (xs : List ℕ) → n ≤ length xs → length (take n xs) ≡ n
length-take_le zero xs h = omega arith
length-take_le (suc n) [] h = absurd (omega arith)
length-take_le (suc n) (x ∷ xs) h = omega (arith, length-take_le n xs (omega arith))

length-overwrite :
    (bytes : List ℕ) (pos : ℕ) (buf : List ℕ)
    → pos ≤ length bytes
    → length (overwrite bytes pos buf)
      ≡ (if ltb (length bytes) (pos + length buf) then pos + length buf else length bytes)
length-overwrite bytes pos buf h =
    let rest = drop (pos + length buf) bytes in
    let a = length-append (take pos bytes) (buf ++ rest) in
    let b = length-append buf rest in
    let c = length-take_le pos bytes h in
    let d = length-drop (pos + length buf) bytes in ground (arith, a, b, c, d)

-- What follows the position is what was written there.
pub take-overwrite :
    (bytes : List ℕ) (pos : ℕ) (buf : List ℕ)
    → pos ≤ length bytes
    → take (length buf) (drop pos (overwrite bytes pos buf)) ≡ buf
take-overwrite bytes pos buf h =
    let rest = drop (pos + length buf) bytes in
    ap (λ n. take (length buf) (drop n (overwrite bytes pos buf)))
      (sym (length-take_le pos bytes h))
    ∙ ap (take (length buf)) (drop-append (take pos bytes) (buf ++ rest))
    ∙ take-append buf rest

copy_in-IsWithin :
    (m : MemStream) (buf : List ℕ) (capacity : ℕ)
    → IsWithin m
    → m.pos + length buf < 2 ^ 62
    → m.size < capacity
    → m.pos + length buf < capacity
    → (m' : MemStream) × (copy_in m buf capacity ≡ some m')
      × IsWithin m'
      × (m'.bytes ≡ overwrite m.bytes m.pos buf)
      × (m'.pos ≡ m.pos + length buf)
unfolding copy_in
copy_in-IsWithin m buf capacity w small fits ends =
    let pos = add_size m.pos (length buf) in
    let exact : pos ≡ m.pos + length buf = omega arith in
    let size = if ltb m.size pos then pos else m.size in
    let total = length-overwrite m.bytes m.pos buf (omega (arith, w.inside, w.counted)) in
    let ok : ltb size capacity ≡ true = ground (arith, exact) in
    let m' : MemStream = record {
      bytes = overwrite m.bytes m.pos buf;
      size = size;
      capacity = capacity;
      pos = pos;
    } in
    (
      m',
      rw (ok, copy_in) refl,
      record {
        counted = ground (arith, exact, w.counted, total);
        inside = ground (arith, exact);
        room = ground (arith, exact);
      },
      refl,
      exact,
    )

-- The capacity that a write needs, and gets.
abbrev pub need : MemStream → List ℕ → ℕ
need m buf = add_size (add_size m.pos (length buf)) 1

ms_write-fails :
    (m : MemStream) (buf : List ℕ) (a : Alloc)
    → ltb m.capacity (need m buf) ≡ true
    → (malloc a).0 ≡ false
    → ms_write m buf a ≡ some (1, m, (malloc a).1)
unfolding ms_write
ms_write-fails m buf a e f = rw (e, f, ms_write) refl

ms_write-grows :
    (m : MemStream) (buf : List ℕ) (a : Alloc) (m' : MemStream)
    → ltb m.capacity (need m buf) ≡ true
    → (malloc a).0 ≡ true
    → copy_in m buf ((need m buf * 2) % 2 ^ 64) ≡ some m'
    → ms_write m buf a ≡ some (length buf, m', (malloc a).1)
unfolding ms_write
ms_write-grows m buf a m' e f g = rw (e, f, g, ms_write) (rw e refl)

ms_write-fits :
    (m : MemStream) (buf : List ℕ) (a : Alloc) (m' : MemStream)
    → ltb m.capacity (need m buf) ≡ false
    → copy_in m buf m.capacity ≡ some m'
    → ms_write m buf a ≡ some (length buf, m', a)
unfolding ms_write
ms_write-fits m buf a m' e g = simp (e, g, ms_write)

-- A write of some bytes at a position within a stream: when it must grow the buffer and there is
-- no memory it changes nothing; otherwise it
-- puts the bytes there, and the stream is behind them.
pub ms_write-overwrites :
    (m : MemStream) (buf : List ℕ) (a : Alloc)
    → IsWithin m
    → m.pos + length buf < 2 ^ 62
    → (((malloc a).0 ≡ false)
        × (m.capacity < m.pos + length buf + 1)
        × (ms_write m buf a ≡ some (1, m, (malloc a).1)))
      ⊎ ((m' : MemStream) × (a' : Alloc) × (ms_write m buf a ≡ some (length buf, m', a'))
          × IsWithin m'
          × (m'.bytes ≡ overwrite m.bytes m.pos buf)
          × (m'.pos ≡ m.pos + length buf)
          × ((a' ≡ a) ⊎ (a' ≡ (malloc a).1)))
ms_write-overwrites m buf a w small = elim (Bool-cases (ltb m.capacity (need m buf))) [
  | inr e ↦
      let (m', copied, within, bytes, pos) =
        copy_in-IsWithin m buf m.capacity w small w.room (ground arith) in
      inr (m', a, ms_write-fits m buf a m' e copied, within, bytes, pos, inl refl)
  | inl e ↦ elim (Bool-cases (malloc a).0) [
    | inr f ↦ inl (f, ground arith, ms_write-fails m buf a e f)
    | inl f ↦
        let room = w.room in
        let (m', copied, within, bytes, pos) =
          copy_in-IsWithin m buf ((need m buf * 2) % 2 ^ 64) w small (ground arith) (omega arith) in
        inr (m', (malloc a).1, ms_write-grows m buf a m' e f copied, within, bytes, pos, inr refl)
  ]
]
