-- ===== src/Template/Stream.antt =====
-- The stream holds what the engine wrote, and the output what fits.
use libpapago.Prelude.{
  ℕ, zero, suc, ◌+◌, ◌-◌, ◌^◌, ◌≤◌, ◌<◌, ◌≡◌, refl, ap, ap₂, sym, ◌∙◌, true, false, List, [], ◌∷◌,
  ◌++◌, none, some, arith, All, leb, ◌==◌, length, length-append, take, take-length, drop,
  replicate, append-nil, append_assoc, inl, inr,
}
use libpapago.Alloc.{Alloc}
use libpapago.Multipart.Text.{concat}
use libpapago.MemStream.{MemStream, ms_write, overwrite}
use libpapago.MemStream.Write.{IsWithin, ms_write-overwrites}
use libpapago.Template.{write_parts, copy_out, read_cstr}

drop-all : (n : ℕ) (xs : List ℕ) → length xs ≤ n → drop n xs ≡ []
drop-all zero [] h = refl
drop-all zero (x ∷ xs) h = absurd (omega arith)
drop-all (suc n) [] h = refl
drop-all (suc n) (x ∷ xs) h = drop-all n xs (omega arith)

-- Writing at the end appends.
overwrite-append :
    (bytes : List ℕ) (pos : ℕ) (buf : List ℕ)
    → pos ≡ length bytes
    → overwrite bytes pos buf ≡ bytes ++ buf
overwrite-append bytes pos buf e =
    let rest : drop (pos + length buf) bytes ≡ [] =
      drop-all (pos + length buf) bytes (omega (arith, e)) in
    let front : take pos bytes ≡ bytes = ap (λ n. take n bytes) e ∙ take-length bytes in
    ap₂ ◌++◌ front (ap (λ r. buf ++ r) rest ∙ append-nil buf)

-- The parts that an engine writes to a stream, of fewer than 2^62 bytes in all, stand in it in order.
pub write_parts-concat :
    (m : MemStream) (parts : List (List ℕ))
    → IsWithin m
    → m.pos ≡ m.size
    → m.pos + length (concat parts) < 2 ^ 62
    → (m' : MemStream) × (write_parts m parts [] ≡ some (m', []))
      × (m'.bytes ≡ m.bytes ++ concat parts)
unfolding write_parts
write_parts-concat m [] w end small = (m, refl, sym (append-nil m.bytes))
write_parts-concat m (part ∷ parts) w end small =
    let sum = length-append part (concat parts) in
    elim (ms_write-overwrites m part [] w (omega (arith, sum))) [
      | inl (none_left, grows, fails) ↦ absurd (cc)
      | inr (m1, a1, wrote, within, bytes, pos, same) ↦
          let appended = bytes ∙ overwrite-append m.bytes m.pos part (end ∙ w.counted) in
          let longer = ap length appended ∙ length-append m.bytes part in
          let (m2, rest, all) =
            write_parts-concat m1 parts within
              (omega (arith, pos, end, w.counted, within.counted, longer))
              (omega (arith, sum, pos)) in
          let plenty : a1 ≡ [] = elim same [ inl e ↦ e | inr e ↦ e ] in
          (
            m2,
            write_parts-step m m1 a1 part parts wrote plenty ∙ rest,
            all ∙ ap (λ bs. bs ++ concat parts) appended ∙ append_assoc m.bytes part (concat parts),
          )
    ]
  where
    write_parts-step :
        (m m1 : MemStream) (a1 : Alloc) (part : List ℕ) (parts : List (List ℕ))
        → ms_write m part [] ≡ some (length part, m1, a1)
        → a1 ≡ []
        → write_parts m (part ∷ parts) [] ≡ write_parts m1 parts []
    write_parts-step m m1 a1 part parts e f = rw (e, write_parts) (ap (write_parts m1 parts) f)

pub length-replicate : (n c : ℕ) → length (replicate n c) ≡ n
length-replicate zero c = refl
length-replicate (suc n) c = ap suc (length-replicate n c)

pub drop-replicate : (k n c : ℕ) → drop k (replicate n c) ≡ replicate (n - k) c
drop-replicate zero n c = let all : n ≡ n - 0 = omega arith in ap (λ k. replicate k c) all
drop-replicate (suc k) zero c =
    let none_left : 0 ≡ 0 - suc k = omega arith in ap (λ k. replicate k c) none_left
drop-replicate (suc k) (suc n) c =
    let same : n - k ≡ suc n - suc k = omega arith in
    drop-replicate k n c ∙ ap (λ k. replicate k c) same

-- A text is copied to an output of `n` bytes if it is not longer.
pub copy_out-fits :
    (n : ℕ) (text : List ℕ)
    → length text ≤ n
    → copy_out (replicate n 0) text ≡ some (text ++ replicate (n - length text) 0)
unfolding copy_out
copy_out-fits n text h =
    let ok : leb (length text) (length {A = ℕ} (replicate n 0)) ≡ true =
      ground (arith, length-replicate n 0) in
    rw (ok, drop-replicate (length text) n 0) refl

pub copy_out-overflows :
    (n : ℕ) (text : List ℕ) → n < length text → copy_out (replicate n 0) text ≡ none
unfolding copy_out
copy_out-overflows n text h =
    let long : leb (length text) (length {A = ℕ} (replicate n 0)) ≡ false =
      ground (arith, length-replicate n 0) in
    rw long refl

-- The text is read up to a NUL behind it.
pub read_cstr-text :
    (text : List ℕ) (k : ℕ)
    → All (λ c. 0 < c) text
    → read_cstr (text ++ replicate (suc k) 0) ≡ some text
unfolding read_cstr
read_cstr-text [] k h = refl
read_cstr-text (c ∷ text) k h =
    let ih = read_cstr-text text k h.1 in
    let positive = h.0 in let other : (c == 0) ≡ false = ground arith in rw (other, ih) refl

-- With no NUL the buffer is read to its end and beyond.
pub read_cstr-none : (text : List ℕ) → All (λ c. 0 < c) text → read_cstr text ≡ none
unfolding read_cstr
read_cstr-none [] h = refl
read_cstr-none (c ∷ text) h =
    let ih = read_cstr-none text h.1 in
    let positive = h.0 in let other : (c == 0) ≡ false = ground arith in rw (other, ih) refl
