-- ===== src/Multipart/Buffer.antt =====
-- The buffer of a text part, as its bytes arrive.
use libpapago.Prelude.{
  ℕ, suc, ◌+◌, ◌-◌, ◌*◌, ◌^◌, ◌≤◌, ◌<◌, ◌≡◌, ◌⊎◌, refl, sym, ap, ◌∙◌, Bool, true, false, List, [],
  ◌∷◌, ◌++◌, map, Option, some, arith, ltb, ltb→lt, ◌==◌, if◌then◌else◌, length, length-append,
  take-length, append-nil, inl, inr, Bool-cases,
}
use mathlib.Core.Path.{subst}
use libpapago.Prelude.Text.{CString, cstr}
use libpapago.Alloc.{Alloc}
use libpapago.Growth.Bounds.{grown_ends}
use libpapago.Multipart.Iterate.{Chunk, padded, add_size, reserve, append_text, append_bytes}
use libpapago.Multipart.{Field, Session, read_text, field_text}

-- A text of which these bytes have arrived.
pub record Holds (f : Field) (bytes : List ℕ) : Type 0 where
  pub text : f.is_file ≡ false
  pub cells : padded f.value f.value_len ≡ map some bytes
  pub shown : field_text f.value ≡ some (cstr bytes)
  pub len : f.value_len ≡ length bytes
  pub room : f.value_cap < 2 ^ 63

pub read_text-map : (bytes : List ℕ) → read_text (map some bytes) ≡ some (cstr bytes)
unfolding read_text cstr
read_text-map [] = refl
read_text-map (c ∷ bytes) = ground (arith, read_text-map bytes)

pub length-map : (bytes : List ℕ) → length (map {B = Option ℕ} some bytes) ≡ length bytes
length-map [] = refl
length-map (c ∷ bytes) = ap suc (length-map bytes)

-- Nothing has to be padded in a buffer that is filled up to its length.
padded-full :
    (bytes : List ℕ) (len : ℕ)
    → len ≡ length bytes
    → padded (some (map some bytes)) len ≡ map some bytes
padded-full bytes len e =
    let n : length (map {B = Option ℕ} some bytes) ≡ length bytes = length-map bytes in
    let z : len - length (map {B = Option ℕ} some bytes) ≡ 0 = omega (arith, n) in
    rw (z, append-nil (map {B = Option ℕ} some bytes), e, sym n)
      (take-length (map {B = Option ℕ} some bytes))

map-append_some : (xs ys : List ℕ) → map {B = Option ℕ} some (xs ++ ys) ≡ map some xs ++ map some ys
map-append_some [] ys = refl
map-append_some (x ∷ xs) ys = ap (λ zs. some x ∷ zs) (map-append_some xs ys)

-- There is always memory for a need of up to a quarter of the address space.
pub reserve_lem :
    (f : Field) (need : ℕ)
    → f.value_cap < 2 ^ 63
    → need ≤ 2 ^ 62
    → (cap : ℕ) × (reserve f need [] ≡ some (true, cap, [])) × (cap < 2 ^ 63)
unfolding reserve
reserve_lem f need fits small = elim (Bool-cases (ltb f.value_cap need)) [
  | inl more ↦
      let (cap, ran, enough, size) =
        grown_ends 4096 f.value_cap need (omega arith) fits (omega arith) in
      (cap, rw (more, ran), new_fits f.value_cap need cap (ltb→lt _ _ more) small size)
  | inr less ↦ (f.value_cap, rw less, fits)
]
  where
    new_fits :
        (old need cap : ℕ)
        → old < need
        → need ≤ 2 ^ 62
        → ((cap ≡ (if old == 0 then 4096 else old * 2)) ⊎ (cap < need * 2))
        → cap < 2 ^ 63
    new_fits old need cap h k e = ground arith

-- A field after these bytes were appended.
abbrev pub appended : Field → List ℕ → ℕ → Field
appended f bytes cap = record f {
  value = some (padded f.value f.value_len ++ map some bytes);
  value_len = add_size f.value_len (length bytes);
  value_cap = cap;
}

pub append_text-reserved :
    (s : Session) (bytes : List ℕ) (cap : ℕ)
    → reserve s.field (add_size (add_size s.field.value_len (length bytes)) 1) []
      ≡ some (true, cap, [])
    → append_text s bytes [] ≡ some (true, record s { field = appended s.field bytes cap }, [])
unfolding append_text
append_text-reserved s bytes cap e = rw (e, append_text)

appended-Holds :
    (f : Field) (before bytes : List ℕ) (cap : ℕ)
    → Holds f before
    → length before + length bytes < 2 ^ 61
    → cap < 2 ^ 63
    → Holds (appended f bytes cap) (before ++ bytes)
unfolding field_text
appended-Holds f before bytes cap h small fits =
    let total : add_size f.value_len (length bytes) ≡ length (before ++ bytes) =
      omega (arith, h.len, length-append before bytes) in
    let joined : padded f.value f.value_len ++ map some bytes ≡ map some (before ++ bytes) =
      ap (λ cs. cs ++ map some bytes) h.cells ∙ sym (map-append_some before bytes) in
    record {
      text = h.text;
      cells =
          ap (λ cs. padded (some cs) (add_size f.value_len (length bytes))) joined
          ∙ padded-full (before ++ bytes) (add_size f.value_len (length bytes)) total;
      shown = ap read_text joined ∙ read_text-map (before ++ bytes);
      len = total;
      room = fits;
    }

-- The step of a text part: the session with another field, which holds more.
abbrev pub Grows : Session → List ℕ → CString → Option (Bool × Session × Alloc) → Type 0
Grows s bytes key r =
    (f : Field) × (r ≡ some (true, record s { field = f }, [])) × Holds f bytes × (f.key ≡ key)

append_text-Grows :
    (s : Session) (before bytes : List ℕ)
    → Holds s.field before
    → length before + length bytes < 2 ^ 61
    → Grows s (before ++ bytes) s.field.key (append_text s bytes [])
append_text-Grows s before bytes h small =
    let need : add_size (add_size s.field.value_len (length bytes)) 1 ≤ 2 ^ 62 =
      omega (arith, h.len) in
    let (cap, r, fits) =
      reserve_lem s.field (add_size (add_size s.field.value_len (length bytes)) 1) h.room need in
    (
      appended s.field bytes cap,
      append_text-reserved s bytes cap r,
      appended-Holds s.field before bytes cap h small fits,
      refl,
    )

pub append_bytes-none :
    (s : Session) (c : Chunk) (a : Alloc)
    → (length c.bytes == 0) ≡ true
    → append_bytes s c a ≡ some (true, s, a)
unfolding append_bytes
append_bytes-none s c a e = rw e

pub append_bytes-text :
    (s : Session) (c : Chunk) (a : Alloc)
    → (length c.bytes == 0) ≡ false
    → s.field.is_file ≡ false
    → append_bytes s c a ≡ append_text s c.bytes a
unfolding append_bytes
append_bytes-text s c a e t = simp (e, t)

no_bytes : (bytes : List ℕ) → (length bytes == 0) ≡ true → bytes ≡ []
no_bytes [] e = refl
no_bytes (c ∷ bytes) e = absurd (ground arith)

pub append_bytes-Grows :
    (s : Session) (before : List ℕ) (c : Chunk)
    → Holds s.field before
    → length before + length c.bytes < 2 ^ 61
    → Grows s (before ++ c.bytes) s.field.key (append_bytes s c [])
append_bytes-Grows s before c h small = elim (Bool-cases (length c.bytes == 0)) [
  | inl e ↦
      let same : before ≡ before ++ c.bytes =
        sym (append-nil before) ∙ ap (λ bs. before ++ bs) (sym (no_bytes c.bytes e)) in
      (s.field, append_bytes-none s c [] e, subst (Holds s.field) same h, refl)
  | inr e ↦ rw (append_bytes-text s c [] e h.text) (append_text-Grows s before c.bytes h small)
]
