-- ===== src/Multipart/Outcome.antt =====
-- What one call of the iterator does with the temporary files.
use libpapago.Prelude.{
  ℕ, ◌+◌, ◌≡◌, ◌≢◌, ◌⊎◌, refl, ap, sym, ◌∙◌, Bool, true, false, not, List, [], ◌∷◌, ◌++◌, Option,
  none, some, arith, is_none, if◌then◌else◌, Bool-cases, inl, inr, length, ◌==◌,
}
use libpapago.Prelude.Text.{CString, truncated}
use libpapago.Alloc.{Alloc}
use libpapago.Multipart.Spool.{
  count, count-nil, pending, pending, settled, owed, settled-append, IsSpooling,
  settle_file-Settles,
}
use libpapago.Multipart.Iterate.{
  add_size, Chunk, open_temp, start_part, append_file, append_bytes, begin_part, iterate,
}
use libpapago.Multipart.{Field, Session, dup_opt, settle_file, is_idle, settle}

-- A chunk of a part that is a file; mkstemp does not answer with an empty path.
pub record IsUpload (c : Chunk) : Type 0 where
  pub has_name : is_none c.filename ≡ false
  pub has_path : c.temp ≢ some []

-- The temporary file that a chunk creates.
abbrev pub created : Chunk → List CString
created c = if c.first then elim c.temp [ none ↦ [] | some path ↦ path ∷ [] ] else []

-- A call of the iterator has this outcome: the file that it creates is settled or being received, and
-- when it goes on a file is being received.
pub record Spools (s : Session) (made : List CString) (ok : Bool) (s' : Session) : Type 0 where
  pub same : (p : CString) → owed p s' ≡ owed p s + count p made
  pub is_open : s'.field.is_file ≡ true
  pub goes_on : ok ≡ true → IsSpooling s'

append_file-Spools :
    (s : Session) (bytes : List ℕ) (writes : Bool)
    → IsSpooling s
    → (let (ok, s') = append_file s bytes writes in Spools s [] ok s')
unfolding append_file
append_file-Spools s bytes writes i = by_file s.field.fp refl
  where
    kept :
        (f : Field) (ok : Bool)
        → f.tmp_path ≡ s.field.tmp_path
        → f.is_file ≡ s.field.is_file
        → Spools s [] ok (record s { field = f })
    kept f ok e g = record {
      same = λ p. unfold owed count in (rw e (omega arith));
      is_open = g ∙ i.file;
      goes_on = λ h. record { file = g ∙ i.file; named = λ z. i.named (sym e ∙ z) };
    }

    by_file :
        (fp : Option (List ℕ))
        → s.field.fp ≡ fp
        → (let (ok, s') = append_file s bytes writes in Spools s [] ok s')
    by_file none e = simp (e, append_file) (kept s.field false refl refl)
    by_file (some before) e = elim (Bool-cases writes) [
      | inl h ↦
          simp (e, h, append_file)
            (kept
              (record s.field {
                fp = some (before ++ bytes);
                value_len = add_size s.field.value_len (length bytes);
              })
              true refl refl)
      | inr h ↦ simp (e, h, append_file) (kept s.field false refl refl)
    ]

-- The same for a call that has an outcome.
abbrev pub Outcome : Session → List CString → Option (Bool × Session × Alloc) → Type 0
Outcome s made o =
    (ok : Bool) × (s' : Session) × (a' : Alloc) × (o ≡ some (ok, s', a')) × Spools s made ok s'

append_bytes-Outcome :
    (s : Session) (c : Chunk) (a : Alloc) → IsSpooling s → Outcome s [] (append_bytes s c a)
unfolding append_bytes
append_bytes-Outcome s c a i =
    let (ok, s') = append_file s c.bytes c.writes in
    elim (Bool-cases (length c.bytes == 0)) [
      | inl e ↦ (
        true,
        s,
        a,
        simp (e, append_bytes),
        record { same = λ p. unfold count in (omega arith); is_open = i.file; goes_on = λ h. i },
      )
      | inr e ↦ (ok, s', a, simp (e, i.file, append_bytes), append_file-Spools s c.bytes c.writes i)
    ]

abbrev OpensTemp : Session → Chunk → Bool × Session → Type 0
OpensTemp s c (ok, s') =
    ((p : CString) → owed p s' ≡ settled p s.unlinked s.files + count p (created c))
    × (s'.field.is_file ≡ true)
    × (ok ≡ true → IsSpooling s')

-- The temporary file of a new part.
open_temp-Spools :
    (s : Session) (c : Chunk)
    → s.field.is_file ≡ true
    → c.first ≡ true
    → IsUpload c
    → OpensTemp s c (open_temp s c)
unfolding open_temp
open_temp-Spools s c file first u = by_temp c.temp refl
  where
    by_temp : (temp : Option CString) → c.temp ≡ temp → OpensTemp s c (open_temp s c)
    by_temp none e =
        simp (e, first, open_temp) (λ p. unfold owed count in (omega arith), file, λ h. absurd (cc))
    by_temp (some []) e = absurd (u.has_path e)
    by_temp (some (b ∷ path)) e = elim (Bool-cases c.opens) [
      | inl h ↦
          simp (e, first, h, open_temp)
            (λ p. unfold owed in refl, file, λ h. record { file = file; named = λ z. absurd (cc) })
      | inr h ↦
          simp (e, first, h, open_temp)
            (
              λ p.
                  unfold owed count in
                  (omega (arith, settled-append p s.unlinked ((b ∷ path) ∷ []) s.files)),
              file,
              λ h. absurd (cc),
            )
    ]

-- A new part that is a file, once the part before is settled.
begin_part-Outcome :
    (s : Session) (c : Chunk) (a : Alloc)
    → c.first ≡ true
    → IsUpload c
    → (ok : Bool) × (s' : Session) × (a' : Alloc) × (begin_part s c a ≡ some (ok, s', a'))
      × ((p : CString) → owed p s' ≡ settled p s.unlinked s.files + count p (created c))
      × (s'.field.is_file ≡ true)
      × (ok ≡ true → IsSpooling s')
unfolding begin_part
begin_part-Outcome s c a first u =
    let (filename, a1) = dup_opt c.filename a in
    let (type, a2) = dup_opt c.content_type a1 in
    let file : Field = record s.field {
      key = truncated 256 c.key;
      is_file = not (is_none c.filename);
      filename = filename;
      content_type = type;
      value_len = 0;
    } in
    let t : Session = record s { field = file } in
    let (ok, opened) = open_temp t c in
    let (same, is_open, goes_on) = open_temp-Spools t c (ap not u.has_name) first u in
    let started : start_part s c a ≡ (ok, opened, a2) = unfold start_part in (simp u.has_name) in
    elim (Bool-cases ok) [
      | inr e ↦ (false, opened, a2, simp (started, e, begin_part), same, is_open, λ h. absurd (cc))
      | inl e ↦
          let (more, s', a', ran, spools) = append_bytes-Outcome opened c a2 (goes_on e) in
          (
            more,
            s',
            a',
            simp (started, e, begin_part, ran),
            λ p. omega (arith, spools.same p, same p, count-nil p),
            spools.is_open,
            spools.goes_on,
          )
    ]

-- Nothing is being received, and no temporary file is left.
pub record IsIdle (s : Session) : Type 0 where
  pub idle : is_idle s.field ≡ true
  pub no_path : s.field.tmp_path ≡ []

settle-idle : (s : Session) (commit : Bool) (a : Alloc) → IsIdle s → settle s commit a ≡ some (s, a)
unfolding settle
settle-idle s commit a i = rw (i.idle, settle) refl

pub settle-open :
    (s : Session) (commit : Bool) (a : Alloc)
    → s.field.is_file ≡ true
    → settle s commit a ≡ some (settle_file s commit a)
settle-open s commit a e = by_key s.field.key refl
  where
    by_key : (key : CString) → s.field.key ≡ key → settle s commit a ≡ some (settle_file s commit a)
    by_key [] f = unfold settle is_idle in (simp (e, f, settle, is_idle))
    by_key (c ∷ key) f = unfold settle is_idle in (simp (e, f, settle, is_idle))

-- Settling leaves no file that is being received.
settle-Settled :
    (s : Session) (commit : Bool) (a : Alloc)
    → IsIdle s ⊎ IsSpooling s
    → (s' : Session) × (a' : Alloc) × (settle s commit a ≡ some (s', a'))
      × ((p : CString) → settled p s'.unlinked s'.files ≡ owed p s)
unfolding owed
settle-Settled s commit a (inl i) = (
  s,
  a,
  settle-idle s commit a i,
  λ p. omega (arith, count-nil p, ap (λ t. count p (pending t)) i.no_path),
)
settle-Settled s commit a (inr i) =
    let (s', a') = settle_file s commit a in
    (s', a', settle-open s commit a i.file, λ p. settle_file-Settles p s commit a i.named)

pub iterate-Outcome :
    (s : Session) (c : Chunk) (a : Alloc)
    → (IsIdle s × (c.first ≡ true)) ⊎ IsSpooling s
    → IsUpload c
    → Outcome s (created c) (iterate s c a)
unfolding iterate
iterate-Outcome s c a h u = elim (Bool-cases c.first) [
  | inl e ↦
      let (s1, a1, done, all) = settle-Settled s true a (any h) in
      let (ok, s', a', ran, same, is_open, goes_on) = begin_part-Outcome s1 c a1 e u in
      (
        ok,
        s',
        a',
        simp (e, done, ran, iterate),
        record { same = λ p. omega (arith, same p, all p); is_open = is_open; goes_on = goes_on },
      )
  | inr e ↦
      let (ok, s', a', ran, spools) = append_bytes-Outcome s c a (open_one h e) in
      (
        ok,
        s',
        a',
        simp (e, ran, iterate),
        record {
          same = λ p. simp e (spools.same p);
          is_open = spools.is_open;
          goes_on = spools.goes_on;
        },
      )
]
  where
    any : (IsIdle s × (c.first ≡ true)) ⊎ IsSpooling s → IsIdle s ⊎ IsSpooling s
    any (inl (i, first)) = inl i
    any (inr i) = inr i

    open_one : (IsIdle s × (c.first ≡ true)) ⊎ IsSpooling s → c.first ≡ false → IsSpooling s
    open_one (inl (i, first)) e = absurd (cc)
    open_one (inr i) e = i
