-- ===== src/Multipart/Spool.antt =====
-- The temporary files of uploads: each is unlinked once.
use libpapago.Prelude.{
  ℕ, suc, ◌+◌, ◌≡◌, ◌≢◌, refl, ap, sym, Bool, true, false, List, [], ◌∷◌, ◌++◌, Option, none, some,
  arith, if◌then◌else◌, Bool-cases, inl, inr,
}
use mathlib.Core.Path.{subst}
use mathlib.Core.Option.{some-injective}
use libpapago.Prelude.Text.{CString, str_eq}
use libpapago.Alloc.{Alloc, malloc}
use libpapago.Multipart.Completed.{free_file_uploads}
use libpapago.Multipart.{
  FileUpload, Session, dup_opt, unlink_tmp, push_file, commit_file, settle_file,
}

-- How often a path occurs.
unfoldable pub count : CString → List CString → ℕ
count p [] = 0
count p (q ∷ qs) = if str_eq q p then suc (count p qs) else count p qs

pub count-nil : (p : CString) → count p [] ≡ 0
unfolding count
count-nil p = refl

pub count-append :
    (p : CString) (qs rs : List CString) → count p (qs ++ rs) ≡ count p qs + count p rs
unfolding count
count-append p [] rs = omega arith
count-append p (q ∷ qs) rs = ground (arith, count-append p qs rs)

-- The temporary file of the current part.
abbrev pub pending : CString → List CString
pending [] = []
pending (c ∷ path) = (c ∷ path) ∷ []

-- The files that are settled: unlinked, or held by an upload.
unfoldable pub settled : CString → List CString → List FileUpload → ℕ
settled p unlinked [] = count p unlinked
settled p unlinked (f ∷ files) = count p (f.tmp_path ∷ []) + settled p unlinked files

unfoldable pub owed : CString → Session → ℕ
owed p s = settled p s.unlinked s.files + count p (pending s.field.tmp_path)

pub settled-append :
    (p : CString) (unlinked more : List CString) (files : List FileUpload)
    → settled p (unlinked ++ more) files ≡ settled p unlinked files + count p more
unfolding settled
settled-append p unlinked more [] = count-append p unlinked more
settled-append p unlinked more (f ∷ files) = omega (arith, settled-append p unlinked more files)

pub free_file_uploads-settled :
    (p : CString) (files : List FileUpload) (unlinked : List CString)
    → count p (free_file_uploads files unlinked) ≡ settled p unlinked files
unfolding free_file_uploads settled
free_file_uploads-settled p [] unlinked = refl
free_file_uploads-settled p (f ∷ files) unlinked = omega (
  arith,
  free_file_uploads-settled p files (unlinked ++ f.tmp_path ∷ []),
  settled-append p unlinked (f.tmp_path ∷ []) files,
)

-- A file is being received.
pub record IsSpooling (s : Session) : Type 0 where
  pub file : s.field.is_file ≡ true
  pub named : s.field.tmp_path ≢ []

-- What settling a file leaves: the temporary file is settled.
abbrev Settles : CString → Session → Session → Type 0
Settles p s s' =
    settled p s'.unlinked s'.files
    ≡ settled p s.unlinked s.files + count p (pending s.field.tmp_path)

pub unlink_tmp-Settles : (p : CString) (s : Session) → Settles p s (unlink_tmp s)
unlink_tmp-Settles p s = by_path s.field.tmp_path refl
  where
    by_path : (path : CString) → s.field.tmp_path ≡ path → Settles p s (unlink_tmp s)
    by_path [] e = unfold unlink_tmp count in (rw e (omega arith))
    by_path (c ∷ path) e =
        unfold unlink_tmp in (rw e (settled-append p s.unlinked ((c ∷ path) ∷ []) s.files))

push_file-Settles :
    (p : CString) (s : Session) (name filename type tmp : Option CString)
    → s.field.tmp_path ≢ []
    → ((t : CString) → tmp ≡ some t → t ≡ s.field.tmp_path)
    → Settles p s (push_file s name filename type tmp)
unfolding push_file
push_file-Settles p s none filename type tmp n h = unlink_tmp-Settles p s
push_file-Settles p s (some name) filename type none n h = unlink_tmp-Settles p s
push_file-Settles p s (some name) filename type (some t) n h =
    unfold settled in
    omega
      (arith, ap (λ q. count p (q ∷ [])) (h t refl), ap (count p) (pending-path s.field.tmp_path n))
  where
    pending-path : (path : CString) → path ≢ [] → pending path ≡ path ∷ []
    pending-path [] n = absurd (n refl)
    pending-path (c ∷ path) n = refl

dup_opt-same : (t : CString) (a : Alloc) (u : CString) → (dup_opt (some t) a).0 ≡ some u → u ≡ t
unfolding dup_opt
dup_opt-same t a u e = elim (Bool-cases (malloc a).0) [
  | inl d ↦ sym (some-injective t u (subst (λ o. o ≡ some u) (rw d refl) e))
  | inr d ↦ absurd (absurd_none (subst (λ o. o ≡ some u) (rw d refl) e))
]
  where
    absurd_none : none ≡ some u → ⊥
    absurd_none h = cc

commit_file-Settles :
    (p : CString) (s : Session) (a : Alloc)
    → s.field.tmp_path ≢ []
    → Settles p s (commit_file s a).0
unfolding commit_file
commit_file-Settles p s a n =
    let (done, a1) = malloc a in
    let (name, a2) = dup_opt (some s.field.key) a1 in
    let (filename, a3) = dup_opt s.field.filename a2 in
    let (type, a4) = dup_opt s.field.content_type a3 in
    let (tmp, a5) = dup_opt (some s.field.tmp_path) a4 in
    elim (Bool-cases done) [
      | inl d ↦
          rw (d, commit_file)
            (push_file-Settles p s name filename type tmp n (dup_opt-same s.field.tmp_path a4))
      | inr d ↦ rw (d, commit_file) (unlink_tmp-Settles p s)
    ]

pub settle_file-Settles :
    (p : CString) (s : Session) (commit : Bool) (a : Alloc)
    → s.field.tmp_path ≢ []
    → Settles p s (settle_file s commit a).0
unfolding settle_file
settle_file-Settles p s false a n = unlink_tmp-Settles p s
settle_file-Settles p s true a n = commit_file-Settles p s a n
