-- ===== src/Multipart/Unlinked.antt =====
-- The temporary files that the iterator creates are unlinked when the request is over.
use libpapago.Prelude.{
  ◌+◌, ◌≡◌, refl, Bool, true, false, List, [], ◌∷◌, ◌++◌, Option, none, some, arith, All, inl, inr,
}
use libpapago.Prelude.Text.{CString}
use libpapago.Alloc.{Alloc}
use libpapago.Multipart.Text.{iterate_all}
use libpapago.Multipart.Completed.{free_file_uploads, request_completed}
use libpapago.Multipart.Outcome.{created, Outcome, settle-open, iterate-Outcome, IsUpload, IsIdle}
use libpapago.Multipart.Spool.{
  count, count-nil, count-append, settled, owed, free_file_uploads-settled, IsSpooling,
  unlink_tmp-Settles,
}
use libpapago.Multipart.Iterate.{Chunk, iterate}
use libpapago.Multipart.{Session, settle_file}

-- The temporary files of some chunks, as far as the iterator receives them.
unfoldable pub created_all : Session → List Chunk → Alloc → List CString
created_all s [] a = []
created_all s (c ∷ cs) a = created c ++ elim (iterate s c a) [
  | none ↦ []
  | some (true, s', a') ↦ created_all s' cs a'
  | some (false, s', a') ↦ []
]

abbrev Received : Session → List CString → Option (Bool × Session × Alloc) → Type 0
Received s made o =
    (ok : Bool) × (s' : Session) × (a' : Alloc) × (o ≡ some (ok, s', a'))
    × ((p : CString) → owed p s' ≡ owed p s + count p made)
    × (s'.field.is_file ≡ true)

Received-step :
    (s : Session) (c : Chunk) (cs : List Chunk) (a : Alloc)
    → Outcome s (created c) (iterate s c a)
    → ((s1 : Session) (a1 : Alloc)
        → IsSpooling s1
        → Received s1 (created_all s1 cs a1) (iterate_all s1 cs a1))
    → Received s (created_all s (c ∷ cs) a) (iterate_all s (c ∷ cs) a)
unfolding iterate_all created_all
Received-step s c cs a (true, s1, a1, ran, spools) rest =
    let (ok, s', a', all, same, is_open) = rest s1 a1 (spools.goes_on refl) in
    (
      ok,
      s',
      a',
      simp (ran, all, iterate_all),
      λ p.
          simp (ran, created_all)
            (omega
              (arith, same p, spools.same p, count-append p (created c) (created_all s1 cs a1))),
      is_open,
    )
Received-step s c cs a (false, s1, a1, ran, spools) rest = (
  false,
  s1,
  a1,
  simp (ran, iterate_all),
  λ p.
      simp (ran, created_all)
        (omega (arith, spools.same p, count-nil p, count-append p (created c) [])),
  spools.is_open,
)

iterate_all-Received :
    (s : Session) (cs : List Chunk) (a : Alloc)
    → IsSpooling s
    → All IsUpload cs
    → Received s (created_all s cs a) (iterate_all s cs a)
iterate_all-Received s [] a i us =
    unfold iterate_all created_all in (true, s, a, refl, λ p. omega (arith, count-nil p), i.file)
iterate_all-Received s (c ∷ cs) a i us =
    Received-step s c cs a (iterate-Outcome s c a (inr i) us.0)
      (λ s1 a1 i1. iterate_all-Received s1 cs a1 i1 us.1)

-- A request whose parts are files, in any number of chunks: whatever mkstemp, fdopen, fwrite and the
-- allocations answer, and where the iterator gives up, request_completed leaves no upload, and each
-- temporary file that mkstemp created is unlinked as often as it was created, and no other.
pub request_completed-iterate_all :
    (s : Session) (c : Chunk) (cs : List Chunk) (a : Alloc)
    → IsIdle s
    → s.files ≡ []
    → s.unlinked ≡ []
    → c.first ≡ true
    → All IsUpload (c ∷ cs)
    → (ok : Bool) × (s1 : Session) × (a1 : Alloc) × (s2 : Session) × (iterate_all s (c ∷ cs) a
        ≡ some (ok, s1, a1))
      × (request_completed s1 a1 ≡ some s2)
      × (s2.files ≡ [])
      × ((p : CString) → count p s2.unlinked ≡ count p (created_all s (c ∷ cs) a))
unfolding request_completed
request_completed-iterate_all s c cs a i no_files none_unlinked first us =
    let (ok, s1, a1, ran, same, is_open) =
      Received-step s c cs a (iterate-Outcome s c a (inl (i, first)) us.0)
        (λ s1 a1 i1. iterate_all-Received s1 cs a1 i1 us.1) in
    let (t, a2) = settle_file s1 false a1 in
    let discarded : (p : CString) → settled p t.unlinked t.files ≡ owed p s1 =
      λ p. unfold settle_file owed in (unlink_tmp-Settles p s1) in
    (
      ok,
      s1,
      a1,
      record t { files = []; unlinked = free_file_uploads t.files t.unlinked },
      ran,
      simp (settle-open s1 false a1 is_open, request_completed),
      refl,
      λ p.
          omega
            (arith, free_file_uploads-settled p t.files t.unlinked, discarded p, same p, started p),
    )
  where
    started : (p : CString) → owed p s ≡ 0
    started p = unfold owed settled count in (simp (i.no_path, no_files, none_unlinked))
