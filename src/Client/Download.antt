-- ===== src/Client/Download.antt =====
-- The body of a response, as its bytes arrive.
use libpapago.Prelude.{
  ℕ, ◌+◌, ◌*◌, ◌^◌, ◌≤◌, ◌<◌, ◌≡◌, ◌⊎◌, refl, sym, ap, ◌∙◌, Bool, true, false, List, [], ◌∷◌, ◌++◌,
  Option, none, some, arith, ltb, ltb→lt, ◌==◌, if◌then◌else◌, length, length-append, take,
  take-length, append-nil, append_assoc, inl, inr, Bool-cases,
}
use mathlib.Core.Path.{subst}
use libpapago.Alloc.{Alloc}
use libpapago.Growth.Bounds.{grown_ends}
use libpapago.Multipart.Text.{concat}
use libpapago.Client.{Body, add_long, make_room, write_cb}

-- These bytes have arrived.
pub record Arrived (b : Body) (bytes : List ℕ) : Type 0 where
  pub kept : b.bytes ≡ bytes
  pub len : b.len ≡ length bytes
  pub room : b.cap < 2 ^ 63

make_room_lem :
    (b : Body) (need : ℕ)
    → b.cap < 2 ^ 63
    → need ≤ 2 ^ 62
    → (cap : ℕ) × (make_room b need [] ≡ some (true, cap, [])) × (cap < 2 ^ 63)
unfolding make_room
make_room_lem b need fits small = elim (Bool-cases (ltb b.cap need)) [
  | inl more ↦
      let (cap, ran, enough, size) = grown_ends 8192 b.cap need (omega arith) fits (omega arith) in
      (cap, rw (more, ran) refl, new_fits b.cap need cap (ltb→lt _ _ more) small size)
  | inr less ↦ (b.cap, rw less refl, fits)
]
  where
    new_fits :
        (old need cap : ℕ)
        → old < need
        → need ≤ 2 ^ 62
        → ((cap ≡ (if old == 0 then 8192 else old * 2)) ⊎ (cap < need * 2))
        → cap < 2 ^ 63
    new_fits old need cap h k e = ground arith

-- write_cb for some parts of a body, as long as it takes all of a part.
unfoldable pub write_cbs : Body → List (List ℕ) → Alloc → Option (Bool × Body × Alloc)
write_cbs b [] a = some (true, b, a)
write_cbs b (part ∷ parts) a = elim (write_cb b part a) [
  | none ↦ none
  | some (n, b', a') ↦
      let rest = write_cbs b' parts a' in if n == length part then rest else some (false, b', a')
]

write_cb-Arrived :
    (b : Body) (before part : List ℕ)
    → Arrived b before
    → length before + length part < 2 ^ 61
    → (b' : Body) × (write_cb b part [] ≡ some (length part, b', [])) × Arrived b' (before ++ part)
unfolding write_cb
write_cb-Arrived b before part r small =
    let (cap, ran, fits) =
      make_room_lem b (add_long (add_long b.len (length part)) 1) r.room (omega (arith, r.len)) in
    let b' : Body = record {
      bytes = take b.len b.bytes ++ part;
      len = add_long b.len (length part);
      cap = cap;
    } in
    let old : take b.len b.bytes ≡ before = rw (r.kept, r.len) (take-length before) in
    (
      b',
      rw (ran, write_cb) refl,
      record {
        kept = ap (λ bytes. bytes ++ part) old;
        len = omega (arith, r.len, length-append before part);
        room = fits;
      },
    )

write_cbs-step :
    (b b' : Body) (part : List ℕ) (parts : List (List ℕ))
    → write_cb b part [] ≡ some (length part, b', [])
    → write_cbs b (part ∷ parts) [] ≡ write_cbs b' parts []
unfolding write_cbs
write_cbs-step b b' part parts e =
    let same : (length part == length part) ≡ true = ground arith in rw (e, same, write_cbs) refl

-- A body in any parts, of fewer than 2^61 bytes in all, ends, is taken whole and kept in order, behind
-- what has arrived. No allocation fails.
pub write_cbs-Arrived :
    (b : Body) (before : List ℕ) (parts : List (List ℕ))
    → Arrived b before
    → length before + length (concat parts) < 2 ^ 61
    → (b' : Body) × (write_cbs b parts [] ≡ some (true, b', []))
      × Arrived b' (before ++ concat parts)
unfolding write_cbs
write_cbs-Arrived b before [] r small = (b, refl, subst (Arrived b) (sym (append-nil before)) r)
write_cbs-Arrived b before (part ∷ parts) r small =
    let sum = length-append part (concat parts) in
    let joined = length-append before part in
    let (b1, e, r1) = write_cb-Arrived b before part r (omega (arith, sum)) in
    let (b2, f, r2) = write_cbs-Arrived b1 (before ++ part) parts r1 (omega (arith, sum, joined)) in
    (
      b2,
      write_cbs-step b b1 part parts e ∙ f,
      subst (Arrived b2) (append_assoc before part (concat parts)) r2,
    )
