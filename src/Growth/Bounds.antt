-- ===== src/Growth/Bounds.antt =====
-- The loop ends with enough room, and with less than twice what is needed if it ran at all.
use libpapago.Prelude.{
  ℕ, zero, suc, ◌+◌, ◌*◌, ◌%◌, ◌^◌, ◌≤◌, ◌<◌, ◌≡◌, ◌⊎◌, refl, false, Option, some, arith, ltb,
  ltb→lt, ◌==◌, if◌then◌else◌, Bool-cases, inl, inr,
}
use libpapago.Growth.{double_until, grown}

abbrev Ends : ℕ → ℕ → Option ℕ → Type 0
Ends nc need r = (cap : ℕ) × (r ≡ some cap) × (need ≤ cap) × ((cap ≡ nc) ⊎ (cap < need * 2))

doubled : (nc need : ℕ) → nc < need → need ≤ 2 ^ 63 → (nc * 2) % 2 ^ 64 ≡ nc * 2
doubled nc need h small = omega arith

double_until_enough :
    (fuel nc need : ℕ)
    → 0 < nc
    → need ≤ 2 ^ 63
    → need ≤ nc + fuel
    → Ends nc need (double_until (suc fuel) nc need)
unfolding double_until
double_until_enough zero nc need pos small h =
    let done : ltb nc need ≡ false = ground arith in (nc, rw done, omega arith, inl refl)
double_until_enough (suc fuel) nc need pos small h = elim (Bool-cases (ltb nc need)) [
  | inl more ↦
      let lt : nc < need = ltb→lt nc need more in
      let (cap, ran, enough, size) =
        double_until_enough fuel (nc * 2) need (omega arith) small (omega arith) in
      (cap, rw (more, doubled nc need lt small) ran, enough, inr (below cap nc need lt size))
  | inr done ↦ (nc, rw done, not_below nc need done, inl refl)
]
  where
    below : (cap nc need : ℕ) → nc < need → ((cap ≡ nc * 2) ⊎ (cap < need * 2)) → cap < need * 2
    below cap nc need lt (inl e) = omega arith
    below cap nc need lt (inr h) = h

    not_below : (nc need : ℕ) → ltb nc need ≡ false → need ≤ nc
    not_below nc need h = ground arith

-- Growing a buffer always ends, for what is needed up to half the address space: the new capacity is
-- enough for it, and less than twice of it unless it is the first capacity or twice the old one.
pub grown_ends :
    (first cap need : ℕ)
    → 0 < first
    → cap < 2 ^ 63
    → need ≤ 2 ^ 63
    → (new : ℕ) × (grown first cap need ≡ some new)
      × (need ≤ new)
      × ((new ≡ (if cap == 0 then first else cap * 2)) ⊎ (new < need * 2))
unfolding grown
grown_ends first cap need pos fits small =
    let wrap : (cap * 2) % 2 ^ 64 ≡ cap * 2 = omega arith in
    rw wrap (
      double_until_enough need (if cap == 0 then first else cap * 2) need (ground arith) small
        (omega arith))
