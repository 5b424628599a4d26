-- ===== src/Growth/Tests.antt =====
-- A buffer of 16 bytes that is asked for 1000.
use libpapago.Prelude.{ℕ, ◌≤◌, ◌<◌, ◌*◌, ◌≡◌, ◌⊎◌, some, arith, ◌==◌, if◌then◌else◌}
use libpapago.Growth.{grown}
use libpapago.Growth.Bounds.{grown_ends}

grown_ends_example :
    (new : ℕ) × (grown 64 16 1000 ≡ some new)
    × (1000 ≤ new)
    × ((new ≡ (if 16 == 0 then 64 else 16 * 2)) ⊎ (new < 1000 * 2))
grown_ends_example = grown_ends 64 16 1000 (omega arith) (omega arith) (omega arith)
