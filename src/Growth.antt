-- ===== src/Growth.antt =====
-- The growth of a buffer by doubling, in papago.c (multipart_iterator) and papago_client.c (write_cb):
-- `nc *= 2` on a `size_t` until it reaches what is needed.
pub mod Bounds
mod Tests
use libpapago.Prelude.{
  ℕ, zero, suc, ◌*◌, ◌%◌, ◌^◌, Bool, Option, none, some, ltb, ◌==◌, if◌then◌else◌,
}

-- `while (nc < need) nc *= 2;` with fuel; `none` when it runs out.
unfoldable pub double_until : ℕ → ℕ → ℕ → Option ℕ
double_until zero nc need = none
double_until (suc fuel) nc need =
    let rest = double_until fuel ((nc * 2) % 2 ^ 64) need in if ltb nc need then rest else some nc

-- The new capacity. Each round adds at least 1 to it.
unfoldable pub grown : ℕ → ℕ → ℕ → Option ℕ
grown first cap need = double_until (suc need) (if cap == 0 then first else (cap * 2) % 2 ^ 64) need
