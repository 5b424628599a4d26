-- ===== src/Kv.antt =====
-- papago.c, the arrays of key/value pairs (papago_kv_t) behind headers, params, query and form.
-- An array with its count is a list; NULL with count 0 is the empty list.
pub mod Laws
use libpapago.Prelude.{
  ℕ, Bool, true, false, List, [], ◌∷◌, ◌++◌, Option, none, some, length, take, if◌then◌else◌,
}
use libpapago.Prelude.Text.{CString, str_case_eq}
use libpapago.Alloc.{Alloc, malloc}

-- `papago_kv_t`
pub record Kv : Type 0 where
  pub key : CString
  pub value : CString

-- The return code: 0 or 1.
pub data Status : Type 0 where
  success failure : Status

-- A copy of the first `len` bytes, or NULL.
unfoldable pub dup_n : CString → ℕ → Alloc → Option CString × Alloc
dup_n str len a = let (done, a') = malloc a in (if done then some (take len str) else none, a')

-- The step after both copies were asked for: `realloc` runs only if both are there.
unfoldable pub append_kv :
    List Kv → Option CString → Option CString → Alloc → Status × List Kv × Alloc
append_kv arr none v a = (failure, arr, a)
append_kv arr (some k) none a = (failure, arr, a)
append_kv arr (some k) (some v) a =
    let (done, a') = malloc a in
    if done then (success, arr ++ record { key = k; value = v } ∷ [], a') else (failure, arr, a')

unfoldable pub add_kv_n : List Kv → CString → ℕ → CString → ℕ → Alloc → Status × List Kv × Alloc
unfolding dup_n append_kv
add_kv_n arr key key_len value value_len a =
    let (k, a1) = dup_n key key_len a in
    let (v, a2) = dup_n value value_len a1 in append_kv arr k v a2

-- NULL is `none`.
unfoldable pub add_kv : List Kv → Option CString → Option CString → Alloc → Status × List Kv × Alloc
unfolding add_kv_n
add_kv arr none value a = (failure, arr, a)
add_kv arr (some key) none a = (failure, arr, a)
add_kv arr (some key) (some value) a = add_kv_n arr key (length key) value (length value) a

unfoldable pub find_kv : List Kv → Option CString → Option CString
unfolding str_case_eq
find_kv arr none = none
find_kv [] (some key) = none
find_kv (kv ∷ arr) (some key) =
    if str_case_eq kv.key key then some kv.value else find_kv arr (some key)
