-- ===== src/Kv/Laws.antt =====
-- What an addition to a key/value array does, and what a later search finds.
use libpapago.Prelude.{
  ◌≡◌, refl, List, [], ◌∷◌, ◌++◌, none, some, ◌⊎◌, arith, length, take-length, if◌then◌else◌,
}
use libpapago.Prelude.Text.{CString, str_case_eq}
use libpapago.Alloc.{Alloc}
use libpapago.Kv.{Kv, success, failure, add_kv, add_kv_n, find_kv}

-- Whichever allocations fail, `add_kv_n`, given a key and a value with their lengths, either fails and
-- leaves the array as it was, or appends exactly that pair.
pub add_kv_n_lem :
    (arr : List Kv) (k v : CString) (a : Alloc)
    → let (rc, out, rest) = add_kv_n arr k (length k) v (length v) a in
      ((rc ≡ failure) × (out ≡ arr))
      ⊎ ((rc ≡ success) × (out ≡ arr ++ record { key = k; value = v } ∷ []))
unfolding add_kv_n
add_kv_n_lem arr k v a = ground (arith, take-length k, take-length v)

pub add_kv_n_plenty :
    (arr : List Kv) (k v : CString)
    → add_kv_n arr k (length k) v (length v) []
      ≡ (success, arr ++ record { key = k; value = v } ∷ [], [])
unfolding add_kv_n
add_kv_n_plenty arr k v = ground (arith, take-length k, take-length v)

-- Searching an extended array: an entry that was there hides the new one.
pub find_kv-append :
    (arr : List Kv) (kv : Kv) (key : CString)
    → find_kv (arr ++ kv ∷ []) (some key) ≡ elim (find_kv arr (some key)) [
      | some v ↦ some v
      | none ↦ if str_case_eq kv.key key then some kv.value else none
    ]
unfolding find_kv
find_kv-append [] kv key = refl
find_kv-append (x ∷ arr) kv key = ground (arith, find_kv-append arr kv key)

-- An addition that does not fail appends the pair, for as many allocations as it may need.
pub add_kv_plenty :
    (arr : List Kv) (k v : CString)
    → add_kv arr (some k) (some v) [] ≡ (success, arr ++ record { key = k; value = v } ∷ [], [])
unfolding add_kv
add_kv_plenty arr k v = add_kv_n_plenty arr k v
