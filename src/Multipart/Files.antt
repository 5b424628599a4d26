-- ===== src/Multipart/Files.antt =====
-- Which uploads papago_req_files hands over, and in which order.
use libpapago.Prelude.{
  ℕ, zero, suc, ◌-◌, ◌≤◌, ◌<◌, ◌≡◌, refl, sym, ◌∙◌, true, false, List, [], ◌∷◌, ◌++◌, Option, none,
  some, arith, ltb, ◌==◌, ==_iff, if◌then◌else◌, length, get_elem?, set, length-set, length-append,
  Bool-cases, inl, inr,
}
use mathlib.Core.Option.{some-injective}
use libpapago.Prelude.Text.{CString, str_eq}
use libpapago.Multipart.Requested.{count_named, fill, req_files, req_file}
use libpapago.Multipart.{FileUpload}

-- The uploads with a name in the order in which they arrived; the list has the newest first.
unfoldable pub in_order : List FileUpload → CString → List FileUpload
in_order [] name = []
in_order (f ∷ files) name =
    if str_eq f.field_name name then in_order files name ++ f ∷ [] else in_order files name

length-in_order :
    (files : List FileUpload) (name : CString)
    → length (in_order files name) ≡ count_named files name
unfolding in_order count_named
length-in_order [] name = refl
length-in_order (f ∷ files) name =
    ground (arith, length-in_order files name, length-append (in_order files name) (f ∷ []))

module _ {A : Type 0} where
  get_elem?-set :
      (xs : List A) (i j : ℕ) (v : A)
      → i < length xs
      → get_elem? (set xs i v) j ≡ (if i == j then some v else get_elem? xs j)
  get_elem?-set [] i j v h = elim h [ ]
  get_elem?-set (x ∷ xs) zero zero v h = ground arith
  get_elem?-set (x ∷ xs) zero (suc j) v h = ground arith
  get_elem?-set (x ∷ xs) (suc i) zero v h = ground arith
  get_elem?-set (x ∷ xs) (suc i) (suc j) v h = ground (arith, get_elem?-set xs i j v)

  get_elem?-snoc :
      (xs : List A) (x : A) (j : ℕ)
      → get_elem? (xs ++ x ∷ []) j ≡ (if length xs == j then some x else get_elem? xs j)
  get_elem?-snoc [] x zero = ground arith
  get_elem?-snoc [] x (suc j) = ground arith
  get_elem?-snoc (y ∷ xs) x zero = ground arith
  get_elem?-snoc (y ∷ xs) x (suc j) = ground (arith, get_elem?-snoc xs x j)

  get_elem?-beyond : (xs : List A) (j : ℕ) → length xs ≤ j → get_elem? xs j ≡ none
  get_elem?-beyond [] j h = refl
  get_elem?-beyond (x ∷ xs) zero h = absurd (omega arith)
  get_elem?-beyond (x ∷ xs) (suc j) h = get_elem?-beyond xs j (omega arith)

-- An entry of `out`: the upload that belongs there, or what was there.
abbrev pub entry : Option FileUpload → Option (Option FileUpload) → Option (Option FileUpload)
entry none old = old
entry (some f) old = some (some f)

-- `out` after one upload was written to its place, if there is such a place.
abbrev written_at : List (Option FileUpload) → ℕ → ℕ → FileUpload → List (Option FileUpload)
written_at out n max_out f = if ltb n max_out then set out n (some f) else out

length-written_at :
    (out : List (Option FileUpload)) (n max_out : ℕ) (f : FileUpload)
    → length (written_at out n max_out f) ≡ length out
length-written_at out n max_out f = ground (arith, length-set out n (some f))

fill-named :
    (f : FileUpload) (files : List FileUpload) (name : CString) (n max_out : ℕ)
    (out : List (Option FileUpload))
    → str_eq f.field_name name ≡ true
    → fill (f ∷ files) name (suc n) max_out out
      ≡ fill files name n max_out (written_at out n max_out f)
unfolding fill
fill-named f files name n max_out out same = let e : suc n - 1 ≡ n = omega arith in rw (same, e)

fill-other :
    (f : FileUpload) (files : List FileUpload) (name : CString) (n max_out : ℕ)
    (out : List (Option FileUpload))
    → str_eq f.field_name name ≡ false
    → fill (f ∷ files) name n max_out out ≡ fill files name n max_out out
unfolding fill
fill-other f files name n max_out out other = rw other

written_at-here :
    (out : List (Option FileUpload)) (n max_out j : ℕ) (f : FileUpload)
    → length out ≡ max_out
    → j < max_out
    → n ≡ j
    → get_elem? (written_at out n max_out f) j ≡ some (some f)
written_at-here out n max_out j f l h e = ground (arith, get_elem?-set out n j (some f))

written_at-elsewhere :
    (out : List (Option FileUpload)) (n max_out j : ℕ) (f : FileUpload)
    → length out ≡ max_out
    → (n == j) ≡ false
    → get_elem? (written_at out n max_out f) j ≡ get_elem? out j
written_at-elsewhere out n max_out j f l e = ground (arith, get_elem?-set out n j (some f))

fill-entry :
    (files : List FileUpload) (name : CString) (max_out j : ℕ) (out : List (Option FileUpload))
    → length out ≡ max_out
    → j < max_out
    → get_elem? (fill files name (count_named files name) max_out out) j
      ≡ entry (get_elem? (in_order files name) j) (get_elem? out j)
fill-entry [] name max_out j out l h = unfold fill count_named in_order in refl
fill-entry (f ∷ files) name max_out j out l h = elim (Bool-cases (str_eq f.field_name name)) [
  | inr other ↦
      let counted : count_named (f ∷ files) name ≡ count_named files name =
        unfold count_named in (rw other) in
      let ordered : in_order (f ∷ files) name ≡ in_order files name =
        unfold in_order in (rw other) in
      let ih = fill-entry files name max_out j out l h in
      rw (counted, ordered, fill-other f files name (count_named files name) max_out out other) ih
  | inl same ↦
      let n = count_named files name in
      let earlier = in_order files name in
      let counted : count_named (f ∷ files) name ≡ suc n = unfold count_named in (rw same) in
      let ordered : in_order (f ∷ files) name ≡ earlier ++ f ∷ [] = unfold in_order in (rw same) in
      let ih =
        fill-entry files name max_out j (written_at out n max_out f)
          (length-written_at out n max_out f ∙ l) h in
      rw
        (
          counted,
          ordered,
          fill-named f files name n max_out out same,
          ih,
          get_elem?-snoc earlier f j,
          length-in_order files name,
        )
        (elim (Bool-cases (n == j)) [
          | inl here ↦
              let e : n ≡ j = (==_iff n j).0 here in
              rw (
                here,
                written_at-here out n max_out j f l h e,
                get_elem?-beyond earlier j (omega (arith, length-in_order files name, e)),
              )
          | inr away ↦ rw (away, written_at-elsewhere out n max_out j f l away)
        ])
]

-- The number that papago_req_files returns for so many uploads; without room it is their number.
unfoldable pub handed_over : ℕ → ℕ → ℕ
handed_over zero found = found
handed_over (suc room) found = if ltb (suc room) found then suc room else found

-- papago_req_files with room for `max_out` entries: it returns the number of uploads with the name, or
-- `max_out` if there are more and `max_out` is not 0, and the entries are the first of these uploads in
-- the order in which they arrived; an entry behind them keeps what it had. With `max_out` 0 nothing is
-- written and it returns the number of all of them, while papago.h says that it returns the number that
-- was written.
pub req_files_lem :
    (files : List FileUpload) (name : CString) (max_out : ℕ) (out : List (Option FileUpload))
    → length out ≡ max_out
    → let (count, out') = req_files files name max_out out in
      (count ≡ handed_over max_out (length (in_order files name)))
      × ((j : ℕ)
          → j < max_out
          → get_elem? out' j ≡ entry (get_elem? (in_order files name) j) (get_elem? out j))
unfolding req_files handed_over
req_files_lem files name zero out l =
    (sym (length-in_order files name), λ j h. absurd (omega arith))
req_files_lem files name (suc room) out l =
    let some_room : (suc room == 0) ≡ false = ground arith in
    rw (some_room, length-in_order files name)
      (refl, λ j h. fill-entry files name (suc room) j out l h)

-- papago_req_file gives the upload with the name that arrived first, if there is one.
pub req_file-first :
    (files : List FileUpload) (name : CString)
    → req_file files name ≡ get_elem? (in_order files name) 0
unfolding req_file handed_over
req_file-first files name =
    let (count, out) = req_files files name 1 (none ∷ []) in
    let (counted, entries) = req_files_lem files name 1 (none ∷ []) refl in
    by_uploads (in_order files name) count out counted (entries 0 (omega arith))
  where
    by_uploads :
        (uploads : List FileUpload) (count : ℕ) (out : List (Option FileUpload))
        → count ≡ (if ltb 1 (length uploads) then 1 else length uploads)
        → get_elem? out 0 ≡ entry (get_elem? uploads 0) (some none)
        → (if count == 0 then none else elim out [ [] ↦ none | first ∷ rest ↦ first ])
          ≡ get_elem? uploads 0
    by_uploads [] count out c e = rw c refl
    by_uploads (u ∷ us) count [] c e = absurd (cc)
    by_uploads (u ∷ us) count (o ∷ os) c e =
        let some_count : (count == 0) ≡ false = ground (arith, c) in
        rw some_count (some-injective o (some u) e)
