-- ===== src/Dispatch/Order.antt =====
-- In which order the `before` functions, the route and the `after` functions run.
use libpapago.Prelude.{
  ℕ, zero, suc, ◌≤◌, ◌<◌, ◌≡◌, refl, ap, sym, ◌∙◌, true, false, ◌↔◌, Option, none, Bool-cases,
  Option-cases, inl, inr, List, [], ◌∷◌, ◌++◌, some, arith, length, take, take-length, get_elem?,
  append-nil,
}
use libpapago.Prelude.Text.{starts_with_iff, CString, codes}
use libpapago.Request.{Request}
use libpapago.Server.{State, Handler, Slot, Server}
use libpapago.Dispatch.{applies, answer, run_before, call_after, run_after, run_route, respond}

take-suc {ℓ} :
    {A : Type ℓ} (xs : List A) (i : ℕ) (x : A)
    → get_elem? xs i ≡ some x
    → take (suc i) xs ≡ take i xs ++ x ∷ []
take-suc [] i x e = cc
take-suc (y ∷ xs) zero x e = ground arith
take-suc (y ∷ xs) (suc i) x e = ap (λ zs. y ∷ zs) (take-suc xs i x e)

get_elem?-some {ℓ} :
    {A : Type ℓ} (xs : List A) (i : ℕ) → i < length xs → (x : A) × (get_elem? xs i ≡ some x)
get_elem?-some [] i h = elim h [ ]
get_elem?-some (x ∷ xs) zero h = (x, refl)
get_elem?-some (x ∷ xs) (suc i) h = get_elem?-some xs i (omega arith)

-- A slot's path covers the path of a request: there is none, or it is the start of it, byte for byte.
abbrev pub Covers : Option CString → CString → Type 0
Covers none path = Unit
Covers (some prefix) path = (rest : CString) × (path ≡ prefix ++ rest)

applies_iff :
    (prefix : Option CString) (path : CString) → (applies prefix path ≡ true) ↔ Covers prefix path
unfolding applies
applies_iff none path = (λ h. tt, λ h. refl)
applies_iff (some p) path = starts_with_iff p path

not_covered :
    (prefix : Option CString) (path : CString) → applies prefix path ≡ false → ¬ Covers prefix path
not_covered prefix path off h = absurd (cc (off, (applies_iff prefix path).1 h))

not_applied :
    (prefix : Option CString) (path : CString)
    → (¬ Covers prefix path)
    → applies prefix path ≡ false
not_applied prefix path n = elim (Bool-cases (applies prefix path)) [
  | inl on ↦ absurd (n ((applies_iff prefix path).0 on))
  | inr off ↦ off
]

module _ {W : Type 0} (req : Request) where
  -- The `after` functions of the slots that cover the request ran, the last registered first; they take
  -- the first state to the second.
  pub data Unwound : List (Slot W) → State W → State W → Type 0 where
    done : {s : State W} → Unwound [] s s
    ran :
        {slot : Slot W} {slots : List (Slot W)} {s t : State W} {after : Handler W}
        → Unwound slots s t
        → Covers slot.path req.path
        → slot.after ≡ some after
        → Unwound (slot ∷ slots) s (after req t)
    without :
        {slot : Slot W} {slots : List (Slot W)} {s t : State W}
        → Unwound slots s t
        → slot.after ≡ none
        → Unwound (slot ∷ slots) s t
    outside :
        {slot : Slot W} {slots : List (Slot W)} {s t : State W}
        → Unwound slots s t
        → (¬ Covers slot.path req.path)
        → Unwound (slot ∷ slots) s t

  abbrev unwind : List (Slot W) → State W → State W
  unwind [] s = s
  unwind (slot ∷ slots) s = call_after slot req (unwind slots s)

  unwind-append :
      (slots : List (Slot W)) (slot : Slot W) (s : State W)
      → unwind (slots ++ slot ∷ []) s ≡ unwind slots (call_after slot req s)
  unwind-append [] slot s = refl
  unwind-append (x ∷ slots) slot s = ap (call_after x req) (unwind-append slots slot s)

  run_after-take :
      (slots : List (Slot W)) (n : ℕ) (s : State W)
      → n ≤ length slots
      → run_after slots n req s ≡ unwind (take n slots) s
  unfolding run_after
  run_after-take slots zero s h = refl
  run_after-take slots (suc i) s h =
      let (slot, found) = get_elem?-some slots i h in
      ground (
        arith,
        found,
        take-suc slots i slot found,
        unwind-append (take i slots) slot s,
        run_after-take slots i (call_after slot req s) (omega arith),
      )

  call_after-none : (slot : Slot W) (s : State W) → slot.after ≡ none → call_after slot req s ≡ s
  unfolding call_after
  call_after-none slot s e = rw e

  call_after-outside :
      (slot : Slot W) (s : State W) → applies slot.path req.path ≡ false → call_after slot req s ≡ s
  unfolding call_after
  call_after-outside slot s e = elim (Option-cases slot.after) [
    | inl n ↦ rw n
    | inr (f, h) ↦ rw (h, e)
  ]

  call_after-some :
      (slot : Slot W) (s : State W) (after : Handler W)
      → slot.after ≡ some after
      → applies slot.path req.path ≡ true
      → call_after slot req s ≡ after req s
  unfolding call_after
  call_after-some slot s after h e = rw (h, e)

  unwind-Unwound : (slots : List (Slot W)) (s : State W) → Unwound slots s (unwind slots s)
  unwind-Unwound [] s = done
  unwind-Unwound (slot ∷ slots) s =
      let t = unwind slots s in
      let ih : Unwound slots s t = unwind-Unwound slots s in
      elim (Bool-cases (applies slot.path req.path)) [
        | inl on ↦ elim (Option-cases slot.after) [
          | inl n ↦ rw (call_after-none slot t n) (without ih n)
          | inr (after, h) ↦
              rw (call_after-some slot t after h on)
                (ran ih ((applies_iff slot.path req.path).0 on) h)
        ]
        | inr off ↦
            rw (call_after-outside slot t off) (outside ih (not_covered slot.path req.path off))
      ]

  -- Every `before` function whose slot covers the request was called, in the order of registration, and let the request
  -- pass; it takes the first state to the second.
  pub data Passed : List (Slot W) → State W → State W → Type 0 where
    done : {s : State W} → Passed [] s s
    called :
        {slot : Slot W} {slots : List (Slot W)} {s t u : State W}
        → Covers slot.path req.path
        → slot.before req s ≡ (true, t)
        → Passed slots t u
        → Passed (slot ∷ slots) s u
    skipped :
        {slot : Slot W} {slots : List (Slot W)} {s u : State W}
        → (¬ Covers slot.path req.path)
        → Passed slots s u
        → Passed (slot ∷ slots) s u

  run_before-append :
      {pre : List (Slot W)} {s t : State W} (post : List (Slot W))
      → Passed pre s t
      → run_before (pre ++ post) req s ≡ run_before post req t
  unfolding run_before
  run_before-append post done = refl
  run_before-append post (called {slot} on e p) =
      rw ((applies_iff slot.path req.path).1 on, e) (run_before-append post p)
  run_before-append post (skipped {slot} off p) =
      rw (not_applied slot.path req.path off) (run_before-append post p)

  Passed-whole :
      {slots : List (Slot W)} {s t : State W}
      → Passed slots s t
      → run_before slots req s ≡ (true, t)
  Passed-whole {slots} {s} {t} p =
      sym (ap (λ xs. run_before xs req s) (append-nil slots))
      ∙ run_before-append [] p
      ∙ nothing_left t
    where
      nothing_left : (t : State W) → run_before [] req t ≡ (true, t)
      nothing_left t = unfold run_before in refl

-- When every `before` function whose slot covers the request lets it pass and the body is not too
-- large, the route runs on the state that they leave, and then the `after` functions of the slots
-- that cover the request, the last registered first, with the request that the route saw. A slot covers
-- a request when its path is none or the bytes of its path begin the path of the request: one for /api
-- covers /api/users and also /apix, while README.md and papago.3 say that it runs only on /api/* routes.
pub respond-Passed :
    {W : Type 0} (server : Server W) (req : Request) {s t : State W}
    → Passed req server.middleware s t
    → req.body_too_large ≡ false
    → let (req', u) = run_route server.routes req t in
      (v : State W) × Unwound req' server.middleware u v × (respond server req s ≡ (req', v))
unfolding respond
respond-Passed server req {t} p fits =
    let (req', u) = run_route server.routes req t in
    (
      unwind req' server.middleware u,
      unwind-Unwound req' server.middleware u,
      ground (
        arith,
        Passed-whole req p,
        run_after-take req' server.middleware (length server.middleware) u (omega arith),
        take-length server.middleware,
      ),
    )

-- When the body is too large and every `before` function lets the request pass, the answer is 413 and
-- neither a route nor an `after` function runs.
pub respond_too_large :
    {W : Type 0} (server : Server W) (req : Request) {s t : State W}
    → Passed req server.middleware s t
    → req.body_too_large ≡ true
    → respond server req s ≡ (req, answer 413 (codes "{\"error\":\"payload too large\"}") t)
unfolding respond
respond_too_large server req p large = ground (arith, Passed-whole req p)

-- The first `before` function whose slot covers the request and that refuses ends the request: nothing registered behind it runs, no
-- route and no `after` function, and the state is what it left. A slot covers a request when its path is
-- none or the bytes of its path begin the path of the request: one for /api can refuse a request for
-- /apix too, while README.md and papago.3 say that it runs only on /api/* routes.
pub respond_refused :
    {W : Type 0} (server : Server W) (req : Request) (pre post : List (Slot W)) (slot : Slot W)
    {s t u : State W}
    → server.middleware ≡ pre ++ slot ∷ post
    → Passed req pre s t
    → Covers slot.path req.path
    → slot.before req t ≡ (false, u)
    → respond server req s ≡ (req, u)
unfolding respond
respond_refused server req pre post slot {s} {t} {u} e p on refused = ground (arith, whole, refuse)
  where
    refuse : run_before (slot ∷ post) req t ≡ (false, u)
    refuse = unfold run_before in rw ((applies_iff slot.path req.path).1 on, refused)

    whole : run_before server.middleware req s ≡ run_before (slot ∷ post) req t
    whole = rw e (run_before-append req (slot ∷ post) p)
