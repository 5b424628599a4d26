-- ===== src/Upload/Body.antt =====
-- What a body is after all of its parts arrived.
use mathlib.Core.Path.{subst}
use libpapago.Prelude.{
  ℕ, ◌+◌, ◌^◌, ◌≤◌, ◌<◌, ◌≡◌, ◌⊎◌, refl, sym, ap, ◌∙◌, true, false, List, [], ◌∷◌, ◌++◌, none, some,
  arith, ltb, ltb→lt, length, take, take-length, length-append, append_assoc, append-nil,
  Bool-cases, inl, inr,
}
use libpapago.Multipart.Iterate.{add_size}
use libpapago.Multipart.Text.{concat}
use libpapago.Request.{Request}
use libpapago.Upload.{body_bytes, receive_body}

-- The parts of a body, one after the other, while no allocation fails.
unfoldable pub receive_bodies : ℕ → Request → List (List ℕ) → Request
receive_bodies max req [] = req
receive_bodies max req (b ∷ bs) = receive_bodies max (receive_body max req b []).0 bs

-- These bytes have arrived, and are within the limit.
pub record Received (max : ℕ) (req : Request) (bytes : List ℕ) : Type 0 where
  pub kept : body_bytes req.body ≡ bytes
  pub len : req.body_length ≡ length bytes
  pub fits : length bytes ≤ max
  pub not_too_large : req.body_too_large ≡ false

too_large_stays :
    (max : ℕ) (req : Request) (bs : List (List ℕ))
    → req.body_too_large ≡ true
    → (receive_bodies max req bs).body_too_large ≡ true
unfolding receive_bodies
too_large_stays max req [] h = h
too_large_stays max req (b ∷ bs) h =
    too_large_stays max (receive_body max req b []).0 bs (one_stays max req b h)
  where
    one_stays :
        (max : ℕ) (req : Request) (b : List ℕ)
        → req.body_too_large ≡ true
        → (receive_body max req b []).0.body_too_large ≡ true
    one_stays max req b h = unfold receive_body in ground arith

receive_body-over :
    (max : ℕ) (req : Request) (b : List ℕ)
    → ltb max (add_size req.body_length (length b)) ≡ true
    → (receive_body max req b []).0.body_too_large ≡ true
unfolding receive_body
receive_body-over max req b h = rw h

receive_body-within :
    (max : ℕ) (req : Request) (b : List ℕ)
    → ltb max (add_size req.body_length (length b)) ≡ false
    → receive_body max req b [] ≡ (
      record req {
        body = some (take req.body_length (body_bytes req.body) ++ b);
        body_length = add_size req.body_length (length b);
      },
      [],
    )
unfolding receive_body
receive_body-within max req b h = rw h

receive-Received :
    (max : ℕ) (req : Request) (before b : List ℕ)
    → Received max req before
    → length before + length b < 2 ^ 64
    → ltb max (add_size req.body_length (length b)) ≡ false
    → Received max (receive_body max req b []).0 (before ++ b)
receive-Received max req before b r small h =
    let total : add_size req.body_length (length b) ≡ length (before ++ b) =
      omega (arith, r.len, length-append before b) in
    let old : take req.body_length (body_bytes req.body) ≡ before =
      rw (r.kept, r.len) (take-length before) in
    rw (receive_body-within max req b h) (record {
      kept = ap (λ bs. bs ++ b) old;
      len = total;
      fits = not_below max (length (before ++ b)) (ap (ltb max) (sym total) ∙ h);
      not_too_large = r.not_too_large;
    })
  where
    not_below : (m n : ℕ) → ltb m n ≡ false → n ≤ m
    not_below m n h = ground arith

receive_bodies-from :
    (max : ℕ) (req : Request) (before : List ℕ) (bs : List (List ℕ))
    → Received max req before
    → length before + length (concat bs) < 2 ^ 64
    → Received max (receive_bodies max req bs) (before ++ concat bs)
      ⊎ ((max < length before + length (concat bs))
          × ((receive_bodies max req bs).body_too_large ≡ true))
receive_bodies-from max req before [] r small =
    inl (unfold receive_bodies in subst (Received max req) (sym (append-nil before)) r)
receive_bodies-from max req before (b ∷ bs) r small =
    let sum = length-append b (concat bs) in
    let next = (receive_body max req b []).0 in
    let step : receive_bodies max req (b ∷ bs) ≡ receive_bodies max next bs =
      unfold receive_bodies in refl in
    elim (Bool-cases (ltb max (add_size req.body_length (length b)))) [
      | inl over ↦ inr (
        over_limit max req.body_length before b (concat bs) r.len (omega (arith, sum)) over,
        rw step (too_large_stays max next bs (receive_body-over max req b over)),
      )
      | inr within ↦
          elim (receive_bodies-from max next (before ++ b) bs
            (receive-Received max req before b r (omega (arith, sum)) within)
            (omega (arith, sum, length-append before b))) [
              | inl all ↦ inl (
                  rw step (
                    subst (Received max (receive_bodies max next bs))
                      (append_assoc before b (concat bs)) all))
              | inr (more, large) ↦ inr (omega (arith, sum, length-append before b), rw step large)
            ]
    ]
  where
    over_limit :
        (max len : ℕ) (before b rest : List ℕ)
        → len ≡ length before
        → length before + length b < 2 ^ 64
        → ltb max (add_size len (length b)) ≡ true
        → max < length before + length (b ++ rest)
    over_limit max len before b rest e small h =
        omega (arith, ltb→lt max (add_size len (length b)) h, length-append b rest)

-- A body in any number of parts, of fewer than 2^64 bytes in all: if it is within the limit, the
-- request holds all of its bytes in order and their number, and is not marked; if it is over the
-- limit, the request is marked as too large. No allocation fails.
pub receive_bodies_lem :
    (max : ℕ) (req : Request) (bs : List (List ℕ))
    → req.body ≡ none
    → req.body_length ≡ 0
    → req.body_too_large ≡ false
    → length (concat bs) < 2 ^ 64
    → Received max (receive_bodies max req bs) (concat bs)
      ⊎ ((max < length (concat bs)) × ((receive_bodies max req bs).body_too_large ≡ true))
receive_bodies_lem max req bs e z n small =
    elim (receive_bodies-from max req [] bs
      (record { kept = ap body_bytes e; len = z; fits = omega arith; not_too_large = n })
      (omega arith)) [ inl all ↦ inl all | inr (more, large) ↦ inr (omega arith, large) ]
