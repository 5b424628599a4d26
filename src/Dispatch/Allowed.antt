-- ===== src/Dispatch/Allowed.antt =====
-- The methods that set_allow_header is given: those, other than the request's, that have a route for
-- its path.
use libpapago.Prelude.{
  ℕ, ◌<◌, ◌≡◌, refl, sym, Bool, true, false, not, ◌&&◌, ◌||◌, List, [], ◌∷◌, some, is_none, arith,
  if◌then◌else◌, Bool-cases, inl, inr, ◌==◌,
}
use libpapago.Prelude.Text.{CString}
use libpapago.Method.{Method, get, test_bit, set_bit}
use libpapago.Method.Allow.{test_bit-set_bit, allowed_names}
use libpapago.Route.{route_matches}
use libpapago.Server.{Route}
use libpapago.Dispatch.{same_method, allowed_from}

set_bit-pos : (allowed : ℕ) (m : Method) → 0 < set_bit allowed m
unfolding set_bit
set_bit-pos allowed get = ground arith
set_bit-pos allowed _ = ground arith

pub not-not : (a : Bool) → not (not a) ≡ a
not-not a = ground arith

or-false : (a : Bool) → (a || false) ≡ a
or-false a = ground arith

and-true : (a : Bool) → (a && true) ≡ a
and-true a = ground arith

or_swap : (a b c : Bool) → ((a || b) || c) ≡ (b || (a || c))
or_swap a b c = ground arith

and_zero : (m n : ℕ) (b : Bool) → 0 < m → (m == 0 && b) ≡ (n == 0 && false)
and_zero m n b h = ground arith

no_bit : (n : Method) → test_bit 0 n ≡ false
unfolding test_bit
no_bit get = refl
no_bit _ = refl

module _ {W : Type 0} where
  -- Does a route with another method than the request's match the path?
  abbrev pub other_match : Route W → Method → CString → Bool
  other_match r method path =
      not (same_method r.method method)
      && not (is_none (route_matches (some r.path) r.is_static (some path) false))

  -- Is there such a route, of any method or of the method n?
  abbrev pub any_other : List (Route W) → Method → CString → Bool
  any_other [] method path = false
  any_other (r ∷ routes) method path = other_match r method path || any_other routes method path

  abbrev pub other_with : List (Route W) → Method → CString → Method → Bool
  other_with [] method path n = false
  other_with (r ∷ routes) method path n =
      (other_match r method path && same_method r.method n) || other_with routes method path n

  -- One round of the loop that collects the methods.
  allowed_from-hit :
      (r : Route W) (routes : List (Route W)) (method : Method) (path : CString) (allowed : ℕ)
      → other_match r method path ≡ true
      → allowed_from (r ∷ routes) method path allowed
        ≡ allowed_from routes method path (set_bit allowed r.method)
  unfolding allowed_from
  allowed_from-hit r routes method path allowed e = rw e

  allowed_from-miss :
      (r : Route W) (routes : List (Route W)) (method : Method) (path : CString) (allowed : ℕ)
      → other_match r method path ≡ false
      → allowed_from (r ∷ routes) method path allowed ≡ allowed_from routes method path allowed
  unfolding allowed_from
  allowed_from-miss r routes method path allowed e = rw e

  allowed_from-test_bit :
      (routes : List (Route W)) (method : Method) (path : CString) (allowed : ℕ) (n : Method)
      → test_bit (allowed_from routes method path allowed) n
        ≡ (test_bit allowed n || other_with routes method path n)
  allowed_from-test_bit [] method path allowed n = unfold allowed_from in sym (or-false _)
  allowed_from-test_bit (r ∷ routes) method path allowed n =
      elim (Bool-cases (other_match r method path)) [
        | inl e ↦
            rw
              (
                e,
                allowed_from-hit r routes method path allowed e,
                allowed_from-test_bit routes method path (set_bit allowed r.method) n,
                test_bit-set_bit allowed r.method n,
              )
              (or_swap (same_method r.method n) (test_bit allowed n)
                (other_with routes method path n))
        | inr e ↦ rw (
          e,
          allowed_from-miss r routes method path allowed e,
          allowed_from-test_bit routes method path allowed n,
        )
      ]

  allowed_from-zero :
      (routes : List (Route W)) (method : Method) (path : CString) (allowed : ℕ)
      → (allowed_from routes method path allowed == 0)
        ≡ (allowed == 0 && not (any_other routes method path))
  allowed_from-zero [] method path allowed = unfold allowed_from in sym (and-true _)
  allowed_from-zero (r ∷ routes) method path allowed =
      elim (Bool-cases (other_match r method path)) [
        | inl e ↦
            rw
              (
                e,
                allowed_from-hit r routes method path allowed e,
                allowed_from-zero routes method path (set_bit allowed r.method),
              )
              (and_zero (set_bit allowed r.method) allowed (not (any_other routes method path))
                (set_bit-pos allowed r.method))
        | inr e ↦ rw (
          e,
          allowed_from-miss r routes method path allowed e,
          allowed_from-zero routes method path allowed,
        )
      ]

  -- The mask of set_allow_header has the bit of a method exactly when another method than the
  -- request's, namely that one, has a route that matches the path; it is 0 when there is none.
  pub allowed_from_lem :
      (routes : List (Route W)) (method : Method) (path : CString) (n : Method)
      → (test_bit (allowed_from routes method path 0) n ≡ other_with routes method path n)
        × ((allowed_from routes method path 0 == 0) ≡ not (any_other routes method path))
  allowed_from_lem routes method path n = (
    rw (allowed_from-test_bit routes method path 0 n, no_bit n),
    allowed_from-zero routes method path 0,
  )

  -- The names of the methods other than the request's that have a route for the path.
  unfoldable pub other_names :
      List (Route W) → Method → CString → List (CString × Method) → List CString
  other_names routes method path [] = []
  other_names routes method path ((name, m) ∷ rest) =
      if other_with routes method path m
      then name ∷ other_names routes method path rest
      else other_names routes method path rest

  pub allowed_names-other_names :
      (routes : List (Route W)) (method : Method) (path : CString) (table : List (CString × Method))
      → allowed_names (allowed_from routes method path 0) table
        ≡ other_names routes method path table
  unfolding allowed_names other_names
  allowed_names-other_names routes method path [] = refl
  allowed_names-other_names routes method path ((name, m) ∷ rest) =
      rw (
        (allowed_from_lem routes method path m).0,
        allowed_names-other_names routes method path rest,
      )
