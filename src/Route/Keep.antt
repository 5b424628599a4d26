-- ===== src/Route/Keep.antt =====
-- Whether a pattern matches does not depend on whether the captures are stored.
use libpapago.Prelude.{
  ℕ, zero, suc, ◌-◌, ◌≡◌, refl, Bool, true, false, List, [], arith, length, drop, is_none,
}
use libpapago.Prelude.Text.{CString}
use libpapago.Route.{Span, next_segment, capture, match_end, match_from, match_route}

match_end-keep :
    (j k : Bool) (ss ts : List Span) (pt : CString) (plen : ℕ) (qt : CString) (qlen : ℕ)
    → is_none (match_end j ss pt plen qt qlen) ≡ is_none (match_end k ts pt plen qt qlen)
unfolding match_end
match_end-keep j k ss ts pt plen qt qlen = ground arith

match_from-keep :
    (fuel : ℕ) (j k : Bool) (ss ts : List Span) (pt : CString) (plen : ℕ) (qt : CString) (qlen : ℕ)
    → is_none (match_from fuel j ss pt plen qt qlen)
      ≡ is_none (match_from fuel k ts pt plen qt qlen)
unfolding match_from
match_from-keep zero j k ss ts pt plen qt qlen = refl
match_from-keep (suc fuel) j k ss ts pt plen qt qlen =
    let p = next_segment (drop plen pt) in
    let q = next_segment (drop qlen qt) in
    let named : Span = record {
      key = drop 1 pt;
      key_len = plen - 1;
      val = qt;
      val_len = qlen;
      wildcard = false;
    } in
    ground (
      arith,
      match_end-keep j k ss ts pt plen qt qlen,
      match_from-keep fuel j k ss ts p.0 p.1 q.0 q.1,
      match_from-keep fuel j k (capture j ss named) (capture k ts named) p.0 p.1 q.0 q.1,
    )

-- Whether a pattern matches does not depend on whether the captures are asked for.
pub match_route-keep :
    (pattern path : CString)
    → is_none (match_route pattern path false) ≡ is_none (match_route pattern path true)
unfolding match_route
match_route-keep pattern path =
    match_from-keep (suc (length pattern)) false true [] [] (next_segment pattern).0
      (next_segment pattern).1 (next_segment path).0 (next_segment path).1
