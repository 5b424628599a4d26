-- ===== src/Route/Matching.antt =====
-- match_route against matching on lists of segments: which pairs match, and what is captured.
use mathlib.Core.List.{map-append}
use libpapago.Prelude.{
  ℕ, zero, suc, ◌+◌, ◌-◌, ◌≤◌, ◌<◌, ◌≡◌, refl, true, false, ◌&&◌, List, [], ◌∷◌, ◌++◌, arith, ◌==◌,
  ltb, if◌then◌else◌, length, take, drop, map, Option, none, lt→ltb, some, Bool-cases, ◌∙◌, sym,
  inl, inr, length-append, append_assoc, append-nil, take-length,
}
use libpapago.Prelude.Text.{CString, str_eq, tokens, join, codes}
use libpapago.Kv.{Kv}
use libpapago.Route.{
  Span, next_segment, head_is, is_star, capture, collapse_from, strip_slash, written, match_end,
  match_from, match_route, max_route_params, count_route_params,
}
use libpapago.Route.Segments.{
  segments_at, next_segment_bounds, next_segment-drop, segments_at-next_segment,
  tokens-next_segment, head_is-take, is_star-take, is_wildcard, param_count, count_route_params_lem,
}
use libpapago.Route.Collapse.{collapsed, collapsed-eq-join}

-- What commit_params stores for a capture.
abbrev pub span_kv : Span → Kv
span_kv sp = record {
  key = take sp.key_len sp.key;
  value = if sp.wildcard then collapsed (take sp.val_len sp.val) else take sp.val_len sp.val;
}

abbrev pub after : List Kv → Option (List Kv) → Option (List Kv)
after kvs none = none
after kvs (some more) = some (kvs ++ more)

-- The captures of a path by a pattern, segment by segment: `:name` takes one segment, `*` all that
-- are left, any other segment itself. Behind a `*` nothing of the pattern counts, also where no segment
-- of the path is left.
unfoldable pub bindings : List CString → List CString → Option (List Kv)
bindings [] [] = some []
bindings [] (q ∷ qs) = none
bindings (p ∷ ps) [] =
    if is_wildcard p then some (record { key = codes "*"; value = [] } ∷ []) else none
bindings (p ∷ ps) (q ∷ qs) =
    let named = after (record { key = drop 1 p; value = q } ∷ []) (bindings ps qs) in
    let same = bindings ps qs in
    if is_wildcard p
    then some (record { key = codes "*"; value = join b'/' (q ∷ qs) } ∷ [])
    else if head_is b':' p
    then named
    else if str_eq p q
    then same
    else none

take-drop_one : (s : CString) (len : ℕ) → 0 < len → take (len - 1) (drop 1 s) ≡ drop 1 (take len s)
take-drop_one s zero h = absurd (omega arith)
take-drop_one [] (suc zero) h = refl
take-drop_one [] (suc (suc len)) h = let e : suc (suc len) - 1 ≡ suc len = omega arith in rw e
take-drop_one (c ∷ s) (suc len) h = let e : suc len - 1 ≡ len = omega arith in rw e

str_eq-take :
    (s t : CString) (m n : ℕ)
    → m ≤ length s
    → n ≤ length t
    → str_eq (take m s) (take n t) ≡ (m == n && str_eq (take m s) (take m t))
unfolding str_eq
str_eq-take s t zero zero h k = refl
str_eq-take s [] zero (suc n) h k = absurd (omega arith)
str_eq-take s (d ∷ t) zero (suc n) h k = ground arith
str_eq-take [] t (suc m) n h k = absurd (omega arith)
str_eq-take (c ∷ s) t (suc m) zero h k = ground arith
str_eq-take (c ∷ s) [] (suc m) (suc n) h k = absurd (omega arith)
str_eq-take (c ∷ s) (d ∷ t) (suc m) (suc n) h k = ground (arith, str_eq-take s t m n)

capture_room :
    (spans : List Span) (sp : Span)
    → length spans < max_route_params
    → map span_kv (capture true spans sp) ≡ map span_kv spans ++ span_kv sp ∷ []
unfolding capture
capture_room spans sp h = rw (lt→ltb (length spans) max_route_params h, map-append)

length-capture : (spans : List Span) (sp : Span) → length (capture true spans sp) ≤ length spans + 1
unfolding capture
length-capture spans sp = ground (arith, length-append spans (sp ∷ []))

-- The pairs that the captures of a match stand for.
abbrev pub stored : Option (List Span) → Option (List Kv)
stored none = none
stored (some spans) = some (map span_kv spans)

after-after : (xs ys : List Kv) (o : Option (List Kv)) → after xs (after ys o) ≡ after (xs ++ ys) o
after-after xs ys none = refl
after-after xs ys (some zs) = rw append_assoc

collapsed-nil : collapsed [] ≡ []
collapsed-nil = unfold collapse_from strip_slash written in refl

after-nil : (o : Option (List Kv)) → after [] o ≡ o
after-nil none = refl
after-nil (some kvs) = refl

-- Both walks at one position, with the captures so far and room for those to come.
record IsAt (spans : List Span) (pt : CString) (plen : ℕ) (qt : CString) (qlen : ℕ) : Type 0 where
  in_pattern : plen ≤ length pt
  in_path : qlen ≤ length qt
  whole : segments_at qt qlen ≡ tokens b'/' qt
  room : length spans + param_count (segments_at pt plen) ≤ max_route_params

match_end_lem :
    (spans : List Span) (pt : CString) (plen : ℕ) (qt : CString) (qlen : ℕ)
    → IsAt spans pt plen qt qlen
    → (ltb 0 plen && ltb 0 qlen) ≡ false
    → stored (match_end true spans pt plen qt qlen)
      ≡ after (map span_kv spans) (bindings (segments_at pt plen) (segments_at qt qlen))
unfolding match_end bindings param_count
match_end_lem spans pt plen qt qlen s h =
    let star : Span = record {
      key = codes "*";
      key_len = 1;
      val = qt;
      val_len = 0;
      wildcard = true;
    } in
    ground (
      arith,
      is_star-take pt plen,
      append-nil (map span_kv spans),
      capture_room spans star,
      collapsed-nil,
    )

-- The position after one segment of each.
IsAt-next :
    (spans : List Span) (pt : CString) (plen : ℕ) (qt : CString) (qlen : ℕ)
    → length spans + param_count (tokens b'/' (drop plen pt)) ≤ max_route_params
    → let (pt', plen') = next_segment (drop plen pt) in
      let (qt', qlen') = next_segment (drop qlen qt) in IsAt spans pt' plen' qt' qlen'
IsAt-next spans pt plen qt qlen h = record {
  in_pattern = (next_segment_bounds (drop plen pt)).0;
  in_path = (next_segment_bounds (drop qlen qt)).0;
  whole = segments_at-next_segment (drop qlen qt) ∙ sym (tokens-next_segment (drop qlen qt));
  room = rw (segments_at-next_segment (drop plen pt)) h;
}

-- A segment of each: the pattern's is `*`, a name or a literal.
match_step :
    (fuel : ℕ) (spans : List Span) (pt : CString) (plen : ℕ) (qt : CString) (qlen : ℕ)
    → IsAt spans pt plen qt qlen
    → 0 < plen
    → 0 < qlen
    → ((spans' : List Span)
        → length spans' + param_count (tokens b'/' (drop plen pt)) ≤ max_route_params
        → let (pt', plen') = next_segment (drop plen pt) in
          let (qt', qlen') = next_segment (drop qlen qt) in
          stored (match_from fuel true spans' pt' plen' qt' qlen')
          ≡ after
              (map span_kv spans')
              (bindings (tokens b'/' (drop plen pt)) (tokens b'/' (drop qlen qt))))
    → stored (match_from (suc fuel) true spans pt plen qt qlen)
      ≡ after (map span_kv spans) (bindings (segments_at pt plen) (segments_at qt qlen))
unfolding match_from bindings param_count
match_step fuel spans pt plen qt qlen s hp hq ih =
    let whole : Span = record {
      key = codes "*";
      key_len = 1;
      val = qt;
      val_len = length qt;
      wildcard = true;
    } in
    let named : Span = record {
      key = drop 1 pt;
      key_len = plen - 1;
      val = qt;
      val_len = qlen;
      wildcard = false;
    } in
    let star = is_star-take pt plen s.in_pattern in
    let colon = head_is-take b':' pt plen hp in
    elim (Bool-cases (is_star pt plen)) [
      | inl e ↦ ground (arith, star, capture_room spans whole, take-length qt, collapsed-eq-join qt)
      | inr e ↦ elim (Bool-cases (head_is b':' pt)) [
        | inl f ↦ ground (
          arith,
          star,
          colon,
          capture_room spans named,
          length-capture spans named,
          take-drop_one pt plen hp,
          ih (capture true spans named),
          after-after (map span_kv spans) (span_kv named ∷ [])
              (bindings (tokens b'/' (drop plen pt)) (tokens b'/' (drop qlen qt))),
        )
        | inr f ↦
            ground
              (arith, star, colon, str_eq-take pt qt plen qlen s.in_pattern s.in_path, ih spans)
      ]
    ]

match_from_lem :
    (fuel : ℕ) (spans : List Span) (pt : CString) (plen : ℕ) (qt : CString) (qlen : ℕ)
    → length pt < fuel
    → IsAt spans pt plen qt qlen
    → stored (match_from fuel true spans pt plen qt qlen)
      ≡ after (map span_kv spans) (bindings (segments_at pt plen) (segments_at qt qlen))
unfolding match_from
match_from_lem zero spans pt plen qt qlen f s = absurd (omega arith)
match_from_lem (suc fuel) spans pt plen qt qlen f s = elim (Bool-cases (ltb 0 plen && ltb 0 qlen)) [
  | inl e ↦ match_step fuel spans pt plen qt qlen s (ground arith) (ground arith) (λ spans' room.
      rw (← segments_at-next_segment (drop plen pt), ← segments_at-next_segment (drop qlen qt))
        (match_from_lem fuel spans' (next_segment (drop plen pt)).0 (next_segment (drop plen pt)).1
          (next_segment (drop qlen qt)).0 (next_segment (drop qlen qt)).1
          (let h : 0 < plen = ground arith in omega (arith, next_segment-drop pt plen))
          (IsAt-next spans' pt plen qt qlen room)))
  | inr e ↦ rw e (match_end_lem spans pt plen qt qlen s e)
]

-- match_route finds exactly the captures of the pattern's segments in the path's segments, for a
-- pattern of at most 16 parameters, which is what papago_route accepts. A `*` at which the path has ended
-- matches nothing, and then the rest of the pattern is not looked at: /a/*/b matches the path /a. A
-- comment in papago.c says that the pattern must be used up unless all that is left of it is a `*`.
pub match_route_refines :
    (pattern path : CString)
    → count_route_params pattern ≤ max_route_params
    → stored (match_route pattern path true) ≡ bindings (tokens b'/' pattern) (tokens b'/' path)
unfolding match_route
match_route_refines pattern path h =
    let (pt, plen) = next_segment pattern in
    let (qt, qlen) = next_segment path in
    let at : IsAt [] pt plen qt qlen = record {
      in_pattern = (next_segment_bounds pattern).0;
      in_path = (next_segment_bounds path).0;
      whole = segments_at-next_segment path ∙ sym (tokens-next_segment path);
      room = rw segments_at-next_segment (omega (arith, h, count_route_params_lem pattern));
    } in
    ground (
      arith,
      match_from_lem (suc (length pattern)) [] pt plen qt qlen
          (omega (arith, next_segment_bounds pattern)) at,
      segments_at-next_segment pattern,
      segments_at-next_segment path,
      after-nil (bindings (tokens b'/' pattern) (tokens b'/' path)),
    )
