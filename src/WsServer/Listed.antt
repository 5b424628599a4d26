-- ===== src/WsServer/Listed.antt =====
-- The list of the connections of a server holds no connection that was closed.
use libpapago.Prelude.{
  ℕ, ◌≤◌, ◌≡◌, ◌≢◌, ap, sym, ◌∙◌, Bool, true, false, List, [], ◌∷◌, arith, All, All-append, length,
  length-append, ltb, ◌==◌, if◌then◌else◌, Bool-cases, ==_iff, inl, inr,
}
use libpapago.WsQueue.Represents.{Distinct, Distinct-append, ne_of_false}
use libpapago.WsServer.{max_connections, add_connection, remove_connection}

-- A connection is established, in memory that no live connection has, or is closed.
pub data Event : Type 0 where
  opened : ℕ → Event
  closed : ℕ → Event

-- The list, and which connections live.
pub record Registry : Type 0 where
  pub listed : List ℕ
  pub live : ℕ → Bool

abbrev pub set_live : (ℕ → Bool) → ℕ → Bool → ℕ → Bool
set_live live conn alive c = if c == conn then alive else live c

unfoldable pub step : Registry → Event → Registry
step r (opened conn) =
    if r.live conn
    then r
    else record { listed = add_connection r.listed conn; live = set_live r.live conn true }
step r (closed conn) = record {
  listed = remove_connection r.listed conn;
  live = set_live r.live conn false;
}

unfoldable pub run : Registry → List Event → Registry
run r [] = r
run r (e ∷ es) = run (step r e) es

pub record IsCurrent (r : Registry) : Type 0 where
  pub all_live : All (λ c. r.live c ≡ true) r.listed
  pub distinct : Distinct r.listed
  pub bound : length r.listed ≤ max_connections

All-map : (P Q : ℕ → Type 0) (xs : List ℕ) → ((x : ℕ) → P x → Q x) → All P xs → All Q xs
All-map P Q [] f h = tt
All-map P Q (x ∷ xs) f h = (f x h.0, All-map P Q xs f h.1)

live_or_new : (live : ℕ → Bool) (conn c : ℕ) → live c ≡ true → set_live live conn true c ≡ true
live_or_new live conn c h = ground arith

live_here : (live : ℕ → Bool) (conn : ℕ) (alive : Bool) → set_live live conn alive conn ≡ alive
live_here live conn alive = ground arith

live_other :
    (live : ℕ → Bool) (conn c : ℕ) (alive : Bool) → c ≢ conn → set_live live conn alive c ≡ live c
live_other live conn c alive h = ground arith

-- Removal keeps what is left, and leaves no trace of the connection.
All-remove :
    (P : ℕ → Type 0) (conn : ℕ) (listed : List ℕ)
    → Distinct listed
    → All P listed
    → All (λ c. P c × (c ≢ conn)) (remove_connection listed conn)
unfolding remove_connection
All-remove P conn [] d h = tt
All-remove P conn (c ∷ listed) d h = elim (Bool-cases (c == conn)) [
  | inl e ↦ let same : c ≡ conn = (==_iff c conn).0 e in rw e (both listed d.0 h.1 same)
  | inr e ↦ rw e ((h.0, ne_of_false c conn e), All-remove P conn listed d.1 h.1)
]
  where
    both :
        (xs : List ℕ) → All (λ x. c ≢ x) xs → All P xs → c ≡ conn → All (λ x. P x × (x ≢ conn)) xs
    both [] n a s = tt
    both (x ∷ xs) n a s = ((a.0, λ q. n.0 (s ∙ sym q)), both xs n.1 a.1 s)

All-removed :
    (P : ℕ → Type 0) (conn : ℕ) (listed : List ℕ)
    → All P listed
    → All P (remove_connection listed conn)
unfolding remove_connection
All-removed P conn [] h = tt
All-removed P conn (c ∷ listed) h = elim (Bool-cases (c == conn)) [
  | inl e ↦ rw e h.1
  | inr e ↦ rw e (h.0, All-removed P conn listed h.1)
]

Distinct-remove :
    (conn : ℕ) (listed : List ℕ) → Distinct listed → Distinct (remove_connection listed conn)
unfolding remove_connection
Distinct-remove conn [] d = tt
Distinct-remove conn (c ∷ listed) d = elim (Bool-cases (c == conn)) [
  | inl e ↦ rw e d.1
  | inr e ↦ rw e (All-removed (λ x. c ≢ x) conn listed d.0, Distinct-remove conn listed d.1)
]

length-remove :
    (conn : ℕ) (listed : List ℕ) → length (remove_connection listed conn) ≤ length listed
unfolding remove_connection
length-remove conn [] = omega arith
length-remove conn (c ∷ listed) = elim (Bool-cases (c == conn)) [
  | inl e ↦ rw e (omega arith)
  | inr e ↦ rw e (omega (arith, length-remove conn listed))
]

add_connection-IsCurrent :
    (r : Registry) (conn : ℕ)
    → r.live conn ≡ false
    → IsCurrent r
    → IsCurrent (record { listed = add_connection r.listed conn; live = set_live r.live conn true })
unfolding add_connection
add_connection-IsCurrent r conn dead i =
    let others =
      All-map (λ c. r.live c ≡ true) (λ c. set_live r.live conn true c ≡ true) r.listed
        (live_or_new r.live conn) i.all_live in
    elim (Bool-cases (ltb (length r.listed) max_connections)) [
      | inl e ↦ rw e (record {
        all_live =
            All-append (λ c. set_live r.live conn true c ≡ true) r.listed (conn ∷ []) others
              (live_here r.live conn true, tt);
        distinct = Distinct-append r.listed conn i.distinct (
            All-map (λ c. r.live c ≡ true) (λ c. conn ≢ c) r.listed
              (λ c alive same. absurd (not_both (r.live c) alive (sym (ap r.live same) ∙ dead)))
              i.all_live);
        bound = ground (arith, length-append r.listed (conn ∷ []));
      })
      | inr e ↦ rw e (record { all_live = others; distinct = i.distinct; bound = i.bound })
    ]
  where
    not_both : (b : Bool) → b ≡ true → b ≡ false → ⊥
    not_both b h k = absurd (cc)

step-IsCurrent : (r : Registry) (e : Event) → IsCurrent r → IsCurrent (step r e)
unfolding step
step-IsCurrent r (opened conn) i = elim (Bool-cases (r.live conn)) [
  | inl alive ↦ rw alive i
  | inr dead ↦ rw dead (add_connection-IsCurrent r conn dead i)
]
step-IsCurrent r (closed conn) i = record {
  all_live =
      All-map (λ c. (r.live c ≡ true) × (c ≢ conn)) (λ c. set_live r.live conn false c ≡ true)
        (remove_connection r.listed conn) (λ c h. live_other r.live conn c false h.1 ∙ h.0)
        (All-remove (λ c. r.live c ≡ true) conn r.listed i.distinct i.all_live);
  distinct = Distinct-remove conn r.listed i.distinct;
  bound = omega (arith, length-remove conn r.listed, i.bound);
}

-- However connections come and go, the list that papago_ws_broadcast goes through has at most 256
-- entries, none of them twice, and only connections that are not closed.
pub run_events-IsCurrent : (r : Registry) (es : List Event) → IsCurrent r → IsCurrent (run r es)
unfolding run
run_events-IsCurrent r [] i = i
run_events-IsCurrent r (e ∷ es) i = run_events-IsCurrent (step r e) es (step-IsCurrent r e i)
