-- ===== src/Wsc/Stopped.antt =====
-- A client that is stopped leaves papago_wsc_run.
use libpapago.Prelude.{
  ℕ, ◌≡◌, ◌⊎◌, refl, ap, sym, ◌∙◌, Bool, true, false, List, [], ◌∷◌, Option, none, some, Bool-cases,
  Option-cases, inl, inr, if◌then◌else◌,
}
use mathlib.Core.Path.{subst}
use mathlib.Core.Option.{some-injective}
use libpapago.Wsc.{
  Event, connects, sends_text, sends_binary, established, closed, connection_error, writeable,
  stopped, Session, step, run,
}
use libpapago.Wsc.Order.{InOrder, step-InOrder, run_wsc-InOrder}
use libpapago.Wsc.Service.{serve, wsc_run}
use libpapago.Wsc.Off.{IsOff, step-IsOff}

run-IsOff :
    (s s' : Session) (events : List Event)
    → run s events ≡ some s'
    → s.client.running ≡ false
    → s'.client.running ≡ false
unfolding run
run-IsOff s s' [] h off =
    subst (λ (t : Session). t.client.running ≡ false) (some-injective s s' h) off
run-IsOff s s' (e ∷ events) h off = elim (Option-cases (step s e)) [
  | inl f ↦ absurd (nothing (sym (nowhere f) ∙ h))
  | inr (s1, f) ↦
      run-IsOff s1 s' events (sym (somewhere s1 f) ∙ h) (subst IsOff f (step-IsOff s e off))
]
  where
    nothing : none ≡ some s' → ⊥
    nothing g = cc

    nowhere : step s e ≡ none → run s (e ∷ events) ≡ none
    nowhere f = rw (f, run) refl

    somewhere : (s1 : Session) → step s e ≡ some s1 → run s (e ∷ events) ≡ run s1 events
    somewhere s1 f = rw (f, run) refl

-- The calls that end the loop: papago_wsc_stop, and the callbacks that report that the connection was
-- closed and that it failed.
abbrev pub IsEnd : Event → Type 0
IsEnd (connects config context connection) = ⊥
IsEnd (sends_text place text) = ⊥
IsEnd (sends_binary place bytes) = ⊥
IsEnd established = ⊥
IsEnd closed = Unit
IsEnd connection_error = Unit
IsEnd (writeable ok) = ⊥
IsEnd stopped = Unit

abbrev pub Ends : List Event → Type 0
Ends [] = ⊥
Ends (e ∷ events) = IsEnd e ⊎ Ends events

-- Until such a call is made, lws_service does not fail.
abbrev pub Stops : List (List Event × Bool) → Type 0
Stops [] = ⊥
Stops ((events, ok) ∷ polls) = (ok ≡ true) × (Ends events ⊎ Stops polls)

end-IsOff : (s : Session) (e : Event) → IsEnd e → IsOff (step s e)
unfolding step
end-IsOff s (connects config context connection) h = elim h [ ]
end-IsOff s (sends_text place text) h = elim h [ ]
end-IsOff s (sends_binary place bytes) h = elim h [ ]
end-IsOff s established h = elim h [ ]
end-IsOff s closed h = refl
end-IsOff s connection_error h = refl
end-IsOff s (writeable ok) h = elim h [ ]
end-IsOff s stopped h = refl

run-Ends :
    (s s' : Session) (events : List Event)
    → InOrder s
    → run s events ≡ some s'
    → Ends events
    → s'.client.running ≡ false
unfolding run
run-Ends s s' [] i h ends = elim ends [ ]
run-Ends s s' (e ∷ events) i h ends =
    let (s1, f, i1) = step-InOrder s e i in
    let rest : run s1 events ≡ some s' = sym (somewhere s1 f) ∙ h in
    elim ends [
      | inl end ↦ run-IsOff s1 s' events rest (subst IsOff f (end-IsOff s e end))
      | inr later ↦ run-Ends s1 s' events i1 rest later
    ]
  where
    somewhere : (s1 : Session) → step s e ≡ some s1 → run s (e ∷ events) ≡ run s1 events
    somewhere s1 f = rw (f, run) refl

-- The loop was left.
abbrev pub Returns : Option (Option ℕ × Session) → Type 0
Returns out = (s : Session) × (out ≡ some (some 0, s)) × (s.client.running ≡ false) × InOrder s

serve-off :
    (s : Session) (polls : List (List Event × Bool))
    → s.client.running ≡ false
    → serve s polls ≡ some (some 0, s)
unfolding serve
serve-off s [] off = simp (off, serve)
serve-off s ((events, ok) ∷ polls) off = simp (off, serve)

serve-Stops :
    (s : Session) (polls : List (List Event × Bool))
    → InOrder s
    → Stops polls
    → Returns (serve s polls)
unfolding serve
serve-Stops s [] i stops = elim stops [ ]
serve-Stops s ((events, ok) ∷ polls) i stops =
    let (s1, ran, i1) = run_wsc-InOrder s events i in
    elim (Bool-cases s.client.running) [
      | inr e ↦ (s, simp (e, serve), e, i)
      | inl e ↦ elim stops.1 [
        | inl ends ↦
            let off = run-Ends s s1 events i ran ends in
            (s1, simp (e, stops.0, ran, serve-off s1 polls off, serve), off, i1)
        | inr later ↦
            let (s2, served, off, i2) = serve-Stops s1 polls i1 later in
            (s2, simp (e, stops.0, ran, served, serve), off, i2)
      ]
    ]

-- papago_wsc_run on a client with a context whose queue is in order: once papago_wsc_stop is called, or
-- libwebsockets reports that the connection was closed or that it failed, and if lws_service has not failed
-- until then, it returns 0, whatever was sent and written meanwhile and whatever would follow; the client is not
-- running, and its messages are in order. After an error of the connection too it returns 0, while
-- papago_wsc.h says 1 on error.
pub wsc_run-Returns :
    (s : Session) (polls : List (List Event × Bool))
    → InOrder s
    → s.client.has_context ≡ true
    → Stops polls
    → Returns (wsc_run s polls)
unfolding wsc_run
wsc_run-Returns s polls i context stops =
    let started : Session = record s { client = record s.client { running = true } } in
    subst Returns (sym (ap chosen context)) (
      serve-Stops started polls
        (record { waiting = i.waiting; queues = i.queues; in_order = i.in_order }) stops)
  where
    chosen : Bool → Option (Option ℕ × Session)
    chosen context =
        if context
        then serve (record s { client = record s.client { running = true } }) polls
        else some (some 1, s)
