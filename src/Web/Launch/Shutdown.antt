-- ===== src/Web/Launch/Shutdown.antt =====
-- `serveGraceful` of cmd/avtool-web/main.go comes back, and loses no error of the server.
use nexguard.Prelude.{
  ℕ, ◌+◌, ◌≤◌, ◌<◌, ◌≡◌, refl, subst, ◌⊎◌, inl, inr, Bool, true, false, none, some, arith,
  Bool-cases, Option-cases,
}
use nexguard.Prelude.Text.{codes}
use nexguard.Exec.{Error, wrap, Result, ok, err}
use nexguard.Web.Launch.Defs.{
  Listener, listening, sending, closing, closed, Phase, selecting, shutting_down, receiving,
  returned, Serving, serve_start, is_shut, ServeStep, fails, shut, sends, closes, signals,
  selects_error, selects_closed, selects_stop, shuts_down, shutdown_fails, receives_error,
  receives_closed, ServeRun, halt, more, SystemStep, meets,
}

-- How many steps are left at most.
abbrev listener_work : Listener → ℕ
listener_work listening = 3
listener_work (sending e) = 2
listener_work closing = 1
listener_work closed = 0

abbrev phase_work : Phase → ℕ
phase_work selecting = 3
phase_work shutting_down = 2
phase_work receiving = 1
phase_work (returned r) = 0

abbrev signal_work : Bool → ℕ
signal_work true = 0
signal_work false = 1

abbrev work : Serving → ℕ
work s = listener_work s.listener + (phase_work s.phase + signal_work s.signalled)

ServeStep-work : {s t : Serving} → ServeStep s t → work t < work s
ServeStep-work (shut at down) = ground (arith, at)
ServeStep-work (sends e at empty) = ground (arith, at)
ServeStep-work (closes at) = ground (arith, at)
ServeStep-work (selects_error e at full) = ground (arith, at)
ServeStep-work (selects_closed at empty done) = ground (arith, at)
ServeStep-work (selects_stop at told) = ground (arith, at)
ServeStep-work (shuts_down at) = ground (arith, at)
ServeStep-work (shutdown_fails e at) = ground (arith, at)
ServeStep-work (receives_error e at full) = ground (arith, at)
ServeStep-work (receives_closed at empty done) = ground (arith, at)

SystemStep-work : {s t : Serving} → SystemStep s t → work t < work s
SystemStep-work (fails e at) = ground (arith, at)
SystemStep-work (signals new) = ground (arith, new)

ServeRun-work : {s : Serving} {n : ℕ} {t : Serving} → ServeRun s n t → n + work t ≤ work s
ServeRun-work halt = omega arith
ServeRun-work (more r st) = omega (arith, ServeRun-work r, ServeStep-work st)
ServeRun-work (meets r st) = omega (arith, ServeRun-work r, SystemStep-work st)

abbrev pub is_back : Phase → Bool
is_back (returned r) = true
is_back _ = false

-- Where the error of the server is.
abbrev Sent : Listener → Serving → Type 0
Sent listening s = (s.failure ≡ none) × (s.buffer ≡ none)
Sent (sending e) s = (s.failure ≡ some e) × (s.buffer ≡ none)
Sent closing s =
    (s.failure ≡ none → is_shut s.phase ≡ true) × (is_back s.phase ≡ false → s.buffer ≡ s.failure)
Sent closed s =
    (s.failure ≡ none → is_shut s.phase ≡ true) × (is_back s.phase ≡ false → s.buffer ≡ s.failure)

-- What has happened before each phase.
abbrev pub Came : Phase → Serving → Type 0
Came selecting s = s.shutdown_failure ≡ none
Came shutting_down s = (s.signalled ≡ true) × (s.shutdown_failure ≡ none)
Came receiving s = (s.signalled ≡ true) × (s.shutdown_failure ≡ none)
Came (returned (ok a)) s =
    (s.signalled ≡ true) × (s.listener ≡ closed) × (s.failure ≡ none) × (s.shutdown_failure ≡ none)
Came (returned (err e)) s =
    (s.failure ≡ some e)
    ⊎ ((x : Error) × (s.shutdown_failure ≡ some x) × (e ≡ wrap (codes "shutdown") x))

-- A value in the channel is the error of the server, while `serveGraceful` is not back.
buffer_is_failure :
    (l : Listener) (s : Serving) (e : Error)
    → Sent l s
    → is_back s.phase ≡ false
    → s.buffer ≡ some e
    → s.failure ≡ some e
buffer_is_failure listening s e h away full = absurd (ground (arith, h, full))
buffer_is_failure (sending x) s e h away full = absurd (ground (arith, h, full))
buffer_is_failure closing s e h away full = ground (arith, h, away, full)
buffer_is_failure closed s e h away full = ground (arith, h, away, full)

record Inv (s : Serving) : Type 0 where
  sent : Sent s.listener s
  came : Came s.phase s

-- The phase stays as it is, and so does what came before it.
Came-mono :
    (ph : Phase) (s t : Serving)
    → (s.signalled ≡ true → t.signalled ≡ true)
    → t.shutdown_failure ≡ s.shutdown_failure
    → (s.listener ≡ closed → t.listener ≡ closed)
    → (t.failure ≡ s.failure) ⊎ ((s.failure ≡ none) × (s.listener ≡ listening))
    → Came ph s
    → Came ph t
Came-mono selecting s t told same ended kept h = ground (arith, same, h)
Came-mono shutting_down s t told same ended kept h = ground (arith, told, same, h)
Came-mono receiving s t told same ended kept h = ground (arith, told, same, h)
Came-mono (returned (ok a)) s t told same ended kept h = ground (arith, told, same, ended, kept, h)
Came-mono (returned (err e)) s t told same ended (inl kept) (inl h) = inl (ground (arith, kept, h))
Came-mono (returned (err e)) s t told same ended (inr fresh) (inl h) =
    absurd (ground (arith, fresh, h))
Came-mono (returned (err e)) s t told same ended kept (inr (x, h, j)) =
    inr (x, ground (arith, same, h), j)

-- The first goroutine stands where it stood.
Sent-mono :
    (l : Listener) (s t : Serving)
    → t.failure ≡ s.failure
    → (t.buffer ≡ s.buffer) ⊎ ((t.buffer ≡ none) × (is_back t.phase ≡ true))
    → (is_shut s.phase ≡ true → is_shut t.phase ≡ true)
    → (is_back s.phase ≡ true → is_back t.phase ≡ true)
    → Sent l s
    → Sent l t
Sent-mono listening s t same buffer down back h = ground (arith, same, buffer, h)
Sent-mono (sending e) s t same buffer down back h = ground (arith, same, buffer, h)
Sent-mono closing s t same buffer down back h = ground (arith, same, buffer, down, back, h)
Sent-mono closed s t same buffer down back h = ground (arith, same, buffer, down, back, h)

Sent-at : {s : Serving} {l : Listener} → s.listener ≡ l → Inv s → Sent l s
Sent-at {s} at inv = subst (λ (l : Listener). Sent l s) at inv.sent

Came-at : {s : Serving} {ph : Phase} → s.phase ≡ ph → Inv s → Came ph s
Came-at {s} at inv = subst (λ (ph : Phase). Came ph s) at inv.came

ServeStep-Inv : {s t : Serving} → ServeStep s t → Inv s → Inv t
ServeStep-Inv {s} (shut at down) inv = record {
  sent = ground (arith, down, Sent-at at inv);
  came =
      Came-mono s.phase s (record s { listener = closing }) (λ h. h) refl
        (λ h. ground (arith, h, at)) (inl refl) inv.came;
}
ServeStep-Inv {s} (sends e at empty) inv = record {
  sent = ground (arith, Sent-at at inv);
  came =
      Came-mono s.phase s (record s { listener = closing; buffer = some e }) (λ h. h) refl
        (λ h. ground (arith, h, at)) (inl refl) inv.came;
}
ServeStep-Inv {s} (closes at) inv = record {
  sent = Sent-at at inv;
  came =
      Came-mono s.phase s (record s { listener = closed }) (λ h. h) refl (λ h. refl) (inl refl)
        inv.came;
}
ServeStep-Inv {s} (selects_error e at full) inv = record {
  sent =
      Sent-mono s.listener s (record s { phase = returned (err e); buffer = none }) refl
        (inr (refl, refl)) (λ h. refl) (λ h. refl) inv.sent;
  came = inl (buffer_is_failure s.listener s e inv.sent (ground (arith, at)) full);
}
ServeStep-Inv {s} (selects_closed at empty done) inv =
    absurd (ground (arith, Sent-at done inv, at, empty))
ServeStep-Inv {s} (selects_stop at told) inv = record {
  sent =
      Sent-mono s.listener s (record s { phase = shutting_down }) refl (inl refl) (λ h. refl)
        (λ h. ground (arith, h, at)) inv.sent;
  came = (told, Came-at at inv);
}
ServeStep-Inv {s} (shuts_down at) inv = record {
  sent =
      Sent-mono s.listener s (record s { phase = receiving }) refl (inl refl) (λ h. refl)
        (λ h. ground (arith, h, at)) inv.sent;
  came = Came-at at inv;
}
ServeStep-Inv {s} (shutdown_fails e at) inv = record {
  sent =
      Sent-mono s.listener s
        (record s { phase = returned (err (wrap (codes "shutdown") e)); shutdown_failure = some e })
        refl (inl refl) (λ h. refl) (λ h. refl) inv.sent;
  came = inr (e, refl, refl);
}
ServeStep-Inv {s} (receives_error e at full) inv = record {
  sent =
      Sent-mono s.listener s (record s { phase = returned (err e); buffer = none }) refl
        (inr (refl, refl)) (λ h. refl) (λ h. refl) inv.sent;
  came = inl (buffer_is_failure s.listener s e inv.sent (ground (arith, at)) full);
}
ServeStep-Inv {s} (receives_closed at empty done) inv = record {
  sent =
      Sent-mono s.listener s (record s { phase = returned (ok tt) }) refl (inl refl) (λ h. refl)
        (λ h. refl) inv.sent;
  came = ground (arith, Came-at at inv, Sent-at done inv, at, empty, done);
}

SystemStep-Inv : {s t : Serving} → SystemStep s t → Inv s → Inv t
SystemStep-Inv {s} (fails e at) inv = record {
  sent = ground (arith, Sent-at at inv);
  came =
      Came-mono s.phase s (record s { listener = sending e; failure = some e }) (λ h. h) refl
        (λ h. ground (arith, h, at)) (inr ((Sent-at at inv).0, at)) inv.came;
}
SystemStep-Inv {s} (signals new) inv = record {
  sent =
      Sent-mono s.listener s (record s { signalled = true }) refl (inl refl) (λ h. h) (λ h. h)
        inv.sent;
  came =
      Came-mono s.phase s (record s { signalled = true }) (λ h. refl) refl (λ h. h) (inl refl)
        inv.came;
}

serve_start-Inv : Inv serve_start
unfolding serve_start
serve_start-Inv = record { sent = (refl, refl); came = refl }

ServeRun-Inv : {s : Serving} {n : ℕ} {t : Serving} → ServeRun s n t → Inv s → Inv t
ServeRun-Inv halt inv = inv
ServeRun-Inv (more r st) inv = ServeStep-Inv st (ServeRun-Inv r inv)
ServeRun-Inv (meets r st) inv = SystemStep-Inv st (ServeRun-Inv r inv)

-- The server serves, and no signal has come.
abbrev pub IsIdle : Serving → Type 0
IsIdle s = (s.listener ≡ listening) × (s.phase ≡ selecting) × (s.signalled ≡ false)

abbrev pub IsReturned : Serving → Type 0
IsReturned s = (r : Result (Unit {0})) × (s.phase ≡ returned r)

abbrev Goes : Serving → Type 0
Goes s = IsReturned s ⊎ IsIdle s ⊎ ((t : Serving) × ServeStep s t)

module _ (s : Serving) where
  listening-Goes : (ph : Phase) → s.listener ≡ listening → s.phase ≡ ph → Goes s
  listening-Goes selecting at e = elim (Bool-cases s.signalled) [
    | inl told ↦ inr (inr (_, selects_stop e told))
    | inr quiet ↦ inr (inl (at, e, quiet))
  ]
  listening-Goes shutting_down at e = inr (inr (_, shuts_down e))
  listening-Goes receiving at e = inr (inr (_, shut at (ground (arith, e))))
  listening-Goes (returned r) at e = inl (r, e)

  closed-Goes : (ph : Phase) → s.listener ≡ closed → s.phase ≡ ph → Goes s
  closed-Goes selecting at e = elim (Option-cases s.buffer) [
    | inl empty ↦ inr (inr (_, selects_closed e empty at))
    | inr (x, full) ↦ inr (inr (_, selects_error x e full))
  ]
  closed-Goes shutting_down at e = inr (inr (_, shuts_down e))
  closed-Goes receiving at e = elim (Option-cases s.buffer) [
    | inl empty ↦ inr (inr (_, receives_closed e empty at))
    | inr (x, full) ↦ inr (inr (_, receives_error x e full))
  ]
  closed-Goes (returned r) at e = inl (r, e)

  any-Goes : (l : Listener) → s.listener ≡ l → Sent l s → Goes s
  any-Goes listening at sent = listening-Goes s.phase at refl
  any-Goes (sending e) at sent = inr (inr (_, sends e at sent.1))
  any-Goes closing at sent = inr (inr (_, closes at))
  any-Goes closed at sent = closed-Goes s.phase at refl

-- In whatever order its goroutines and the system take their steps, there are at most seven of
-- them; and where none of the goroutines' own steps is left, `serveGraceful` is back, unless the
-- server still serves and no signal has come. A failing server and a signal are no steps of the
-- goroutines; the return of `Shutdown`, and that of `ListenAndServe` after it, are.
pub serve_graceful_returns :
    {n : ℕ} {s : Serving}
    → ServeRun serve_start n s
    → (n ≤ 7) × (IsReturned s ⊎ IsIdle s ⊎ ((t : Serving) × ServeStep s t))
unfolding serve_start
serve_graceful_returns {n} {s} r = (
  omega (arith, ServeRun-work r),
  any-Goes s s.listener refl (ServeRun-Inv r serve_start-Inv).sent,
)

-- `serveGraceful` comes back without an error only after a signal, with the server down, and if
-- neither the server nor its shutdown failed; an error that it comes back with is the server's, or
-- the shutdown's, wrapped.
pub serve_graceful_result :
    {n : ℕ} {s : Serving} (r : Result (Unit {0}))
    → ServeRun serve_start n s
    → s.phase ≡ returned r
    → Came (returned r) s
serve_graceful_result r run at = Came-at at (ServeRun-Inv run serve_start-Inv)
