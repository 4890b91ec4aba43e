-- ===== src/Web/Launch/Defs.antt =====
-- cmd/avtool-web/main.go: what `main` does before it serves, and `serveGraceful` as steps of its two
-- goroutines; internal/web/db/db.go. `ListenAndServe` and `Shutdown` are net/http's: the first
-- returns no nil, and `ErrServerClosed` only once the server is being shut down.
use nexguard.Prelude.{ℕ, suc, ◌≡◌, Bool, true, false, ◌++◌, Option, none, some}
use nexguard.Prelude.Text.{Text, codes}
use nexguard.Exec.{Error, wrap, Result, ok, err}
use nexguard.Web.Config.{Config}

-- `Open` of internal/web/db/db.go, over what the driver answers to the parsing of the DSN, the
-- opening and the ping.
unfoldable pub open_db :
    Result (Unit {0}) → Result (Unit {0}) → Result (Unit {0}) → Result (Unit {0})
open_db (err e) opened pinged = err (wrap (codes "parsing dsn") e)
open_db (ok a) (err e) pinged = err (wrap (codes "opening db") e)
open_db (ok a) (ok b) (err e) = err (wrap (codes "connecting to db") e)
open_db (ok a) (ok b) (ok c) = ok tt

-- `log.Fatalf` with its prefix.
unfoldable pub or_fatal : {A : Type 0} → Text → Result A → Result A
or_fatal prefix (ok a) = ok a
or_fatal prefix (err e) = err (wrap prefix e)

abbrev and_then : {A B : Type 0} → Result A → (A → Result B) → Result B
and_then (ok a) f = f a
and_then (err e) f = err e

-- The address that `main` serves on, or the error that ends it before.
unfoldable pub address : Result Config → Result (Unit {0}) → Result (Unit {0}) → Result Text
unfolding or_fatal
address config db templates = and_then (or_fatal (codes "config") config) (λ cfg.
    and_then (or_fatal (codes "db") db) (λ _.
      and_then (or_fatal (codes "templates") templates) (λ _. ok (codes "127.0.0.1:" ++ cfg.port))))

-- The goroutine around `ListenAndServe`: it serves, has an error to send, has the channel to close,
-- or is done.
pub data Listener : Type 0 where
  listening : Listener
  sending : Error → Listener
  closing closed : Listener

-- `serveGraceful` itself: in its `select`, in `Shutdown`, at the last receive, or back.
pub data Phase : Type 0 where
  selecting shutting_down receiving : Phase
  returned : Result (Unit {0}) → Phase

pub record Serving : Type 0 where
  pub listener : Listener
  pub phase : Phase
  -- the value in `errCh`, whose buffer holds one
  pub buffer : Option Error
  -- a signal has come
  pub signalled : Bool
  -- what `ListenAndServe` and `Shutdown` have failed with
  pub failure : Option Error
  pub shutdown_failure : Option Error

unfoldable pub serve_start : Serving
serve_start = record {
  listener = listening;
  phase = selecting;
  buffer = none;
  signalled = false;
  failure = none;
  shutdown_failure = none;
}

-- `srv.Shutdown` has been called, so `ListenAndServe` may return `ErrServerClosed`.
abbrev pub is_shut : Phase → Bool
is_shut selecting = false
is_shut _ = true

-- What comes from outside: `ListenAndServe` fails, or a signal comes.
pub data SystemStep (s : Serving) : Serving → Type 0 where
  fails :
      (e : Error)
      → s.listener ≡ listening
      → SystemStep s (record s { listener = sending e; failure = some e })
  signals : s.signalled ≡ false → SystemStep s (record s { signalled = true })

-- What the two goroutines do, the returns of net/http's calls in a shutdown among it.
pub data ServeStep (s : Serving) : Serving → Type 0 where
  -- the first goroutine
  shut :
      s.listener ≡ listening
      → is_shut s.phase ≡ true
      → ServeStep s (record s { listener = closing })
  sends :
      (e : Error)
      → s.listener ≡ sending e
      → s.buffer ≡ none
      → ServeStep s (record s { listener = closing; buffer = some e })
  closes : s.listener ≡ closing → ServeStep s (record s { listener = closed })
  -- `serveGraceful`
  selects_error :
      (e : Error)
      → s.phase ≡ selecting
      → s.buffer ≡ some e
      → ServeStep s (record s { phase = returned (err e); buffer = none })
  selects_closed :
      s.phase ≡ selecting
      → s.buffer ≡ none
      → s.listener ≡ closed
      → ServeStep s (record s { phase = returned (ok tt) })
  selects_stop :
      s.phase ≡ selecting → s.signalled ≡ true → ServeStep s (record s { phase = shutting_down })
  shuts_down : s.phase ≡ shutting_down → ServeStep s (record s { phase = receiving })
  shutdown_fails :
      (e : Error)
      → s.phase ≡ shutting_down
      → ServeStep s (record s {
        phase = returned (err (wrap (codes "shutdown") e));
        shutdown_failure = some e;
      })
  receives_error :
      (e : Error)
      → s.phase ≡ receiving
      → s.buffer ≡ some e
      → ServeStep s (record s { phase = returned (err e); buffer = none })
  receives_closed :
      s.phase ≡ receiving
      → s.buffer ≡ none
      → s.listener ≡ closed
      → ServeStep s (record s { phase = returned (ok tt) })

-- A number of steps of both kinds, one after another.
pub data ServeRun (s : Serving) : ℕ → Serving → Type 0 where
  halt : ServeRun s 0 s
  more : {n : ℕ} {t u : Serving} → ServeRun s n t → ServeStep t u → ServeRun s (suc n) u
  meets : {n : ℕ} {t u : Serving} → ServeRun s n t → SystemStep t u → ServeRun s (suc n) u
