-- ===== src/Watcher/Defs.antt =====
-- internal/watcher/watcher.go: the loop of `Watch`, as steps. The timers of `time.AfterFunc` run
-- beside the loop: one that has expired waits until the loop takes its path from the channel
-- `fire`, and `Stop` no longer reaches it.
use nexguard.Prelude.{
  ℕ, suc, ◌+◌, ◌*◌, ◌≤◌, ◌≡◌, Bool, true, false, not, ◌&&◌, List, [], ◌∷◌, ◌++◌, Option, none, some,
  if◌then◌else◌, ◌==◌,
}
use nexguard.Prelude.Text.{Text, codes, text_eq}
use nexguard.Exec.{errorf, wrap, Result, ok, err}

-- 300 ms, in nanoseconds
abbrev pub debounce : ℕ
debounce = 300 * 1000000

-- Its number, the path that it will send, when it was started, and whether it has expired.
pub record Timer : Type 0 where
  pub id : ℕ
  pub path : Text
  pub started : ℕ
  pub expired : Bool

-- A call of `onFile`, and when the timer behind it was started.
pub record Call : Type 0 where
  pub path : Text
  pub started : ℕ
  pub time : ℕ

pub record Watch : Type 0 where
  pub now : ℕ
  -- the map `pending`, to the numbers of timers
  pub pending : Text → Option ℕ
  pub timers : List Timer
  pub last_timer : ℕ
  -- what has happened so far, the latest first
  pub events : List (Text × ℕ)
  pub calls : List Call

unfoldable pub start : ℕ → Watch
start now = record {
  now = now;
  pending = λ path. none;
  timers = [];
  last_timer = 0;
  events = [];
  calls = [];
}

-- The paths that `w.Add` accepts; one that it does not is dropped.
unfoldable pub added : List (Result (Unit {0})) → ℕ
added [] = 0
added (ok a ∷ answers) = suc (added answers)
added (err e ∷ answers) = added answers

-- What `Watch` does before its loop, at a time, with the answer of `fsnotify.NewWatcher` and those of
-- `w.Add` to the given paths.
unfoldable pub begin : Result (Unit {0}) → List (Result (Unit {0})) → ℕ → Result Watch
unfolding added start
begin (err e) answers now = err (wrap (codes "creating watcher") e)
begin (ok a) answers now =
    if added answers == 0
    then err (errorf (codes "failed to watch any of the given path(s)"))
    else ok (start now)

-- `t.Stop()`
unfoldable pub stop : ℕ → List Timer → List Timer
stop id [] = []
stop id (t ∷ timers) =
    let rest = stop id timers in if t.id == id && not t.expired then rest else t ∷ rest

unfoldable pub stop_pending : Option ℕ → List Timer → List Timer
unfolding stop
stop_pending none timers = timers
stop_pending (some id) timers = stop id timers

unfoldable pub set_pending : Text → Option ℕ → (Text → Option ℕ) → Text → Option ℕ
set_pending path id pending p = if text_eq path p then id else pending p

-- A write or a creation of a file.
unfoldable pub on_event : Text → Watch → Watch
unfolding stop_pending set_pending
on_event path w = record w {
  pending = set_pending path (some (suc w.last_timer)) w.pending;
  timers =
      record { id = suc w.last_timer; path = path; started = w.now; expired = false }
      ∷ stop_pending (w.pending path) w.timers;
  last_timer = suc w.last_timer;
  events = (path, w.now) ∷ w.events;
}

-- The loop takes the path of a timer from the channel; the other timers stay.
unfoldable pub on_fire : Timer → List Timer → Watch → Watch
unfolding set_pending
on_fire t others w = record w {
  pending = set_pending t.path none w.pending;
  timers = others;
  calls = record { path = t.path; started = t.started; time = w.now } ∷ w.calls;
}

-- One step: time passes, an event of interest, one that the loop ignores (another operation, or an
-- error of the watcher), a timer that expires, or a path that the loop takes.
pub data Step (w : Watch) : Watch → Type 0 where
  tick : (n : ℕ) → Step w (record w { now = w.now + n })
  event : (path : Text) → Step w (on_event path w)
  ignored : Step w w
  expire :
      (before after : List Timer) (t : Timer)
      → w.timers ≡ before ++ t ∷ after
      → t.started + debounce ≤ w.now
      → Step w (record w { timers = before ++ record t { expired = true } ∷ after })
  fire :
      (before after : List Timer) (t : Timer)
      → w.timers ≡ before ++ t ∷ after
      → t.expired ≡ true
      → Step w (on_fire t (before ++ after) w)

pub data Reach (w : Watch) : Watch → Type 0 where
  here : Reach w w
  next : {v u : Watch} → Reach w v → Step v u → Reach w u
