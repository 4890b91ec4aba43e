-- ===== src/Watcher/Coverage.antt =====
-- internal/watcher/watcher.go loses no change and calls the handler for nothing else.
use nexguard.Prelude.{All-map, ℕ, ◌≤◌, ◌≡◌, true, ◌||◌, All}
use nexguard.Prelude.Text.{Text}
use nexguard.Watcher.Defs.{Timer, Watch, start, Reach}
use nexguard.Watcher.Timers.{happened, timed, called}
use nexguard.Watcher.Invariant.{IsDue, Known, start-Inv, Reach-Inv}

-- Whatever happens and in whatever order, after each event of a path there is a timer for the path
-- that was started at the event or later, or the handler has been called for the path by such a
-- timer: no change is lost.
pub no_event_lost :
    (now : ℕ) {w : Watch} (p : Text) (e : ℕ)
    → Reach (start now) w
    → happened p e w.events ≡ true
    → timed p e w.timers || called p e w.calls ≡ true
no_event_lost now p e r h = (Reach-Inv r (start-Inv now)).covered p e h

-- The handler is called only for a path of which there was an event, and at least 300 ms after it.
pub calls-IsDue : (now : ℕ) {w : Watch} → Reach (start now) w → All (IsDue w.events) w.calls
calls-IsDue now r = (Reach-Inv r (start-Inv now)).calls

pub timers-past :
    (now : ℕ) {w : Watch} → Reach (start now) w → All (λ (t : Timer). t.started ≤ w.now) w.timers
timers-past now {w} r =
    All-map (Known w) (λ (t : Timer). t.started ≤ w.now) w.timers (λ t k. k.past)
      (Reach-Inv r (start-Inv now)).timers
