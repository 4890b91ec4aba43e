-- ===== src/Tests/Watching.antt =====
-- Witnesses for the watcher's loop: one file is written, and the handler is called for it.
use nexguard.Prelude.{◌≡◌, refl, true, false, ◌||◌, [], ◌∷◌, ◌+◌, All, arith}
use nexguard.Prelude.Text.{Text, codes, text_eq}
use nexguard.Watcher.{
  debounce, Timer, Watch, start, on_event, on_fire, stop_pending, event, tick, expire, fire, Reach,
  here, next,
}
use nexguard.Watcher.Timers.{timed, called}
use nexguard.Watcher.Invariant.{IsDue}
use nexguard.Watcher.Coverage.{no_event_lost, calls-IsDue}

abbrev path : Text
path = codes "f"

abbrev written : Watch
written = on_event path (start 0)

abbrev waited : Watch
waited = record written { now = written.now + debounce }

abbrev timer : Timer
timer = record { id = 1; path = path; started = 0; expired = false }

abbrev late : Timer
late = record timer { expired = true }

abbrev expired : Watch
expired = record waited { timers = late ∷ [] }

abbrev handled : Watch
handled = on_fire late [] expired

until_written : Reach (start 0) written
until_written = next here (event path)

until_handled : Reach (start 0) handled
unfolding on_event start stop_pending
until_handled =
    next (next (next until_written (tick debounce)) (expire [] [] timer refl (omega arith)))
      (fire [] [] late refl refl)

no_event_lost_example : timed path 0 handled.timers || called path 0 handled.calls ≡ true
unfolding on_event on_fire text_eq start
no_event_lost_example = no_event_lost 0 path 0 until_handled refl

calls-IsDue_example : All (IsDue handled.events) handled.calls
calls-IsDue_example = calls-IsDue 0 until_handled
