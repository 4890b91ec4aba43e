-- ===== src/Tests/Live.antt =====
-- Witnesses for the watcher at work: a file that matches is written while it runs.
use nexguard.Prelude.{List, ◌+◌, ◌≡◌, refl, true, false, [], ◌∷◌, arith}
use nexguard.Prelude.Text.{Text, codes, text_eq}
use nexguard.Exec.{not_exist, Result, ok, err}
use nexguard.World.{Node, regular}
use nexguard.Watcher.{debounce, Timer, start, on_event, on_fire, stop_pending}
use nexguard.Commands.Watch.Live.{
  Live, start_live, accepted, write, take_event, take_fire, passes, writes, takes, expires, fires,
  beats, beat, LiveReach, rests, steps,
}
use nexguard.Commands.Watch.Protection.{Owed, settled_matches_wait}
use nexguard.Commands.Watch.Waiting.{IsQueued}
use nexguard.Commands.Watch.Drain.{watch_catches_up}
use nexguard.Tests.Sample.{sample, virus, quiet}

abbrev notify : Text → Text → Result (Unit {0})
notify title message = ok tt

abbrev path : Text
path = codes "/log/new"

abbrev node : Node
node = regular (record { content = virus; mode = 0o644 })

-- The directory of `sample.parent`, and one that fsnotify refuses.
abbrev dirs : List Text
dirs = codes "/log" ∷ codes "/gone" ∷ []

abbrev answers : List (Result (Unit {0}))
answers = ok tt ∷ err not_exist ∷ []

abbrev idle : Live
idle = start_live dirs answers 0 quiet

abbrev written : Live
written = write sample path node idle

abbrev seen : Live
seen = take_event path [] written

abbrev waited : Live
waited = record seen {
  watch = record seen.watch { now = seen.watch.now + debounce };
  world = record seen.world { now = 10 };
}

abbrev timer : Timer
timer = record { id = 1; path = path; started = 0; expired = false }

abbrev late : Timer
late = record timer { expired = true }

abbrev due : Live
due = record waited { watch = record waited.watch { timers = late ∷ [] } }

abbrev told : Live
told = beat (codes "10:00:00") (take_fire sample notify late [] due)

until_written : LiveReach sample notify idle written
until_written = steps rests (writes path node)

until_told : LiveReach sample notify idle told
unfolding write start_live accepted take_event on_event start stop_pending text_eq
until_told =
    steps
      (steps
        (steps (steps (steps until_written (takes path [] refl)) (passes debounce 10))
          (expires [] [] timer refl (omega arith)))
        (fires [] [] late refl refl))
      (beats (codes "10:00:00"))

settled_matches_wait_example : IsQueued sample told.world path
unfolding write start_live accepted take_event take_fire on_fire on_event beat text_eq
settled_matches_wait_example =
    settled_matches_wait sample notify dirs answers 0 quiet path refl until_told refl refl refl refl
      refl

watch_catches_up_example :
    (k : Live) × LiveReach sample notify written k
    × (k.world.files ≡ written.world.files)
    × (k.written ≡ written.written)
    × ((q : Text) → Owed sample written q → IsQueued sample k.world q)
watch_catches_up_example = watch_catches_up sample notify dirs answers 0 quiet refl until_written
