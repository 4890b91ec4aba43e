-- ===== src/Commands/Watch/Counts.antt =====
-- What the heartbeat of cmd/avtool/watch.go tells of the handler's calls.
use nexguard.Commands.Watch.Queue.{labels}
use nexguard.Prelude.{[], ◌+◌, ℕ, ◌≡◌, length}
use nexguard.Prelude.Text.{Text}
use nexguard.Exec.{Result}
use nexguard.World.{World, Platform}
use nexguard.Commands.Watch.Live.{Live}

module _ (p : Platform) (notify : Text → Text → Result (Unit {0})) where
  abbrev IsCounted : ℕ → Live → Type 0
  IsCounted before l =
      (l.stats.scanned ≡ length l.watch.calls)
      × (length (labels l.world) ≡ before + l.stats.matches)
      × (l.world.outcomes ≡ [])
