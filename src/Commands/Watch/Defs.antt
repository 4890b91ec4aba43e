-- ===== src/Commands/Watch/Defs.antt =====
-- cmd/avtool/watch.go: `newFileHandler`, the handler of every file that changes, and its counters.
use nexguard.Prelude.{ℕ, suc, Bool, true, false, length, List, [], ◌∷◌, ◌++◌, Option, none, some}
use nexguard.Prelude.Text.{Text, codes}
use nexguard.Prelude.Text.Decimal.{decimal}
use nexguard.Exec.{
  not_exist, errorf, wrap, raise, Exec, Result, ok, err, pure, attempt, ◌>>=◌, ◌>>◌,
}
use nexguard.World.{World, Platform, print}
use nexguard.Scanner.{Match, scan_file}
use nexguard.Detections.{enqueue}

-- `watchStats`
pub record WatchStats : Type 0 where
  pub scanned : ℕ
  pub matches : ℕ

unfoldable pub record_scan : WatchStats → WatchStats
record_scan s = record s { scanned = suc s.scanned }

unfoldable pub record_match : WatchStats → WatchStats
record_match s = record s { matches = suc s.matches }

-- `notify` is the `Notify` of the notifier: it may fail, and it touches nothing of the world here.
module _ (p : Platform) (notify : Text → Text → Result (Unit {0})) where
  -- The lines on standard error are left out.
  unfoldable pub notified : Result (Unit {0}) → Exec World Unit
  notified r = pure tt

  unfoldable pub queued : Match → Result ℕ → Exec World Unit
  unfolding notified
  queued m (err e) = pure tt
  queued m (ok id) =
      notified
        (notify (codes "avtool: match found") (m.path ++ (codes " matched " ++ m.entry.name)))

  unfoldable pub on_match : Match → Exec World Unit
  unfolding queued
  on_match m = do r ← attempt (enqueue p m); queued m r

  unfoldable pub on_scanned : WatchStats → Result (Option Match) → Exec World WatchStats
  on_scanned stats (err e) = pure stats
  on_scanned stats (ok none) = pure stats
  on_scanned stats (ok (some m)) = do on_match m; pure (record_match stats)

  -- One call of the handler, with the counters before and after.
  unfoldable pub handle_file : WatchStats → Text → Exec World WatchStats
  unfolding on_scanned
  handle_file stats path = do r ← attempt (scan_file p path); on_scanned (record_scan stats) r

  -- The calls that the watcher makes, one after another.
  unfoldable pub handle_files : WatchStats → List Text → Exec World WatchStats
  handle_files stats [] = pure stats
  handle_files stats (path ∷ paths) = do stats' ← handle_file stats path; handle_files stats' paths

-- What is made of `os.Stat`'s answer, which says whether the path is a directory.
unfoldable pub checked_path : Result Bool → Exec World Unit
checked_path (ok true) = pure tt
checked_path (ok false) = raise (errorf (codes "watch path is not a directory"))
checked_path (err not_exist) = raise (errorf (codes "watch path does not exist"))
checked_path (err e) = raise (wrap (codes "watch path") e)

module _ (p : Platform) (notify : Text → Text → Result (Unit {0}))
    (stat : Text → Exec World Bool) where
  unfoldable pub validate_watch_paths : List Text → Exec World Unit
  unfolding checked_path
  validate_watch_paths [] = pure tt
  validate_watch_paths (path ∷ paths) = do
    info ← attempt (stat path)
    checked_path info
    validate_watch_paths paths

  -- `calls` are the paths for which `watcher.Watch` calls the handler; the signals that end it and
  -- the heartbeat are left out.
  unfoldable pub run_watch : List Text → List Text → Exec World WatchStats
  unfolding validate_watch_paths
  run_watch paths calls = do
    validate_watch_paths paths
    print (codes "watching " ++ decimal (length paths) ++ codes " path(s), press Ctrl+C to stop")
    handle_files p notify (record { scanned = 0; matches = 0 }) calls
