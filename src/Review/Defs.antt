-- ===== src/Review/Defs.antt =====
-- cmd/avtool/review.go: `runReview`.
use nexguard.Prelude.{List, [], ◌∷◌, ◌++◌, Option, none, some, if◌then◌else◌}
use nexguard.Prelude.Text.{codes, text_eq}
use nexguard.Exec.{Exec, Result, ok, err, pure, raise, attempt, ◌>>=◌, ◌>>◌}
use nexguard.World.{World, Platform, print}
use nexguard.Scanner.{Match, scan_file}
use nexguard.Detections.{Detection, list_pending}
use nexguard.Detections
use nexguard.Prompt.{Action, action_text, Deps}
use nexguard.Prompt

-- `skipping %s: ...` on standard error, and the detection is closed.
unfoldable pub skip : Detection → Exec World Unit
skip d = Detections.resolve d.id (codes "skipped-stale")

unfoldable pub settle : Detection → Result Action → Exec World Unit
settle d (err e) = pure tt
settle d (ok a) = do
  Detections.resolve d.id (action_text a)
  print (d.path ++ (codes ": " ++ action_text a))

module _ (p : Platform) (deps : Deps) where
  unfoldable pub ask : Detection → Match → Exec World Unit
  unfolding settle
  ask d m = do answer ← attempt (Prompt.resolve p deps m); settle d answer

  unfoldable pub review_fresh : Detection → Result (Option Match) → Exec World Unit
  unfolding skip ask
  review_fresh d (err e) = skip d
  review_fresh d (ok none) = skip d
  review_fresh d (ok (some m)) = if text_eq m.hash d.hash then ask d m else skip d

  -- One round of the loop: the file is scanned again before anything is done to it.
  unfoldable pub review_one : Detection → Exec World Unit
  unfolding review_fresh
  review_one d = do fresh ← attempt (scan_file p d.path); review_fresh d fresh

  unfoldable pub review_all : List Detection → Exec World Unit
  review_all [] = pure tt
  review_all (d ∷ ds) = do review_one d; review_all ds

-- `getQuarantineDir` and `config.ReportLogPath`, which are asked only if something is pending.
unfoldable pub with_deps : Result Deps → (Deps → Exec World Unit) → Exec World Unit
with_deps (ok deps) f = f deps
with_deps (err e) f = raise e

module _ (p : Platform) (dirs : Result Deps) where
  unfoldable pub review_pending : List Detection → Exec World Unit
  unfolding with_deps
  review_pending [] = print (codes "no pending detections")
  review_pending (d ∷ ds) = with_deps dirs (λ deps. review_all p deps (d ∷ ds))

  unfoldable pub run_review : Exec World Unit
  unfolding review_pending
  run_review = do pending ← list_pending p; review_pending pending
