-- ===== src/Commands/Scan.antt =====
-- cmd/avtool/scan.go: `runScan`.
use nexguard.Prelude.{◌≡◌, ap, arith, List, [], ◌∷◌, ◌++◌}
use nexguard.Prelude.Text.{codes}
use nexguard.Exec.{Exec, Result, ok, err, pure, attempt, wrapping, ◌>>=◌, ◌>>◌}
use nexguard.World.{World, Platform, Settled, print}
use nexguard.Scanner.{Match, Visit, scan}
use nexguard.Scanner.Matches.{expected_all, scan_complete, scan-Fixes}
use nexguard.Prompt.{Action, action_text, Deps}
use nexguard.Prompt
use nexguard.Review.{with_deps}

-- `resolving %s: ...` goes to standard error, and the loop goes on.
unfoldable pub report_action : Match → Result Action → Exec World Unit
report_action m (err e) = pure tt
report_action m (ok a) = print (m.path ++ (codes ": " ++ action_text a))

module _ (p : Platform) where
  unfoldable pub resolve_all : Deps → List Match → Exec World Unit
  unfolding report_action
  resolve_all deps [] = pure tt
  resolve_all deps (m ∷ ms) = do
    answer ← attempt (Prompt.resolve p deps m)
    report_action m answer
    resolve_all deps ms

  -- `getQuarantineDir` and `config.ReportLogPath` are asked only if something matched.
  unfoldable pub scanned_matches : Result Deps → List Match → Exec World Unit
  unfolding resolve_all with_deps
  scanned_matches dirs [] = print (codes "no matches")
  scanned_matches dirs (m ∷ ms) = with_deps dirs (λ deps. resolve_all deps (m ∷ ms))

  -- `visits` are the calls of `filepath.Walk` under the argument.
  unfoldable pub run_scan : Result Deps → List Visit → Exec World Unit
  unfolding scanned_matches
  run_scan dirs visits = do
    ms ← wrapping (codes "scanning") (scan p visits)
    scanned_matches dirs ms

  -- A scan under which no file matches says so and changes no table and no file and reads no
  -- input, whatever directories are configured, if the system refuses nothing.
  run_scan_clean :
      (dirs : Result Deps) (visits : List Visit) (w : World)
      → w.outcomes ≡ []
      → expected_all p w.db w.files visits ≡ []
      → let (r, w') = run_scan dirs visits w in
        (r ≡ ok tt)
        × (w'.out ≡ w.out ++ codes "no matches" ∷ [])
        × (w'.db ≡ w.db)
        × (w'.files ≡ w.files)
        × (w'.stdin ≡ w.stdin)
  unfolding run_scan
  run_scan_clean dirs visits w quiet clean =
      let same = (scan-Fixes p visits).at w in
      ground (
        arith,
        scan_complete p visits w quiet,
        ap (λ (t : Settled). t.0) same,
        ap (λ (t : Settled). t.1) same,
        ap (λ (t : Settled). t.2) same,
        ap (λ (t : Settled). t.3) same,
      )
