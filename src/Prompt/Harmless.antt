-- ===== src/Prompt/Harmless.antt =====
-- Answers to internal/prompt/prompt.go's question that ask for no change.
use nexguard.Files.{with_parents}
use nexguard.Prelude.{All, ◌≡◌, ◌≢◌, refl, false, ◌++◌, ◌∷◌, [], arith, Option}
use nexguard.Prelude.Text.{Text, codes}
use nexguard.Exec.Fixes.{Fixes, fixes_rules}
use nexguard.Store.{Db}
use nexguard.World.{World, Node, Platform, print, later_outcomes}
use nexguard.ReportLog
use nexguard.ReportLog.Frame.{append-elsewhere, append-Fixes}
use nexguard.Scanner.{Match}
use nexguard.Prompt.Defs.{Deps, rest_of, warn, prompt_text, choose_report, act, resolve}
use nexguard.Prompt.Choices.{is_word, first}

abbrev tables_and : Text → World → Db × Option Node
tables_and path w = (w.db, w.files path)

module _ (p : Platform) (d : Deps) (m : Match) (path : Text)
    (off_dir : All (λ dir. dir ≢ path) (with_parents (p.parent d.report_log_path)))
    (off_log : d.report_log_path ≢ path) where
  append-harmless :
      (e : ReportLog.Entry) → Fixes (tables_and path) (ReportLog.append p d.report_log_path e)
  append-harmless e = record {
    at = λ w. ground (
      arith,
      (append-elsewhere p d.report_log_path path off_dir off_log e).at w,
      (append-Fixes p d.report_log_path e).at w,
    );
  }

  print-harmless : (t : Text) → Fixes (tables_and path) (print t)
  print-harmless t = record { at = λ w. refl }

  warn-harmless : (t : Text) → Fixes (tables_and path) (warn t)
  unfolding warn
  warn-harmless t = search (fixes_rules, print-harmless)

  choose_report-harmless : (choice : Text) → Fixes (tables_and path) (choose_report p d m choice)
  unfolding choose_report
  choose_report-harmless choice = search (fixes_rules, warn-harmless, append-harmless)

  act-harmless :
      (choice : Text)
      → is_word choice (codes "q") (codes "quarantine") ≡ false
      → is_word choice (codes "d") (codes "delete") ≡ false
      → Fixes (tables_and path) (act p d m choice)
  unfolding act
  act-harmless choice not_quarantine not_delete = record {
    at = λ w. ground (arith, (choose_report-harmless choice).at w);
  }

  -- An answer that asks for neither a quarantine nor a deletion changes no table, and no file
  -- at a path other than the report log, its directory and the directories above that one, whatever
  -- else fails.
  pub resolve_harmless :
      (w : World)
      → is_word (first p d m w) (codes "q") (codes "quarantine") ≡ false
      → is_word (first p d m w) (codes "d") (codes "delete") ≡ false
      → ((resolve p d m w).1.db ≡ w.db) × ((resolve p d m w).1.files path ≡ w.files path)
  unfolding resolve
  resolve_harmless w not_quarantine not_delete = ground (
    arith,
    (act-harmless (first p d m w) not_quarantine not_delete).at (record w {
      outcomes = later_outcomes w.outcomes;
      stdin = rest_of w.stdin;
      out = w.out ++ prompt_text m ∷ [];
    }),
  )
