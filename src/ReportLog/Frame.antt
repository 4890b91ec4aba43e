-- ===== src/ReportLog/Frame.antt =====
-- What `Append` of internal/reportlog/reportlog.go leaves alone.
use nexguard.Prelude.{◌≢◌, All, arith, Option, none, some}
use nexguard.Prelude.Text.{Text, text_eq_iff}
use nexguard.Exec.Fixes.{Fixes, fixes_rules}
use nexguard.World.{World, Node, Platform}
use nexguard.Files.{with_parents, mkdir_all, open_append, append_text}
use nexguard.Files.Frame.{beside_files, file_frames, mkdir_all-elsewhere}
use nexguard.ReportLog.{Entry, encoded, append}

module _ (p : Platform) (log path : Text)
    (off_dir : All (λ d. d ≢ path) (with_parents (p.parent log))) (off_log : log ≢ path) where
  abbrev at_path : World → Option Node
  at_path w = w.files path

  mkdir_all-keeps : Fixes at_path (mkdir_all (p.parent log))
  mkdir_all-keeps = mkdir_all-elsewhere (p.parent log) path off_dir

  open_append-keeps : Fixes at_path (open_append log)
  unfolding open_append
  open_append-keeps = record { at = λ w. ground (arith, text_eq_iff log path) }

  append_text-keeps : (t : Text) → Fixes at_path (append_text log t)
  unfolding append_text
  append_text-keeps t = record { at = λ w. ground (arith, text_eq_iff log path) }

  encoded-keeps : (o : Option Text) → Fixes at_path (encoded o)
  unfolding encoded
  encoded-keeps none = search fixes_rules
  encoded-keeps (some t) = search fixes_rules

  -- Only the log, its directory and those above can change.
  pub append-elsewhere : (e : Entry) → Fixes at_path (append p log e)
  unfolding append
  append-elsewhere e =
      search (fixes_rules, mkdir_all-keeps, open_append-keeps, append_text-keeps, encoded-keeps)

encoded-Fixes : (o : Option Text) → Fixes beside_files (encoded o)
unfolding encoded
encoded-Fixes none = search fixes_rules
encoded-Fixes (some t) = search fixes_rules

pub append-Fixes : (p : Platform) (log : Text) (e : Entry) → Fixes beside_files (append p log e)
unfolding append
append-Fixes p log e = search (fixes_rules, file_frames, encoded-Fixes)
