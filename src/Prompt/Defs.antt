-- ===== src/Prompt/Defs.antt =====
-- internal/prompt/prompt.go: `Resolve`.
use nexguard.Prelude.{Bool, ◌||◌, ◌++◌, [], ◌∷◌, map, if◌then◌else◌, ◌==◌}
use nexguard.Prelude.Lists.{take, drop}
use nexguard.Prelude.Text.{Text, codes, text_eq, is_empty, trim_space}
use nexguard.Exec.{refused, errorf, wrap, Exec, pure, raise, gets, wrapping, ok, ◌>>=◌, ◌>>◌}
use nexguard.World.{World, Platform, Outcome, works, fails, outcome, print}
use nexguard.Files.{remove_file}
use nexguard.ReportLog
use nexguard.Scanner.{Match}
use nexguard.Quarantine.{quarantine}

pub data Action : Type 0 where
  to_quarantine to_delete to_ignore to_report : Action

-- The constants of type `Action`.
unfoldable pub action_text : Action → Text
action_text to_quarantine = codes "quarantine"
action_text to_delete = codes "delete"
action_text to_ignore = codes "ignore"
action_text to_report = codes "report"

-- How `ReadString` ended: at the delimiter, at the end of the input, or by another error.
pub data ReadEnd : Type 0 where
  delimiter at_eof failed : ReadEnd

pub record Line : Type 0 where
  pub text : Text
  pub ending : ReadEnd

-- The input up to its first line feed, with it, and the rest.
unfoldable pub line_of : Text → Text
line_of [] = []
line_of (c ∷ s) = let more = line_of s in if c == b'\n' then c ∷ [] else c ∷ more

unfoldable pub rest_of : Text → Text
rest_of [] = []
rest_of (c ∷ s) = let more = rest_of s in if c == b'\n' then s else more

unfoldable pub ends_line : Text → ReadEnd
ends_line [] = at_eof
ends_line (c ∷ s) = let more = ends_line s in if c == b'\n' then delimiter else more

unfoldable pub read_some : Outcome → Exec World Line
unfolding line_of rest_of ends_line
read_some works = λ w. (
  ok (record { text = line_of w.stdin; ending = ends_line w.stdin }),
  record w { stdin = rest_of w.stdin },
)
read_some (fails n) = λ w. (
  ok (record { text = take n (line_of w.stdin); ending = failed }),
  record w { stdin = drop n w.stdin },
)

-- `d.In.ReadString('\n')`
unfoldable pub read_string : Exec World Line
unfolding read_some
read_string = do o ← outcome; read_some o

pub record Deps : Type 0 where
  pub quarantine_dir : Text
  pub report_log_path : Text

unfoldable pub confirmed : Text → Bool
confirmed t = text_eq t (codes "y") || text_eq t (codes "yes")

unfoldable pub delete_file : Match → Exec World Action
delete_file m = do wrapping (codes "deleting") (remove_file m.path); pure to_delete

unfoldable pub cancel_delete : Exec World Action
cancel_delete = do print (codes "delete cancelled"); pure to_ignore

unfoldable pub warn : Text → Exec World Unit
warn choice =
    if is_empty choice || text_eq choice (codes "r") || text_eq choice (codes "report")
    then pure tt
    else print (codes "unrecognized choice, treating as report-only")

unfoldable pub prompt_text : Match → Text
prompt_text m =
    codes "MATCH: "
    ++ (m.path
        ++ (codes "\n  hash:   "
            ++ (m.hash
                ++ (codes "\n  known:  "
                    ++ (m.entry.name
                        ++ (codes "\n  source: "
                            ++ (m.entry.source
                                ++ codes
                                    "\n\n[q]uarantine  [d]elete  [i]gnore  [r]eport-only: ")))))))

module _ (p : Platform) where
  -- `strings.ToLower(strings.TrimSpace(line))`
  unfoldable pub choice_of : Text → Text
  choice_of line = map p.lower (trim_space line)

  unfoldable pub choose_quarantine : Deps → Match → Exec World Action
  choose_quarantine d m = do quarantine p d.quarantine_dir m.path m.hash; pure to_quarantine

  unfoldable pub choose_delete : Match → Exec World Action
  unfolding delete_file cancel_delete confirmed
  choose_delete m = do
    print (codes "Permanently delete " ++ m.path ++ codes "? This cannot be undone. [y/N]: ")
    confirm_line ← read_string
    if confirmed (choice_of confirm_line.text) then delete_file m else cancel_delete

  unfoldable pub choose_report : Deps → Match → Text → Exec World Action
  unfolding warn
  choose_report d m choice = do
    warn choice
    now ← gets (λ w. w.now)
    ReportLog.append p d.report_log_path
        (record { path = m.path; hash = m.hash; name = m.entry.name; reported_at = now })
    pure to_report

  unfoldable pub act : Deps → Match → Text → Exec World Action
  unfolding choose_quarantine choose_delete choose_report
  act d m choice =
      if text_eq choice (codes "q") || text_eq choice (codes "quarantine")
      then choose_quarantine d m
      else if text_eq choice (codes "d") || text_eq choice (codes "delete")
      then choose_delete m
      else if text_eq choice (codes "i") || text_eq choice (codes "ignore")
      then pure to_ignore
      else choose_report d m choice

  unfoldable pub answered : Deps → Match → Text → ReadEnd → Exec World Action
  unfolding act
  answered d m line failed = raise (wrap (codes "reading choice") refused)
  answered d m line at_eof =
      if is_empty (trim_space line)
      then raise (errorf (codes "no input available to resolve " ++ m.path))
      else act d m (choice_of line)
  answered d m line delimiter = act d m (choice_of line)

  unfoldable pub resolve : Deps → Match → Exec World Action
  unfolding answered read_string choice_of
  resolve d m = do print (prompt_text m); line ← read_string; answered d m line.text line.ending
