-- ===== src/ReportLog.antt =====
-- internal/reportlog/reportlog.go: the log of matches that were only reported.
pub mod Frame
use nexguard.Prelude.{ℕ, ◌++◌, ◌∷◌, [], Option, none, some}
use nexguard.Prelude.Text.{Text, codes}
use nexguard.Exec.{Error, refused, wrap, Exec, pure, raise, wrapping, ◌>>=◌, ◌>>◌}
use nexguard.World.{World, Platform}
use nexguard.Files.{mkdir_all, open_append, append_text}

pub record Entry : Type 0 where
  pub path : Text
  pub hash : Text
  pub name : Text
  pub reported_at : ℕ

unfoldable pub encoded : Option Text → Exec World Text
encoded none = raise (wrap (codes "encoding report entry") refused)
encoded (some line) = pure line

module _ (p : Platform) where
  unfoldable pub append : Text → Entry → Exec World Unit
  unfolding encoded
  append log e = do
    wrapping (codes "creating log dir") (mkdir_all (p.parent log))
    wrapping (codes "opening report log") (open_append log)
    line ← encoded (p.marshal_report e.path e.hash e.name e.reported_at)
    wrapping (codes "writing report entry") (append_text log (line ++ b'\n' ∷ []))
