-- ===== src/Config.antt =====
-- internal/config/config.go: where the scanner keeps its files, from the path of the user's
-- configuration directory.
use nexguard.Prelude.Text.{Text, codes}
use nexguard.Exec.{Result, ok, err}
use nexguard.World.{Platform}

-- `user_config_dir` is the answer of `os.UserConfigDir`.
module _ (p : Platform) (user_config_dir : Result Text) where
  abbrev under : Result Text → Text → Result Text
  under (ok dir) name = ok (p.join dir name)
  under (err e) name = err e

  unfoldable pub app_dir : Result Text
  app_dir = under user_config_dir (codes "avtool")

  unfoldable pub db_path : Result Text
  unfolding app_dir
  db_path = under app_dir (codes "avtool.db")

  unfoldable pub quarantine_dir : Result Text
  unfolding app_dir
  quarantine_dir = under app_dir (codes "quarantine")

  unfoldable pub report_log_path : Result Text
  unfolding app_dir
  report_log_path = under app_dir (codes "detections.log")
