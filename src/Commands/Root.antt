-- ===== src/Commands/Root.antt =====
-- cmd/avtool/main.go: what runs before each command, and `version`; and `Open` of
-- internal/store/store.go.
use nexguard.Prelude.{◌++◌, if◌then◌else◌}
use nexguard.Prelude.Text.{Text, codes, is_empty}
use nexguard.Exec.{Exec, Result, ok, err, raise, wrapping, ◌>>◌}
use nexguard.World.{World, Platform, call, print}
use nexguard.Files.{mkdir_all}

-- `sql.Open`, and the schema, which keeps the tables that are there.
unfoldable pub open_store : Exec World Unit
open_store = do wrapping (codes "opening db") call; wrapping (codes "applying schema") call

-- `dbPathFlag` is empty if the flag is not given; `db_path` is the answer of `config.DBPath`.
unfoldable pub path_or_default : Text → Result Text → Result Text
path_or_default flag db_path = if is_empty flag then db_path else ok flag

unfoldable pub open_at : Platform → Result Text → Exec World Unit
unfolding open_store
open_at p (err e) = raise e
open_at p (ok path) = do
  wrapping (codes "creating db directory") (mkdir_all (p.parent path))
  open_store

unfoldable pub before_command : Platform → Text → Result Text → Exec World Unit
unfolding path_or_default open_at
before_command p flag db_path = open_at p (path_or_default flag db_path)

-- `version` is set when the program is built.
unfoldable pub print_version : Text → Exec World Unit
print_version version = print (codes "avtool " ++ version)
