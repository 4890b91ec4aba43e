-- ===== src/World.antt =====
-- What the scanner's commands run in: the database, the files, standard input and output, the
-- clock, and the failures that the system will report.
use nexguard.Prelude.{ℕ, Option, List, [], ◌∷◌, ◌++◌}
use nexguard.Prelude.Text.{Text}
use nexguard.Exec.{refused, Exec, ok, pure, raise, ◌>>=◌, ◌>>◌}
use nexguard.Store.{Db}

pub record File : Type 0 where
  pub content : Text
  pub mode : ℕ

-- What `os.Lstat` tells apart.
pub data Node : Type 0 where
  regular : File → Node
  directory symlink special : Node

-- The outcome of one call of the operating system or of the database driver. A read or a write
-- that fails has moved some bytes before.
pub data Outcome : Type 0 where
  works : Outcome
  fails : ℕ → Outcome

pub record World : Type 0 where
  pub db : Db
  pub files : Text → Option Node
  pub stdin : Text
  pub out : List Text
  pub now : ℕ
  pub outcomes : List Outcome

-- A call for which no outcome is left works.
unfoldable pub next_outcome : List Outcome → Outcome
next_outcome [] = works
next_outcome (o ∷ os) = o

unfoldable pub later_outcomes : List Outcome → List Outcome
later_outcomes [] = []
later_outcomes (o ∷ os) = os

abbrev pub outcome : Exec World Outcome
outcome w = (ok (next_outcome w.outcomes), record w { outcomes = later_outcomes w.outcomes })

abbrev refuse_if : Outcome → Exec World Unit
refuse_if works = pure tt
refuse_if (fails n) = raise refused

-- One call that the system may refuse without an effect.
abbrev pub call : Exec World Unit
call = do o ← outcome; refuse_if o

-- `db.Query`, `db.QueryRow`: a SELECT.
abbrev pub query : {A : Type 0} → (Db → A) → Exec World A
query f = do call; λ w. (ok (f w.db), w)

-- `db.Exec`: a statement that changes the tables, or fails and changes nothing.
abbrev pub exec : (Db → Db) → Exec World Unit
exec f = do call; λ w. (ok tt, record w { db = f w.db })

-- `fmt.Fprintf` to the command's output; its error is ignored everywhere.
abbrev pub print : Text → Exec World Unit
print line w = (ok tt, record w { out = w.out ++ line ∷ [] })

-- What the program takes from Go's standard library without looking inside.
pub record Platform : Type 0 where
  -- `unicode.ToLower`
  pub lower : ℕ → ℕ
  -- the SHA-256 of the bytes, in hexadecimal
  pub sha256_hex : Text → Text
  -- `t.UTC().Format(time.RFC3339)` and `time.Parse(time.RFC3339, s)`, over Unix seconds
  pub format_time : ℕ → Text
  pub parse_time : Text → Option ℕ
  -- `filepath.Join` of a directory and a name, `filepath.Dir`
  pub join : Text → Text → Text
  pub parent : Text → Text
  -- `json.Marshal` of a `reportlog.Entry`: path, hash, name and time
  pub marshal_report : Text → Text → Text → ℕ → Option Text

-- All of the world but the outcomes that are still to come.
abbrev pub Settled : Type 0
Settled = Db × (Text → Option Node) × Text × List Text × ℕ

abbrev pub settled : World → Settled
settled w = (w.db, w.files, w.stdin, w.out, w.now)
