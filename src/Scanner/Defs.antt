-- ===== src/Scanner/Defs.antt =====
-- internal/scanner/scanner.go: `HashFile`, `ScanFile` and `Scan`.
use nexguard.Prelude.{
  ℕ, ◌*◌, Bool, List, [], ◌∷◌, ◌++◌, Option, none, some, if◌then◌else◌, ltb, length,
}
use nexguard.Prelude.Text.{Text, codes}
use nexguard.Exec.{
  refused, not_exist, Exec, Result, ok, err, pure, raise, attempt, wrapping, ◌>>=◌, ◌>>◌,
}
use nexguard.World.{World, Platform, Node, regular, Outcome, works, fails, outcome, call}
use nexguard.Files.{open_file, content_at}
use nexguard.HashDb.{Entry, lookup}

-- 500MB
abbrev pub max_scan_size : ℕ
max_scan_size = 500 * 1024 * 1024

pub record Match : Type 0 where
  pub path : Text
  pub hash : Text
  pub entry : Entry

unfoldable pub read_result : Option Text → Outcome → Exec World Text
read_result none o = raise refused
read_result (some c) works = pure c
read_result (some c) (fails n) = raise refused

-- `io.Copy` of an open file into the hash
unfoldable pub read_all : Text → Exec World Text
unfolding read_result
read_all path = do o ← outcome; λ w. read_result (content_at w path) o w

unfoldable pub stat_result : Option Node → Exec World Node
stat_result none = raise not_exist
stat_result (some n) = pure n

-- `os.Lstat`
unfoldable pub lstat : Text → Exec World Node
unfolding stat_result
lstat path = do call; λ w. stat_result (w.files path) w

unfoldable pub match_of : Text → Text → Option Entry → Option Match
match_of path hash none = none
match_of path hash (some e) = some (record { path = path; hash = hash; entry = e })

-- A file that cannot be scanned is reported and skipped.
unfoldable pub or_skip : Result (Option Match) → List Match
or_skip (ok (some m)) = m ∷ []
or_skip (ok none) = []
or_skip (err e) = []

module _ (p : Platform) where
  unfoldable pub hash_file : Text → Exec World Text
  unfolding read_all open_file
  hash_file path = do
    wrapping (codes "opening") (open_file path)
    c ← wrapping (codes "hashing") (read_all path)
    pure (p.sha256_hex c)

  unfoldable pub match_file : Text → Exec World (Option Match)
  unfolding hash_file match_of
  match_file path = do hash ← hash_file path; entry ← lookup p hash; pure (match_of path hash entry)

  unfoldable pub scan_node : Text → Node → Exec World (Option Match)
  unfolding match_file
  scan_node path (regular f) =
      if ltb max_scan_size (length f.content) then pure none else match_file path
  scan_node path n = pure none

  unfoldable pub scan_file : Text → Exec World (Option Match)
  unfolding scan_node lstat
  scan_file path = do n ← wrapping (codes "stat") (lstat path); scan_node path n

-- One call that `filepath.Walk` makes: whether it passes an error, and whether it is a directory.
pub record Visit : Type 0 where
  pub path : Text
  pub failed : Bool
  pub is_dir : Bool

module _ (p : Platform) where
  unfoldable pub visit : Visit → Exec World (List Match)
  unfolding or_skip
  visit v =
      if v.failed
      then pure []
      else if v.is_dir
      then pure []
      else attempt (scan_file p v.path) >>= λ r. pure (or_skip r)

  -- The calls that `filepath.Walk` makes, in order.
  unfoldable pub scan : List Visit → Exec World (List Match)
  scan [] = pure []
  scan (v ∷ vs) = do found ← visit v; rest ← scan vs; pure (found ++ rest)
