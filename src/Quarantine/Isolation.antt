-- ===== src/Quarantine/Isolation.antt =====
-- internal/quarantine/quarantine.go: one file stays in the quarantine while others come and go.
use nexguard.Prelude.{ℕ, ◌≡◌, ◌≢◌, some, List, [], ◌∷◌}
use nexguard.Prelude.Text.{Text}
use nexguard.Store.{QuarantineRow}
use nexguard.World.{World, Platform, File, regular}
use nexguard.Quarantine.Defs.{quarantine_file_name, body_path, quarantine, restore, purge}
use nexguard.Quarantine.Kept.{Plain, Kept}

-- What a command does to the quarantine.
pub data Action : Type 0 where
  put_away : Text → Text → Action
  bring_back : ℕ → Action
  throw_away : ℕ → Action

abbrev pub act : Platform → Text → Action → World → World
act p dir (put_away path hash) w = (quarantine p dir path hash w).1
act p dir (bring_back id) w = (restore p dir id w).1
act p dir (throw_away id) w = (purge p dir id w).1

-- Actions one after another, some of which may fail.
abbrev pub act_all : Platform → Text → List Action → World → World
act_all p dir [] w = w
act_all p dir (a ∷ rest) w = act_all p dir rest (act p dir a w)

-- An action on another file than the one whose body is kept: it quarantines no file at the
-- body's path, and restores and purges other records.
abbrev pub Other : ℕ → Text → Action → Type 0
Other id body (put_away path hash) = (path ≢ body) × Plain hash
Other id body (bring_back j) = j ≢ id
Other id body (throw_away j) = j ≢ id

-- `filepath.Join` of the directory and two such names is one path only if they are one name.
abbrev pub Separate : Platform → Text → Type 0
Separate p dir =
    (i j : ℕ) (g h : Text)
    → Plain g
    → Plain h
    → body_path p dir i g ≡ body_path p dir j h
    → quarantine_file_name i g ≡ quarantine_file_name j h

module _ (p : Platform) (dir : Text) (separate : Separate p dir) (id : ℕ) (r : QuarantineRow)
    (f : File) where
  abbrev body : Text
  body = body_path p dir id r.hash

  record Held (w : World) : Type 0 where
    kept : Kept id r body w.db
    there : w.files body ≡ some (regular f)
