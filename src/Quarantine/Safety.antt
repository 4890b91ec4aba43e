-- ===== src/Quarantine/Safety.antt =====
-- `Quarantine` of internal/quarantine/quarantine.go: what it leaves on every path, errors included.
use nexguard.Prelude.{ℕ, suc, ◌≡◌, ◌≢◌, List, ap, none, some, arith}
use nexguard.Prelude.Text.{Text, text_eq_iff, text_eq_refl}
use nexguard.Exec.{ok}
use nexguard.Store.{Db}
use nexguard.World.{World, Platform, File, regular, later_outcomes}
use nexguard.Files.{owner_only, chmod, mkdir_all}
use nexguard.Files.Frame.{mkdir_all-there, mkdir_all-Fixes}
use nexguard.Quarantine.Defs.{move_file, insert_record, body_path, quarantine}
use nexguard.Quarantine.Move.{move_file-ok, move_file-Fixes}

module _ (p : Platform) (quarantine_dir path hash : Text) (w : World) where
  abbrev pub body : Text
  body = body_path p quarantine_dir (suc w.db.last_quarantine) hash

  -- The world in which the file is moved.
  abbrev ready : World
  ready =
      let w' = (mkdir_all quarantine_dir w).1 in
      record w' {
        db = insert_record path hash (p.format_time w'.now) w'.db;
        outcomes = later_outcomes (later_outcomes w'.outcomes);
      }

  same_db : (mkdir_all quarantine_dir w).1.db ≡ w.db
  same_db = ap (λ (t : Db × ℕ × Text × List Text). t.0) ((mkdir_all-Fixes quarantine_dir).at w)

  same_now : (mkdir_all quarantine_dir w).1.now ≡ w.now
  same_now = ap (λ (t : Db × ℕ × Text × List Text). t.1) ((mkdir_all-Fixes quarantine_dir).at w)

  moved_db : (move_file path body ready).1.db ≡ ready.db
  moved_db = ap (λ (t : Db × ℕ × Text × List Text). t.0) ((move_file-Fixes path body).at ready)

  module _ (f : File) (off_body : path ≢ body) (there : w.files path ≡ some (regular f)) where
    ready_there : ready.files path ≡ some (regular f)
    ready_there = mkdir_all-there quarantine_dir path (regular f) w there

    -- A quarantine that returns has a new id, has moved the content into the body, which only
    -- its owner may read, and has recorded it.
    pub quarantine_ok :
        (id : ℕ)
        → (quarantine p quarantine_dir path hash w).0 ≡ ok id
        → let w' = (quarantine p quarantine_dir path hash w).1 in
          (id ≡ suc w.db.last_quarantine)
          × (w'.files path ≡ none)
          × (w'.files body ≡ some (regular (record { content = f.content; mode = owner_only })))
          × (w'.db ≡ insert_record path hash (p.format_time w.now) w.db)
    unfolding quarantine insert_record chmod
    quarantine_ok id h = ground (
      arith,
      move_file-ok path body ready f off_body ready_there,
      same_db,
      same_now,
      moved_db,
      text_eq_refl body,
      text_eq_iff body path,
    )
