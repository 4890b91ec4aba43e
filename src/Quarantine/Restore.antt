-- ===== src/Quarantine/Restore.antt =====
-- `Restore` of internal/quarantine/quarantine.go.
use nexguard.Prelude.{ℕ, ◌≡◌, ◌≢◌, ◌⊎◌, inl, inr, none, some, arith, List, ap}
use nexguard.Prelude.Text.{Text}
use nexguard.Exec.{ok, Result-cases}
use nexguard.Store.{Db, QuarantineRow}
use nexguard.World.{World, Platform, File, regular, later_outcomes}
use nexguard.Files.{content_at}
use nexguard.Quarantine.Defs.{find_record, mark_restored, move_file, body_path, restore}
use nexguard.Quarantine.Move.{move_file-ok, move_file-err, move_file-Fixes}

module _ (p : Platform) (quarantine_dir : Text) (id : ℕ) (w : World) (r : QuarantineRow)
    (f : File) where
  abbrev body : Text
  body = body_path p quarantine_dir id r.hash

  -- The world in which the body is moved.
  abbrev ready : World
  ready = record w { outcomes = later_outcomes w.outcomes }

  moved_db : (move_file body r.original_path ready).1.db ≡ w.db
  moved_db =
      ap (λ (t : Db × ℕ × Text × List Text). t.0) ((move_file-Fixes body r.original_path).at ready)

  module _ (row : find_record id w.db.quarantine_records ≡ some r) (away : r.restored ≡ 0)
      (apart : body ≢ r.original_path) (there : w.files body ≡ some (regular f)) where
    -- A restore that returns has moved the content back and marked the record.
    pub restore_ok :
        (restore p quarantine_dir id w).0 ≡ ok tt
        → let w' = (restore p quarantine_dir id w).1 in
          (w'.files body ≡ none)
          × (content_at w' r.original_path ≡ some f.content)
          × (w'.db ≡ record w.db { quarantine_records = mark_restored id w.db.quarantine_records })
    unfolding restore
    restore_ok h = ground (arith, move_file-ok body r.original_path ready f apart there, moved_db)

    moved_content :
        let w' = (move_file body r.original_path ready).1 in
        (w'.files body ≡ some (regular f)) ⊎ (content_at w' r.original_path ≡ some f.content)
    moved_content = elim (Result-cases (move_file body r.original_path ready).0) [
      | inl (tt, done) ↦ inr (move_file-ok body r.original_path ready f apart there done).1
      | inr (e, failed) ↦ inl (move_file-err body r.original_path ready f apart there e failed)
    ]

    -- A record that is not restored, whose body is a regular file apart from the original
    -- path, is restored: whatever fails on the way, the body is still there or its content is
    -- back at the original path.
    pub restore_keeps_content :
        let w' = (restore p quarantine_dir id w).1 in
        (w'.files body ≡ some (regular f)) ⊎ (content_at w' r.original_path ≡ some f.content)
    unfolding restore
    restore_keeps_content = ground (arith, moved_content, moved_db)

  -- A record that is marked as restored is refused, and nothing is changed.
  restore_refused :
      find_record id w.db.quarantine_records ≡ some r
      → r.restored ≢ 0
      → ((restore p quarantine_dir id w).0 ≢ ok tt)
        × ((restore p quarantine_dir id w).1.db ≡ w.db)
        × ((restore p quarantine_dir id w).1.files ≡ w.files)
  unfolding restore
  restore_refused row back = ground arith
