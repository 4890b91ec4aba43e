-- ===== src/Quarantine/Purge.antt =====
-- `Purge` of internal/quarantine/quarantine.go.
use nexguard.Prelude.{ℕ, ◌≡◌, ◌≢◌, none, some, arith}
use nexguard.Prelude.Text.{Text, text_eq_iff, text_eq_refl}
use nexguard.Exec.{ok}
use nexguard.Store.{QuarantineRow}
use nexguard.World.{World, Platform}
use nexguard.Files.{remove_file}
use nexguard.Quarantine.Defs.{find_record, body_path, purge}
use nexguard.Quarantine.Records.{find_record-delete_record}

module _ (p : Platform) (quarantine_dir : Text) (id : ℕ) (w : World) (r : QuarantineRow) where
  abbrev body : Text
  body = body_path p quarantine_dir id r.hash

  module _ (row : find_record id w.db.quarantine_records ≡ some r) where
    -- A purge of a stored record that returns has deleted the record, and the body of a record
    -- that was not restored.
    purge_ok :
        (purge p quarantine_dir id w).0 ≡ ok tt
        → let w' = (purge p quarantine_dir id w).1 in
          (find_record id w'.db.quarantine_records ≡ none) × (r.restored ≡ 0 → w'.files body ≡ none)
    unfolding purge remove_file
    purge_ok h =
        ground (arith, find_record-delete_record id id w.db.quarantine_records, text_eq_refl body)

    -- Purging the record of a restored file touches no file.
    pub purge_restored : r.restored ≢ 0 → (purge p quarantine_dir id w).1.files ≡ w.files
    unfolding purge
    purge_restored back = ground arith

    -- No purge touches another record or a file other than the body.
    purge_elsewhere :
        (other : ℕ) (path : Text)
        → other ≢ id
        → path ≢ body
        → let w' = (purge p quarantine_dir id w).1 in
          (find_record other w'.db.quarantine_records ≡ find_record other w.db.quarantine_records)
          × (w'.files path ≡ w.files path)
    unfolding purge remove_file
    purge_elsewhere other path a b =
        ground
          (arith, find_record-delete_record id other w.db.quarantine_records, text_eq_iff body path)
