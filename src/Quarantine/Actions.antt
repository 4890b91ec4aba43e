-- ===== src/Quarantine/Actions.antt =====
-- What each operation of internal/quarantine/quarantine.go changes in the table and of the files.
use nexguard.Prelude.{
  ℕ, suc, ◌≡◌, ◌≢◌, ◌⊎◌, sym, ap, inl, inr, none, some, List, arith, Option-cases,
}
use nexguard.Prelude.Text.{Text, text_eq_iff}
use nexguard.Store.{Db, QuarantineRow}
use nexguard.World.{World, Platform, Node, later_outcomes}
use nexguard.Files.{
  owner_only, chmod, mkdir_all, rename, open_file, create_file, copy_file, remove_file,
}
use nexguard.Files.Frame.{mkdir_all-there, chmod-elsewhere, mkdir_all-Fixes}
use nexguard.Quarantine.Defs.{
  find_record, mark_restored, delete_record, insert_record, move_file, body_path, quarantine,
  restore, purge,
}
use nexguard.Quarantine.Move.{move_file-Fixes}

-- A move touches no third file, whatever is at its source.
move_file_untouched :
    (src dst path : Text) (w : World)
    → path ≢ src
    → path ≢ dst
    → (move_file src dst w).1.files path ≡ w.files path
unfolding move_file rename open_file create_file copy_file remove_file
move_file_untouched src dst path w a b = ground (arith, text_eq_iff src path, text_eq_iff dst path)

move_file_db : (src dst : Text) (w : World) → (move_file src dst w).1.db ≡ w.db
move_file_db src dst w =
    ap (λ (t : Db × ℕ × Text × List Text). t.0) ((move_file-Fixes src dst).at w)

pub mkdir_all_db : (dir : Text) (w : World) → (mkdir_all dir w).1.db ≡ w.db
mkdir_all_db dir w = ap (λ (t : Db × ℕ × Text × List Text). t.0) ((mkdir_all-Fixes dir).at w)

module _ (p : Platform) (dir : Text) (path hash : Text) (w : World) where
  abbrev new_body : Text
  new_body = body_path p dir (suc w.db.last_quarantine) hash

  abbrev stored : Db
  stored = insert_record path hash (p.format_time (mkdir_all dir w).1.now) (mkdir_all dir w).1.db

  abbrev ready : World
  ready = record (mkdir_all dir w).1 {
    db = stored;
    outcomes = later_outcomes (later_outcomes (mkdir_all dir w).1.outcomes);
  }

  pub quarantine_db :
      ((quarantine p dir path hash w).1.db ≡ w.db)
      ⊎ ((quarantine p dir path hash w).1.db
          ≡ insert_record path hash (p.format_time (mkdir_all dir w).1.now) w.db)
  unfolding quarantine insert_record chmod
  quarantine_db = ground (arith, mkdir_all_db dir w, move_file_db path new_body ready)

  pub quarantine_untouched :
      (other : Text) (n : Node)
      → w.files other ≡ some n
      → other ≢ path
      → other ≢ new_body
      → (quarantine p dir path hash w).1.files other ≡ some n
  unfolding quarantine insert_record
  quarantine_untouched other n there b c = ground (
    arith,
    mkdir_all_db dir w,
    mkdir_all-there dir other n w there,
    move_file_untouched path new_body other ready b c,
    chmod-elsewhere new_body other owner_only (move_file path new_body ready).1 (λ e. c (sym e)),
  )

module _ (p : Platform) (dir : Text) (id : ℕ) (w : World) where
  pub restore_db :
      ((restore p dir id w).1.db ≡ w.db)
      ⊎ ((restore p dir id w).1.db
          ≡ record w.db { quarantine_records = mark_restored id w.db.quarantine_records })
  unfolding restore
  restore_db = elim (Option-cases (find_record id w.db.quarantine_records)) [
    | inl none_ ↦ ground (arith, none_)
    | inr (r, found) ↦ ground (
      arith,
      found,
      move_file_db (body_path p dir id r.hash) r.original_path
          (record w { outcomes = later_outcomes w.outcomes }),
    )
  ]

  pub restore_untouched :
      (r : QuarantineRow) (other : Text)
      → find_record id w.db.quarantine_records ≡ some r
      → other ≢ body_path p dir id r.hash
      → other ≢ r.original_path
      → (restore p dir id w).1.files other ≡ w.files other
  unfolding restore
  restore_untouched r other found a b = ground (
    arith,
    found,
    move_file_untouched (body_path p dir id r.hash) r.original_path other
        (record w { outcomes = later_outcomes w.outcomes }) a b,
  )

  pub restore_missing :
      find_record id w.db.quarantine_records ≡ none → (restore p dir id w).1.files ≡ w.files
  unfolding restore
  restore_missing missing = ground (arith, missing)

  pub purge_db :
      ((purge p dir id w).1.db ≡ w.db)
      ⊎ ((purge p dir id w).1.db
          ≡ record w.db { quarantine_records = delete_record id w.db.quarantine_records })
  unfolding purge remove_file
  purge_db = ground arith

  pub purge_untouched :
      (r : QuarantineRow) (other : Text)
      → find_record id w.db.quarantine_records ≡ some r
      → other ≢ body_path p dir id r.hash
      → (purge p dir id w).1.files other ≡ w.files other
  unfolding purge remove_file
  purge_untouched r other found a =
      ground (arith, found, text_eq_iff (body_path p dir id r.hash) other)

  pub purge_missing :
      find_record id w.db.quarantine_records ≡ none → (purge p dir id w).1.files ≡ w.files
  unfolding purge
  purge_missing missing = ground (arith, missing)
