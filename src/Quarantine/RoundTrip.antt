-- ===== src/Quarantine/RoundTrip.antt =====
-- `Quarantine` and then `Restore` of internal/quarantine/quarantine.go, when nothing is refused.
use nexguard.Prelude.{ℕ, suc, ◌≡◌, ◌≢◌, refl, none, some, [], arith, ap, ◌∙◌, sym}
use nexguard.Prelude.Text.{Text, text_eq_iff, text_eq_refl}
use nexguard.Exec.{ok}
use nexguard.Store.{Db, QuarantineRow}
use nexguard.World.{World, Platform, File, regular, directory, next_outcome, later_outcomes}
use nexguard.Files.{owner_only, rename, chmod, mkdir_all}
use nexguard.Quarantine.Defs.{find_record, insert_record, move_file, body_path, quarantine, restore}
use nexguard.Quarantine.Records.{IdsGiven, find_record-insert_record}
use nexguard.Quarantine.Safety.{quarantine_ok}
use nexguard.Quarantine.Actions.{mkdir_all_db}
use nexguard.Files.Frame.{mkdir_all-present}

move_file_works :
    (src dst : Text) (w : World) (f : File)
    → w.outcomes ≡ []
    → src ≢ dst
    → w.files src ≡ some (regular f)
    → w.files dst ≡ none
    → let w' = (move_file src dst w).1 in
      ((move_file src dst w).0 ≡ ok tt)
      × (w'.files dst ≡ some (regular f))
      × (w'.files src ≡ none)
      × (w'.outcomes ≡ [])
      × (w'.db ≡ w.db)
unfolding move_file rename next_outcome later_outcomes
move_file_works src dst w f quiet apart there free =
    ground (arith, text_eq_iff dst src, text_eq_refl dst, text_eq_refl src)

module _ (p : Platform) (quarantine_dir : Text) where
  restore_works :
      (id : ℕ) (w : World) (r : QuarantineRow) (f : File)
      → w.outcomes ≡ []
      → find_record id w.db.quarantine_records ≡ some r
      → r.restored ≡ 0
      → body_path p quarantine_dir id r.hash ≢ r.original_path
      → w.files (body_path p quarantine_dir id r.hash) ≡ some (regular f)
      → w.files r.original_path ≡ none
      → let w' = (restore p quarantine_dir id w).1 in
        ((restore p quarantine_dir id w).0 ≡ ok tt)
        × (w'.files r.original_path ≡ some (regular f))
        × (w'.files (body_path p quarantine_dir id r.hash) ≡ none)
  unfolding restore next_outcome later_outcomes
  restore_works id w r f quiet row away apart there free = ground (
    arith,
    move_file_works (body_path p quarantine_dir id r.hash) r.original_path
        (record w { outcomes = later_outcomes w.outcomes }) f,
  )

  quarantine_works :
      (path hash : Text) (w : World) (f : File)
      → w.outcomes ≡ []
      → w.files quarantine_dir ≡ some directory
      → path ≢ body_path p quarantine_dir (suc w.db.last_quarantine) hash
      → w.files path ≡ some (regular f)
      → w.files (body_path p quarantine_dir (suc w.db.last_quarantine) hash) ≡ none
      → ((quarantine p quarantine_dir path hash w).0 ≡ ok (suc w.db.last_quarantine))
        × ((quarantine p quarantine_dir path hash w).1.outcomes ≡ [])
  unfolding quarantine insert_record chmod next_outcome later_outcomes
  quarantine_works path hash w f quiet dir off_body there free =
      let w' = (mkdir_all quarantine_dir w).1 in
      ground (
        arith,
        mkdir_all-present quarantine_dir w quiet dir,
        mkdir_all_db quarantine_dir w,
        move_file_works path (body_path p quarantine_dir (suc w.db.last_quarantine) hash)
            (record w' {
              db = insert_record path hash (p.format_time w'.now) w'.db;
              outcomes = later_outcomes (later_outcomes w'.outcomes);
            })
            f,
      )

  -- When the system refuses nothing, the directory is there, the ids of the table have been
  -- given out and the body's name is free, restoring the regular file that was just
  -- quarantined puts its content back at its path, readable by its owner only, and leaves no
  -- body.
  pub quarantine-restore :
      (path hash : Text) (w : World) (f : File)
      → w.outcomes ≡ []
      → IdsGiven w.db
      → w.files quarantine_dir ≡ some directory
      → path ≢ body_path p quarantine_dir (suc w.db.last_quarantine) hash
      → w.files path ≡ some (regular f)
      → w.files (body_path p quarantine_dir (suc w.db.last_quarantine) hash) ≡ none
      → let (r, w') = quarantine p quarantine_dir path hash w in
        let id = suc w.db.last_quarantine in
        let (r', w'') = restore p quarantine_dir id w' in
        (r ≡ ok id)
        × (r' ≡ ok tt)
        × (w''.files path ≡ some (regular (record { content = f.content; mode = owner_only })))
        × (w''.files (body_path p quarantine_dir id hash) ≡ none)
  quarantine-restore path hash w f quiet given dir off_body there free =
      let (done, quiet') = quarantine_works path hash w f quiet dir off_body there free in
      let (_, gone, moved, db) =
        quarantine_ok p quarantine_dir path hash w f off_body there _ done in
      let row =
        ap (λ (d : Db). find_record (suc w.db.last_quarantine) d.quarantine_records) db
        ∙ find_record-insert_record path hash (p.format_time w.now) w.db (suc w.db.last_quarantine)
            given in
      let (back, restored, empty) =
        restore_works (suc w.db.last_quarantine) _
          (record {
            id = suc w.db.last_quarantine;
            original_path = path;
            hash = hash;
            quarantined_at = p.format_time w.now;
            restored = 0;
          })
          _ quiet' (row ∙ ground arith) refl (λ e. off_body (sym e)) moved gone in
      (done, back, restored, empty)
