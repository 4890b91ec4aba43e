-- ===== src/Quarantine/Defs.antt =====
-- internal/quarantine/quarantine.go: `Quarantine`, `Restore`, `Purge`, `List` and `moveFile`.
use mathlib.Core.Option
use nexguard.Prelude.{
  ℕ, suc, Bool, not, List, [], ◌∷◌, ◌++◌, Option, none, some, if◌then◌else◌, ◌==◌, order_by,
}
use nexguard.Prelude.Text.{Text, codes, text_le}
use nexguard.Prelude.Text.Decimal.{decimal}
use nexguard.Exec.{
  not_exist, errorf, wrap, Exec, Result, ok, err, pure, raise, gets, attempt, wrapping, ◌>>=◌, ◌>>◌,
}
use nexguard.Store.{QuarantineRow, Db}
use nexguard.World.{World, Platform, call, query, exec}
use nexguard.Files.{
  owner_only, rename, open_file, create_file, copy_file, remove_file, chmod, mkdir_all,
}

pub record Record : Type 0 where
  pub id : ℕ
  pub original_path : Text
  pub hash : Text
  pub quarantined_at : ℕ
  pub restored : Bool

-- `SELECT ... FROM quarantine_records WHERE id = ?`
unfoldable pub find_record : ℕ → List QuarantineRow → Option QuarantineRow
find_record id [] = none
find_record id (r ∷ rows) = if r.id == id then some r else find_record id rows

-- `UPDATE quarantine_records SET restored = 1 WHERE id = ?`
unfoldable pub mark_restored : ℕ → List QuarantineRow → List QuarantineRow
mark_restored id [] = []
mark_restored id (r ∷ rows) =
    (if r.id == id then record r { restored = 1 } else r) ∷ mark_restored id rows

-- `DELETE FROM quarantine_records WHERE id = ?`
unfoldable pub delete_record : ℕ → List QuarantineRow → List QuarantineRow
delete_record id [] = []
delete_record id (r ∷ rows) =
    let rest = delete_record id rows in if r.id == id then rest else r ∷ rest

-- `fmt.Sprintf("%d-%s", id, hash)`
unfoldable pub quarantine_file_name : ℕ → Text → Text
quarantine_file_name id hash = decimal id ++ b'-' ∷ hash

-- The deferred closes are left out: what `io.Copy` wrote without an error is taken to stay written
-- when the file is closed, where the code ignores an error.
unfoldable pub copy_across : Text → Text → Exec World Unit
copy_across src dst = do open_file src; create_file dst; copy_file src dst; remove_file src

unfoldable pub after_rename : Text → Text → Result (Unit {0}) → Exec World Unit
unfolding copy_across
after_rename src dst (ok a) = pure tt
after_rename src dst (err e) = copy_across src dst

unfoldable pub move_file : Text → Text → Exec World Unit
unfolding after_rename
move_file src dst = do r ← attempt (rename src dst); after_rename src dst r

-- `INSERT INTO quarantine_records ... VALUES (?, ?, ?, 0)`
unfoldable pub insert_record : Text → Text → Text → Db → Db
insert_record path hash at db = record db {
  quarantine_records =
      db.quarantine_records
      ++ record {
        id = suc db.last_quarantine;
        original_path = path;
        hash = hash;
        quarantined_at = at;
        restored = 0;
      }
        ∷ [];
  last_quarantine = suc db.last_quarantine;
}

module _ (p : Platform) (quarantine_dir : Text) where
  -- Where the body of a record is kept.
  unfoldable pub body_path : ℕ → Text → Text
  body_path id hash = p.join quarantine_dir (quarantine_file_name id hash)

  unfoldable pub quarantine : Text → Text → Exec World ℕ
  quarantine path hash = do
    wrapping (codes "creating quarantine dir") (mkdir_all quarantine_dir)
    now ← gets (λ w. w.now)
    wrapping (codes "recording quarantine") (exec (insert_record path hash (p.format_time now)))
    id ← wrapping (codes "getting quarantine record id") (do call; gets (λ w. w.db.last_quarantine))
    wrapping (codes "moving to quarantine") (move_file path (body_path id hash))
    wrapping (codes "stripping execute bit") (chmod (body_path id hash) owner_only)
    pure id

  unfoldable pub move_back : ℕ → QuarantineRow → Exec World Unit
  move_back id r = do
    wrapping (codes "restoring") (move_file (body_path id r.hash) r.original_path)
    exec (λ db. record db { quarantine_records = mark_restored id db.quarantine_records })

  unfoldable pub restore_row : ℕ → Option QuarantineRow → Exec World Unit
  unfolding move_back
  restore_row id none = raise (errorf (codes "no quarantine record with id"))
  restore_row id (some r) =
      if r.restored == 0
      then move_back id r
      else raise (errorf (codes "quarantine record already restored"))

  unfoldable pub restore : ℕ → Exec World Unit
  unfolding restore_row
  restore id = do
    row ←
        wrapping (codes "looking up quarantine record")
          (query (λ db. find_record id db.quarantine_records))
    restore_row id row

  -- A body that is gone already is no error.
  unfoldable pub body_removed : Result (Unit {0}) → Exec World Unit
  body_removed (ok a) = pure tt
  body_removed (err not_exist) = pure tt
  body_removed (err e) = raise (wrap (codes "removing quarantined file") e)

  unfoldable pub remove_body : ℕ → QuarantineRow → Exec World Unit
  unfolding body_removed
  remove_body id r =
      if r.restored == 0
      then attempt (remove_file (body_path id r.hash)) >>= body_removed
      else pure tt

  unfoldable pub purge_row : ℕ → Option QuarantineRow → Exec World Unit
  unfolding remove_body
  purge_row id none = raise (errorf (codes "no quarantine record with id"))
  purge_row id (some r) = do
    remove_body id r
    exec (λ db. record db { quarantine_records = delete_record id db.quarantine_records })

  unfoldable pub purge : ℕ → Exec World Unit
  unfolding purge_row
  purge id = do
    row ←
        wrapping (codes "looking up quarantine record")
          (query (λ db. find_record id db.quarantine_records))
    purge_row id row

module _ (p : Platform) where
  -- `Scan` and `time.Parse` of one row.
  unfoldable pub record_of : QuarantineRow → Option Record
  record_of r =
      Option.map
        (λ t. record {
          id = r.id;
          original_path = r.original_path;
          hash = r.hash;
          quarantined_at = t;
          restored = not (r.restored == 0);
        })
        (p.parse_time r.quarantined_at)

  unfoldable pub records_of : List QuarantineRow → Exec World (List Record)
  records_of [] = pure []
  records_of (r ∷ rows) =
      let rest = records_of rows in
      elim (record_of r) [
        | none ↦ raise (errorf (codes "parsing quarantined_at"))
        | some x ↦ rest >>= λ xs. pure (x ∷ xs)
      ]

  -- `List`, with its `ORDER BY quarantined_at`.
  unfoldable pub list : Exec World (List Record)
  list = do
    rows ← wrapping (codes "listing quarantine records") (
        query
          (λ db. order_by (λ a b. text_le a.quarantined_at b.quarantined_at) db.quarantine_records))
    records_of rows
