-- ===== src/Quarantine/Records.antt =====
-- How the statements on `quarantine_records` act on what a later SELECT finds.
use mathlib.Core.Option
use nexguard.Prelude.{
  ℕ, suc, ◌≤◌, ◌≡◌, refl, none, some, List, [], ◌∷◌, ◌++◌, arith, All, if◌then◌else◌, ◌==◌,
}
use nexguard.Store.{QuarantineRow, Db}
use nexguard.Quarantine.Defs.{find_record, mark_restored, delete_record, insert_record}

abbrev restored_row : QuarantineRow → QuarantineRow
restored_row r = record r { restored = 1 }

pub find_record-mark_restored :
    (id j : ℕ) (rows : List QuarantineRow)
    → find_record j (mark_restored id rows)
      ≡ (if id == j then Option.map restored_row (find_record j rows) else find_record j rows)
unfolding find_record mark_restored
find_record-mark_restored id j [] = ground arith
find_record-mark_restored id j (r ∷ rows) = ground (arith, find_record-mark_restored id j rows)

pub find_record-delete_record :
    (id j : ℕ) (rows : List QuarantineRow)
    → find_record j (delete_record id rows) ≡ (if id == j then none else find_record j rows)
unfolding find_record delete_record
find_record-delete_record id j [] = ground arith
find_record-delete_record id j (r ∷ rows) = ground (arith, find_record-delete_record id j rows)

pub find_record-id :
    (id : ℕ) (rows : List QuarantineRow) (r : QuarantineRow)
    → find_record id rows ≡ some r
    → r.id ≡ id
unfolding find_record
find_record-id id [] r h = ground arith
find_record-id id (x ∷ rows) r h = ground (arith, find_record-id id rows r)

-- AUTOINCREMENT has given out every id in the table.
abbrev pub IdsGiven : Db → Type 0
IdsGiven db = All (λ r. r.id ≤ db.last_quarantine) db.quarantine_records

find_record-snoc :
    (id n : ℕ) (rows : List QuarantineRow) (x : QuarantineRow)
    → x.id ≡ suc n
    → All (λ r. r.id ≤ n) rows
    → find_record id (rows ++ x ∷ []) ≡ (if suc n == id then some x else find_record id rows)
unfolding find_record
find_record-snoc id n [] x e h = ground arith
find_record-snoc id n (r ∷ rows) x e h = ground (arith, find_record-snoc id n rows x e h.1)

-- The new record is found under its id, and no other record is hidden.
pub find_record-insert_record :
    (path hash at : List ℕ) (db : Db) (id : ℕ)
    → IdsGiven db
    → find_record id (insert_record path hash at db).quarantine_records ≡ (
        if suc db.last_quarantine == id
        then some (record {
          id = suc db.last_quarantine;
          original_path = path;
          hash = hash;
          quarantined_at = at;
          restored = 0;
        })
        else find_record id db.quarantine_records)
unfolding insert_record
find_record-insert_record path hash at db id given =
    find_record-snoc id db.last_quarantine db.quarantine_records _ refl given
