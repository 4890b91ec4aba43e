-- ===== src/Store.antt =====
-- internal/store/store.go: the tables of the scanner's SQLite database. A row is a record, a table
-- is its rows in rowid order, and an AUTOINCREMENT column keeps the last id that it gave out.
use nexguard.Prelude.{ℕ, List, [], Option}
use nexguard.Prelude.Text.{Text}

pub record HashRow : Type 0 where
  pub hash : Text
  pub name : Text
  pub source : Text
  pub added_at : Text

pub record DetectionRow : Type 0 where
  pub id : ℕ
  pub path : Text
  pub hash : Text
  pub matched_name : Text
  pub detected_at : Text
  pub resolved : ℕ
  pub resolution : Option Text

pub record QuarantineRow : Type 0 where
  pub id : ℕ
  pub original_path : Text
  pub hash : Text
  pub quarantined_at : Text
  pub restored : ℕ

pub record Db : Type 0 where
  pub hash_entries : List HashRow
  pub detections : List DetectionRow
  pub last_detection : ℕ
  pub quarantine_records : List QuarantineRow
  pub last_quarantine : ℕ

-- A database to which only the schema has been applied.
abbrev pub empty_db : Db
empty_db = record {
  hash_entries = [];
  detections = [];
  last_detection = 0;
  quarantine_records = [];
  last_quarantine = 0;
}
