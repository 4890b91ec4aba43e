-- ===== src/Quarantine/Kept.antt =====
-- A record of internal/quarantine/quarantine.go that stays in its table while others change.
use nexguard.Prelude.{
  ℕ, suc, ◌≤◌, ◌≡◌, ◌≢◌, ◌∙◌, inl, inr, some, List, [], ◌∷◌, arith, All, if◌then◌else◌, ◌==◌,
}
use nexguard.Prelude.Text.{Text}
use nexguard.Store.{Db, QuarantineRow}
use nexguard.Quarantine.Defs.{find_record, mark_restored, delete_record, insert_record}
use nexguard.Quarantine.Records.{
  IdsGiven, find_record-id, find_record-insert_record, find_record-mark_restored,
  find_record-delete_record,
}
use nexguard.Prelude.{All-append, All-map, Bool-cases, true, false, subst}

-- A hash without a separator, so that the name of a body file is one element of a path.
abbrev pub Plain : Text → Type 0
Plain hash = All (λ c. c ≢ b'/') hash

All-mark_restored :
    (P : QuarantineRow → Type 0) (id : ℕ) (rows : List QuarantineRow)
    → ((r : QuarantineRow) → P r → P (record r { restored = 1 }))
    → All P rows
    → All P (mark_restored id rows)
unfolding mark_restored
All-mark_restored P id [] keep h = tt
All-mark_restored P id (r ∷ rows) keep h = (
  elim (r.id == id) as (λ t. P (if t then record r { restored = 1 } else r)) [
    | true ↦ keep r h.0
    | false ↦ h.0
  ],
  All-mark_restored P id rows keep h.1,
)

All-delete_record :
    (P : QuarantineRow → Type 0) (id : ℕ) (rows : List QuarantineRow)
    → All P rows
    → All P (delete_record id rows)
unfolding delete_record
All-delete_record P id [] h = tt
All-delete_record P id (r ∷ rows) h =
    elim (r.id == id)
      as (λ t. All P (if t then delete_record id rows else r ∷ delete_record id rows)) [
        | true ↦ All-delete_record P id rows h.1
        | false ↦ (h.0, All-delete_record P id rows h.1)
      ]

pub find_record-All :
    (P : QuarantineRow → Type 0) (id : ℕ) (rows : List QuarantineRow) (r : QuarantineRow)
    → find_record id rows ≡ some r
    → All P rows
    → P r
unfolding find_record
find_record-All P id [] r found h = ground (arith, found)
find_record-All P id (x ∷ rows) r found h = elim (Bool-cases (x.id == id)) [
  | inl e ↦ subst P (ground (arith, e, found)) h.0
  | inr e ↦ find_record-All P id rows r (ground (arith, e, found)) h.1
]

-- The table has the record, and no record of it names the body as its original path.
pub record Kept (id : ℕ) (r : QuarantineRow) (body : Text) (db : Db) : Type 0 where
  pub found : find_record id db.quarantine_records ≡ some r
  pub given : IdsGiven db
  pub rows : All (λ x. (x.original_path ≢ body) × Plain x.hash) db.quarantine_records

module _ (id : ℕ) (r : QuarantineRow) (body : Text) (db : Db) (k : Kept id r body db) where
  pub older : id ≤ db.last_quarantine
  older = ground (
    arith,
    find_record-id id db.quarantine_records r k.found,
    find_record-All (λ x. x.id ≤ db.last_quarantine) id db.quarantine_records r k.found k.given,
  )

  pub insert_record-Kept :
      (path hash at : Text)
      → path ≢ body
      → Plain hash
      → Kept id r body (insert_record path hash at db)
  unfolding insert_record
  insert_record-Kept path hash at apart plain = record {
    found = find_record-insert_record path hash at db id k.given ∙ ground (arith, older, k.found);
    given =
        All-append _ db.quarantine_records _
          (All-map (λ x. x.id ≤ db.last_quarantine) (λ x. x.id ≤ suc db.last_quarantine)
            db.quarantine_records (λ x h. omega arith) k.given)
          (omega arith, tt);
    rows = All-append _ db.quarantine_records _ k.rows ((apart, plain), tt);
  }

  pub mark_restored-Kept :
      (j : ℕ)
      → j ≢ id
      → Kept id r body (record db { quarantine_records = mark_restored j db.quarantine_records })
  mark_restored-Kept j ne = record {
    found = ground (arith, find_record-mark_restored j id db.quarantine_records, k.found);
    given =
        All-mark_restored (λ x. x.id ≤ db.last_quarantine) j db.quarantine_records (λ x h. h)
          k.given;
    rows =
        All-mark_restored (λ x. (x.original_path ≢ body) × Plain x.hash) j db.quarantine_records
          (λ x h. h) k.rows;
  }

  pub delete_record-Kept :
      (j : ℕ)
      → j ≢ id
      → Kept id r body (record db { quarantine_records = delete_record j db.quarantine_records })
  delete_record-Kept j ne = record {
    found = ground (arith, find_record-delete_record j id db.quarantine_records, k.found);
    given = All-delete_record (λ x. x.id ≤ db.last_quarantine) j db.quarantine_records k.given;
    rows =
        All-delete_record (λ x. (x.original_path ≢ body) × Plain x.hash) j db.quarantine_records
          k.rows;
  }
