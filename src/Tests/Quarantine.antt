-- ===== src/Tests/Quarantine.antt =====
-- Witnesses for the quarantine.
use nexguard.Prelude.{List, ◌≡◌, ◌≢◌, refl, [], ◌∷◌, some, none, if◌then◌else◌}
use nexguard.Prelude.Text.{Text, codes, text_eq}
use nexguard.Prelude.Text.Decimal.{decimal}
use nexguard.Exec.{ok}
use nexguard.Store.{QuarantineRow, empty_db}
use nexguard.World.{World, File, regular, works, fails}
use nexguard.Files.{owner_only}
use nexguard.Quarantine.{body_path, quarantine_file_name, quarantine, restore}
use nexguard.Quarantine.Isolation.{Action, put_away, bring_back, throw_away}
use nexguard.Quarantine.RoundTrip.{quarantine-restore}
use nexguard.Tests.Sample.{sample, virus, quiet, differ, world_with, sample_files}

abbrev bad_file : File
bad_file = record { content = virus; mode = 0o755 }

abbrev dir : Text
dir = codes "/q"

-- The rename fails, and so does the removal after the copy.
abbrev broken : World
broken = world_with [] (works ∷ works ∷ works ∷ fails 0 ∷ works ∷ works ∷ works ∷ fails 0 ∷ [])

-- Where a first body goes.
abbrev body : Text
body = body_path sample dir 1 virus

body_apart : codes "/bad" ≢ body
unfolding body_path quarantine_file_name decimal text_eq
body_apart = differ (codes "/bad") body refl

quarantine-restore_example :
    let (r, w') = quarantine sample dir (codes "/bad") virus quiet in
    let (r', w'') = restore sample dir 1 w' in
    (r ≡ ok 1)
    × (r' ≡ ok tt)
    × (w''.files (codes "/bad") ≡ some (regular (record { content = virus; mode = owner_only })))
    × (w''.files body ≡ none)
unfolding body_path quarantine_file_name decimal text_eq
quarantine-restore_example =
    quarantine-restore sample dir (codes "/bad") virus quiet bad_file refl tt refl body_apart refl
      refl

-- A record whose body is in the quarantine.
abbrev kept_row : QuarantineRow
kept_row = record {
  id = 1;
  original_path = codes "/old";
  hash = virus;
  quarantined_at = codes "7";
  restored = 0;
}

-- Another record, whose file is back, stands in the table too, and some calls will fail.
abbrev kept : World
kept =
    let outcomes = works ∷ works ∷ works ∷ fails 0 ∷ works ∷ works ∷ works ∷ works ∷ fails 0 ∷ [] in
    record (world_with [] outcomes) {
      db = record empty_db {
        quarantine_records =
            kept_row ∷ record kept_row { id = 2; original_path = codes "/back"; restored = 1 } ∷ [];
        last_quarantine = 2;
      };
      files = λ path. if text_eq path body then some (regular bad_file) else sample_files path;
    }

-- Another file comes, the other record and one that is not there are purged, and the new file is
-- restored.
abbrev meanwhile : List Action
meanwhile = put_away (codes "/bad") virus ∷ throw_away 2 ∷ throw_away 9 ∷ bring_back 3 ∷ []
