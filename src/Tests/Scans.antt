-- ===== src/Tests/Scans.antt =====
-- Witnesses for scans, the watcher's handler, the queue and the commands that write the hashes.
use nexguard.Prelude.{◌≡◌, refl, ap, true, false, List, [], ◌∷◌, ◌++◌, some, map, length, All}
use nexguard.Prelude.Text.{Text, codes, text_eq, trim_space}
use nexguard.Prelude.Text.Decimal.{value_from, value_from-decimal}
use nexguard.Exec.{ok}
use nexguard.World.{works, fails}
use nexguard.HashDb.{find_hash, normalize_hash, entry_of, lookup, manual}
use nexguard.Scanner.{Match, Visit, scan, match_of, or_skip}
use nexguard.Scanner.Matches.{expected_all, IsExpected, scan_sound, scan_complete}
use nexguard.Feed.{Row, fields, answered}
use nexguard.Commands.{run_sync, hashes_add, is_sha256}
use nexguard.Commands.Sync.{run_sync_keeps_manual}
use nexguard.Commands.Add.{lookup-hashes_add}
use nexguard.Commands.Watch.{WatchStats, handle_files}
use nexguard.Commands.Watch.Queue.{labels, label, expected_files, handle_files_queues}
use nexguard.Tests.Sample.{sample, virus, virus_row, quiet, world_with}

abbrev visits : List Visit
visits =
    record { path = codes "/q"; failed = false; is_dir = true }
    ∷ record { path = codes "/good"; failed = false; is_dir = false }
    ∷ record { path = codes "/bad"; failed = false; is_dir = false }
    ∷ []

scan_sound_example :
    (ms : List Match) × ((scan sample visits (world_with [] (works ∷ fails 0 ∷ []))).0 ≡ ok ms)
    × All (IsExpected sample quiet.db quiet.files) ms
scan_sound_example = scan_sound sample visits (world_with [] (works ∷ fails 0 ∷ []))

scan_complete_example :
    (scan sample visits quiet).0 ≡ ok (expected_all sample quiet.db quiet.files visits)
scan_complete_example = scan_complete sample visits quiet refl

abbrev virus_match : Match
virus_match = record {
  path = codes "/bad";
  hash = virus;
  entry = record { hash = virus; name = codes "Eicar"; source = manual; added_at = 7 };
}

-- The scan of the sample reports the one match.
expected_virus : expected_all sample quiet.db quiet.files visits ≡ virus_match ∷ []
unfolding or_skip match_of normalize_hash trim_space find_hash text_eq entry_of value_from
expected_virus = refl

abbrev paths : List Text
paths = codes "/good" ∷ codes "/bad" ∷ codes "/bad" ∷ []

abbrev fresh_stats : WatchStats
fresh_stats = record { scanned = 0; matches = 0 }

handle_files_queues_example :
    let ms = expected_files sample quiet.db quiet.files paths in
    ((handle_files sample (λ title message. ok tt) fresh_stats paths quiet).0
      ≡ ok (record { scanned = 3; matches = length ms }))
    × (labels (handle_files sample (λ title message. ok tt) fresh_stats paths quiet).1
        ≡ labels quiet ++ map label ms)
unfolding or_skip text_eq match_of find_hash normalize_hash trim_space entry_of
handle_files_queues_example =
    handle_files_queues sample (λ title message. ok tt) fresh_stats paths quiet refl

-- A feed with a row for the hash that was added by hand.
abbrev rows : List Row
rows = fields (codes "t" ∷ codes " ABC" ∷ [] ∷ [] ∷ [] ∷ [] ∷ [] ∷ [] ∷ codes "Other" ∷ []) ∷ []

run_sync_keeps_manual_example :
    find_hash virus (run_sync sample (answered 200 rows) quiet).1.db.hash_entries ≡ some virus_row
unfolding find_hash text_eq
run_sync_keeps_manual_example =
    run_sync_keeps_manual sample (answered 200 rows) quiet virus virus_row refl refl

abbrev sixty_four : Text
sixty_four = codes "0123456789abcdef0123456789ABCDEF0123456789abcdef0123456789abcdef"

lookup-hashes_add_example :
    (lookup sample sixty_four (hashes_add sample sixty_four (codes "mine") quiet).1).0
    ≡ ok (
        some (record {
          hash = normalize_hash sample sixty_four;
          name = codes "mine";
          source = manual;
          added_at = 9;
        }))
unfolding is_sha256 trim_space
lookup-hashes_add_example =
    lookup-hashes_add sample sixty_four (codes "mine") sixty_four quiet 9 refl refl refl
      (ap some (value_from-decimal 9))
