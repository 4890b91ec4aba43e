-- ===== src/Tests/Prompts.antt =====
-- Witnesses for the prompt and the review.
use nexguard.Prelude.{◌≡◌, ◌≢◌, refl, true, false, [], ◌∷◌, some, none, arith}
use nexguard.Prelude.Text.{Text, codes, text_eq, trim_space}
use nexguard.Exec.{ok}
use nexguard.World.{World, works, fails, next_outcome, later_outcomes}
use nexguard.Files.{remove_file, with_parents, parents_from, with_parent}
use nexguard.HashDb.{manual, find_hash, normalize_hash, entry_of}
use nexguard.Scanner.{Match, match_of}
use nexguard.Scanner.Matches.{expected}
use nexguard.Detections.{Detection}
use nexguard.Detections
use nexguard.Prompt.{to_delete, Deps, line_of, rest_of, ends_line, choice_of, resolve}
use nexguard.Prompt.Choices.{is_word, first, second, resolve_deleted}
use nexguard.Prompt.Harmless.{resolve_harmless}
use nexguard.Review.{review_one}
use nexguard.Review.Stale.{review_one_stale}
use nexguard.Tests.Sample.{sample, virus, quiet, world_with, differ}

abbrev deps : Deps
deps = record { quarantine_dir = codes "/q"; report_log_path = codes "/log/detections.log" }

abbrev virus_match : Match
virus_match = record {
  path = codes "/bad";
  hash = virus;
  entry = record { hash = virus; name = codes "Eicar"; source = manual; added_at = 7 };
}

-- "Delete", and then "y" without a line feed.
abbrev deleting : World
deleting = world_with (codes " Delete\ny") []

deleted : (resolve sample deps virus_match deleting).0 ≡ ok to_delete
unfolding resolve line_of rest_of ends_line choice_of text_eq trim_space remove_file next_outcome
    later_outcomes
deleted = refl

resolve_deleted_example :
    (is_word (first sample deps virus_match deleting) (codes "d") (codes "delete") ≡ true)
    × (is_word (second sample deps virus_match deleting) (codes "y") (codes "yes") ≡ true)
    × ((resolve sample deps virus_match deleting).1.files (codes "/bad") ≡ none)
    × ((resolve sample deps virus_match deleting).1.db ≡ deleting.db)
    × ((path : Text)
        → path ≢ codes "/bad"
        → (resolve sample deps virus_match deleting).1.files path ≡ deleting.files path)
resolve_deleted_example = resolve_deleted sample deps virus_match deleting deleted

abbrev reporting : World
reporting = world_with (codes "r\n") (works ∷ works ∷ fails 2 ∷ [])

resolve_harmless_example :
    ((resolve sample deps virus_match reporting).1.db ≡ reporting.db)
    × ((resolve sample deps virus_match reporting).1.files (codes "/bad")
        ≡ reporting.files (codes "/bad"))
unfolding choice_of line_of trim_space text_eq with_parents parents_from with_parent
resolve_harmless_example =
    resolve_harmless sample deps virus_match (codes "/bad")
      (differ (codes "/log") (codes "/bad") refl, tt)
      (differ (codes "/log/detections.log") (codes "/bad") refl) reporting refl refl

-- The file that was queued has been replaced by a clean one.
abbrev queued : Detection
queued = record {
  id = 1;
  path = codes "/good";
  hash = virus;
  matched_name = codes "Eicar";
  detected_at = 8;
  resolved = false;
  resolution = [];
}

replaced :
    (m : Match) → expected sample quiet.db quiet.files (codes "/good") ≡ some m → m.hash ≢ virus
unfolding match_of normalize_hash trim_space find_hash text_eq entry_of
replaced m h = ground arith

abbrev asked : World
asked = world_with (codes "d\ny\n") []

review_one_stale_example :
    let w' = (review_one sample deps queued asked).1 in
    (w'.files ≡ asked.files)
    × (w'.db.quarantine_records ≡ asked.db.quarantine_records)
    × (w'.db.hash_entries ≡ asked.db.hash_entries)
    × (w'.stdin ≡ asked.stdin)
    × ((review_one sample deps queued asked).0 ≡ ok tt
        → w'.db.detections ≡ Detections.resolve_rows 1 (codes "skipped-stale") asked.db.detections)
review_one_stale_example = review_one_stale sample deps queued asked replaced
